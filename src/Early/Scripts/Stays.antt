-- ===== src/Early/Scripts/Stays.antt =====
-- Control stays inside the lists, and c4-scripts.c has those of c3.c.
use north_arm.Prelude.{ℕ, ◌≡◌, refl, true, List, map}
use north_arm.Interp.Item.{Item, Colon, Text}
use north_arm.Interp.Flow.{Reaches, starts, plain, pushed, items_from}
use north_arm.Interp.Flow.Closed.{closed, closed-starts, inner-starts}
use north_arm.Early.Scripts.Piece.{Script, Piece, op, script, text, num, neg}
use north_arm.Early.Scripts.First
use north_arm.Early.Scripts.FirstScript.{FirstScript}
use north_arm.Early.Scripts.Second
use north_arm.Early.Scripts.SecondScript.{SecondScript}
use north_arm.Early.Scripts.Third
use north_arm.Early.Scripts.ThirdTests
use north_arm.Early.Scripts.Fourth
use north_arm.Early.Scripts.FourthTests

-- The list of each word in c4-scripts.c is that of the same word in c3.c.
pub third_fourth : (w : Script) → Third.list w ≡ Fourth.list w
unfolding Third.list Fourth.list Third.hey Third.bootstrap Third.words1 ThirdTests.test_rallot_exit
    ThirdTests.test_rallot_return ThirdTests.test_rallot ThirdTests.rpushpop
    ThirdTests.test_nesting1 ThirdTests.test_nesting0 ThirdTests.test_read Third.words Fourth.hey
    Fourth.bootstrap Fourth.words1 FourthTests.test_rallot_exit FourthTests.test_rallot_return
    FourthTests.test_rallot FourthTests.rpushpop FourthTests.test_nesting1 FourthTests.test_nesting0
    FourthTests.test_read Fourth.words
third_fourth Script.hey = refl
third_fourth Script.bootstrap = refl
third_fourth Script.words1 = refl
third_fourth Script.test_rallot_exit = refl
third_fourth Script.test_rallot_return = refl
third_fourth Script.test_rallot = refl
third_fourth Script.rpushpop = refl
third_fourth Script.test_nesting1 = refl
third_fourth Script.test_nesting0 = refl
third_fourth Script.test_read = refl
third_fourth Script.words = refl

-- For control a word is a step and a text is a cell, whichever they are.
abbrev shape : {S : Type 0} → Piece S → Item
shape (op o) = Item.op o
shape (script w) = Item.word Colon.words
shape (text s) = Item.text Text.empty_string
shape (num n) = Item.num n
shape (neg n) = Item.neg n

pub data Program : Type 0 where
  first : FirstScript → Program
  second : SecondScript → Program
  third : Script → Program
  fourth : Script → Program

unfoldable pub code : Program → List Item
unfolding First.list Second.list Third.list Fourth.list
code (first w) = map shape (First.list w)
code (second w) = map shape (Second.list w)
code (third w) = map shape (Third.list w)
code (fourth w) = map shape (Fourth.list w)

-- How many items of a list can run; the last two of bootstrap cannot.
abbrev size : Program → ℕ
size (first FirstScript.bootstrap) = 48
size (second SecondScript.bootstrap) = 48
size (third Script.bootstrap) = 50
size (fourth Script.bootstrap) = 50
size (first FirstScript.hey) = 4
size (first FirstScript.words1) = 20
size (first FirstScript.words) = 3
size (second SecondScript.hey) = 4
size (second SecondScript.words1) = 20
size (second SecondScript.words) = 3
size (second SecondScript.rallot_exit) = 14
size (second SecondScript.rallot_return) = 14
size (second SecondScript.rallot2) = 27
size (third Script.hey) = 4
size (third Script.words1) = 46
size (third Script.test_rallot_exit) = 14
size (third Script.test_rallot_return) = 14
size (third Script.test_rallot) = 27
size (third Script.rpushpop) = 22
size (third Script.test_nesting1) = 6
size (third Script.test_nesting0) = 6
size (third Script.test_read) = 28
size (third Script.words) = 3
size (fourth Script.hey) = 4
size (fourth Script.words1) = 46
size (fourth Script.test_rallot_exit) = 14
size (fourth Script.test_rallot_return) = 14
size (fourth Script.test_rallot) = 27
size (fourth Script.rpushpop) = 22
size (fourth Script.test_nesting1) = 6
size (fourth Script.test_nesting0) = 6
size (fourth Script.test_read) = 28
size (fourth Script.words) = 3

code-closed : (w : Program) → closed (code w) (size w) ≡ true
unfolding code First.list Second.list Third.list Fourth.list starts items_from plain pushed
    First.hey First.bootstrap First.words1 First.words Second.hey Second.bootstrap Second.words1
    Second.words Second.rallot_exit Second.rallot_return Second.rallot2 Third.hey Third.bootstrap
    Third.words1 ThirdTests.test_rallot_exit ThirdTests.test_rallot_return ThirdTests.test_rallot
    ThirdTests.rpushpop ThirdTests.test_nesting1 ThirdTests.test_nesting0 ThirdTests.test_read
    Third.words Fourth.hey Fourth.bootstrap Fourth.words1 FourthTests.test_rallot_exit
    FourthTests.test_rallot_return FourthTests.test_rallot FourthTests.rpushpop
    FourthTests.test_nesting1 FourthTests.test_nesting0 FourthTests.test_read Fourth.words
code-closed (first FirstScript.hey) = refl
code-closed (first FirstScript.bootstrap) = refl
code-closed (first FirstScript.words1) = refl
code-closed (first FirstScript.words) = refl
code-closed (second SecondScript.hey) = refl
code-closed (second SecondScript.bootstrap) = refl
code-closed (second SecondScript.words1) = refl
code-closed (second SecondScript.words) = refl
code-closed (second SecondScript.rallot_exit) = refl
code-closed (second SecondScript.rallot_return) = refl
code-closed (second SecondScript.rallot2) = refl
code-closed (third Script.hey) = refl
code-closed (third Script.bootstrap) = refl
code-closed (third Script.words1) = refl
code-closed (third Script.test_rallot_exit) = refl
code-closed (third Script.test_rallot_return) = refl
code-closed (third Script.test_rallot) = refl
code-closed (third Script.rpushpop) = refl
code-closed (third Script.test_nesting1) = refl
code-closed (third Script.test_nesting0) = refl
code-closed (third Script.test_read) = refl
code-closed (third Script.words) = refl
code-closed (fourth Script.hey) = refl
code-closed (fourth Script.bootstrap) = refl
code-closed (fourth Script.words1) = refl
code-closed (fourth Script.test_rallot_exit) = refl
code-closed (fourth Script.test_rallot_return) = refl
code-closed (fourth Script.test_rallot) = refl
code-closed (fourth Script.rpushpop) = refl
code-closed (fourth Script.test_nesting1) = refl
code-closed (fourth Script.test_nesting0) = refl
code-closed (fourth Script.test_read) = refl
code-closed (fourth Script.words) = refl

-- Wherever control comes to in the list of a word of c1.c, c2.c, c3.c or c4-scripts.c, an
-- instruction of that list starts.
pub code-starts : (w : Program) {p : ℕ} → Reaches (code w) p → starts 0 (code w) p ≡ true
code-starts w {p} r =
    inner-starts (code w) (size w) p (closed-starts (code w) (size w) (code-closed w) r)
