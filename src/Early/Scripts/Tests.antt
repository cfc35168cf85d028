-- ===== src/Early/Scripts/Tests.antt =====
-- Control in one list, and one list of both programs.
use north_arm.Prelude.{◌≡◌, refl, true}
use north_arm.Interp.Flow.{entry, go, starts, goes, plain, pushed, items_from}
use north_arm.Early.Scripts.Piece.{Script}
use north_arm.Early.Scripts.Third
use north_arm.Early.Scripts.ThirdTests
use north_arm.Early.Scripts.Stays.{code, third, code-starts}

code-starts_example : starts 0 (code (third Script.test_read)) 2 ≡ true
unfolding code Third.list ThirdTests.test_read items_from plain pushed goes
code-starts_example = code-starts (third Script.test_read) {p = 2} (go entry refl)
