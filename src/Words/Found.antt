-- ===== src/Words/Found.antt =====
-- The word that each program starts its dictionary from: c1.c, c2.c, c3.c, and c4.c by itself, with
-- c4-scripts.c and with c4-words.c.
use north_arm.Early.Scripts.Piece.{Script}
use north_arm.Early.Scripts.FirstScript.{FirstScript}
use north_arm.Early.Scripts.SecondScript.{SecondScript}
use north_arm.Words.{Word}
use north_arm.Words.First
use north_arm.Words.Second
use north_arm.Words.Third
use north_arm.Words.Fourth
use north_arm.Words.Scripted
use north_arm.Words.Standard
use north_arm.Words.Standard.{Standard}

pub data Program : Type 0 where
  first second third fourth scripted standard : Program

abbrev pub Scripts : Program → Type 0
Scripts Program.first = FirstScript
Scripts Program.second = SecondScript
Scripts Program.third = Script
Scripts Program.fourth = Script
Scripts Program.scripted = Script
Scripts Program.standard = Standard

-- The word that `_dict` pushes: a fixed one in c1.c, c2.c and c3.c; last_word, `dict` in c4.c by
-- itself, `words` with c4-scripts.c and `boot` with c4-words.c.
unfoldable pub newest : (p : Program) → Word (Scripts p)
newest Program.first = First.words1
newest Program.second = Second.words1
newest Program.third = Third.dict
newest Program.fourth = Fourth.dict
newest Program.scripted = Scripted.words
newest Program.standard = Standard.boot
