-- ===== src/Early/Scripts/SecondScript.antt =====
-- The words of misc/c/c2.c whose code is _docol.
pub data SecondScript : Type 0 where
  hey bootstrap words1 words rallot_exit rallot_return rallot2 : SecondScript
