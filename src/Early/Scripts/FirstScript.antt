-- ===== src/Early/Scripts/FirstScript.antt =====
-- The words of misc/c/c1.c whose code is _docol.
pub data FirstScript : Type 0 where
  hey bootstrap words1 words : FirstScript
