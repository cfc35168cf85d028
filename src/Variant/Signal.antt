-- ===== src/Variant/Signal.antt =====
-- What a C function of misc/c/c4.c returns to `_next` (misc/c/c4.h).
pub data Signal : Type 0 where
  stop drop_frame go pop : Signal
