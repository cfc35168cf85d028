-- ===== src/Avr/Static/Tests.antt =====
-- A short static input.
use north_arm.Prelude.{◌≡◌, refl, none, [], ◌∷◌}
use north_arm.Avr.Static.{StaticInput, restart, reads, reads_past}

-- Of the array 49, 200, 0 the zero is not counted.
abbrev input : StaticInput
input = record { buffer = 49 ∷ 200 ∷ 0 ∷ []; input_length = 2; position = 2; printed = [] }

reads_past_example : reads 4 (restart (record input { input_length = 3 })) ≡ none
reads_past_example = reads_past (record input { input_length = 3 }) 0 refl
