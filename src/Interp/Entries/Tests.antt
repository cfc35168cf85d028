-- ===== src/Interp/Entries/Tests.antt =====
-- The search for one name.
use north_arm.Prelude.{◌≡◌, refl, some}
use north_arm.C5.Op.{Op}
use north_arm.Interp.Entries.{function, newest}
use north_arm.Interp.Entries.Names.{name, find}
use north_arm.Interp.Entries.Found.{find-name}

find-name_example : find 123 newest (name (function Op.fdup)) ≡ some (function Op.fdup)
find-name_example = find-name (function Op.fdup) refl
