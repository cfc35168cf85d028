-- ===== src/Interp/Flow/Tests.antt =====
-- Control in the list of memdump: past its second jump and back to its start.
use north_arm.Prelude.{◌≡◌, true, refl}
use north_arm.Interp.Display
use north_arm.Interp.Item.{Colon}
use north_arm.Interp.Body.{body}
use north_arm.Interp.Flow.{starts, plain, pushed, items_from, goes, Reaches, entry, go}
use north_arm.Interp.Flow.Closed.{Reaches-starts}

abbrev memdump_entry : Reaches (body Colon.memdump) 0
memdump_entry = entry

-- The test `&over, &literal, 0, &int_lte` and the branch over the end of the word.
memdump_13 : Reaches (body Colon.memdump) 13
unfolding body Display.memdump plain pushed items_from goes
memdump_13 = go {p = 4} (go {p = 3} (go {p = 1} (go {p = 0} entry refl) refl) refl) refl

Reaches-starts_example : starts 0 (body Colon.memdump) 13 ≡ true
Reaches-starts_example = Reaches-starts Colon.memdump memdump_13
