-- ===== src/Avr/Device/Reboot.antt =====
-- avr_reboot of misc/c/avr.h.
use mathlib.Core.List.{append_assoc}
use north_arm.Prelude.{
  ℕ, zero, suc, ◌-◌, ◌*◌, ◌<◌, ◌∙◌, refl, Bool-cases, inl, inr, List, [], ◌∷◌, ◌++◌, Bool, true,
  false, none, some, leb, if◌then◌else◌, ◌≤◌, ◌≡◌, arith,
}
use north_arm.Avr.Device.{Device, Chip, puts}

-- How a call ends: the watchdog resets the device, or it goes to an address, or it still runs.
pub data Ending : Type 0 where
  reset : Chip → Ending
  goes_to : ℕ → Chip → Ending
  running : Chip → Ending

abbrev pub rebooting : List ℕ
rebooting = b'R' ∷ b'e' ∷ b'b' ∷ b'o' ∷ b'o' ∷ b't' ∷ b'i' ∷ b'n' ∷ b'g' ∷ []

-- `_delay_ms`, then the rest: the watchdog resets the device once its time is over.
unfoldable pub delay_ms : ℕ → Chip → (Chip → Ending) → Ending
delay_ms t c rest = elim c.watchdog [
  | none ↦ rest c
  | some left ↦ if leb left t then reset c else rest (record c { watchdog = some (left - t) })
]

-- `while(1)`, for so many rounds.
unfoldable pub dots : ℕ → Chip → Ending
unfolding delay_ms
dots zero c = running c
dots (suc n) c = delay_ms 500 (record c { sent = c.sent ++ (b'.' ∷ []) }) (λ c'. dots n c')

-- With USE_AVR_WDT and without it.
unfoldable pub avr_reboot : Device → (use_wdt : Bool) (rounds : ℕ) → Chip → Ending
avr_reboot d true n c = dots n (record (puts rebooting c) { watchdog = some d.wdto_250ms })
avr_reboot d false n c = delay_ms 100 (puts rebooting c) (λ c'. goes_to 0 c')

abbrev pub points : ℕ → List ℕ
points zero = []
points (suc k) = b'.' ∷ points k

-- With `t` ms left, the loop ends within t / 500 + 1 rounds.
dots_end :
    (n t : ℕ) (c : Chip)
    → c.watchdog ≡ some t
    → t ≤ 500 * n
    → 0 < n
    → (k : ℕ) × (c' : Chip) × (dots n c ≡ reset c') × (c'.sent ≡ c.sent ++ points (suc k))
unfolding dots delay_ms
dots_end zero t c w h e = absurd (omega arith)
dots_end (suc n) t c w h e = elim (Bool-cases (leb t 500)) [
  | inl over ↦ (0, record c { sent = c.sent ++ (b'.' ∷ []) }, ground arith, refl)
  | inr left ↦
      let (k, c', ends, sent) =
        dots_end n (t - 500) (record c { sent = c.sent ++ (b'.' ∷ []); watchdog = some (t - 500) })
          refl (ground arith) (ground arith) in
      (suc k, c', ground arith, sent ∙ append_assoc c.sent (b'.' ∷ []) (points (suc k)))
]

-- avr_reboot with USE_AVR_WDT ends in a reset within n rounds of its endless loop, if n is not 0
-- and the time of the watchdog is at most n times 500 ms; before, it sends its line and at least
-- one dot.
pub avr_reboot_lem :
    (d : Device) (n : ℕ) (c : Chip)
    → d.wdto_250ms ≤ 500 * n
    → 0 < n
    → (k : ℕ) × (c' : Chip) × (avr_reboot d true n c ≡ reset c')
      × (c'.sent ≡ (puts rebooting c).sent ++ points (suc k))
unfolding avr_reboot
avr_reboot_lem d n c h e =
    dots_end n d.wdto_250ms (record (puts rebooting c) { watchdog = some d.wdto_250ms }) refl h e
