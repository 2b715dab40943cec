-- ===== src/Uinput/Buttons.antt =====
-- What the virtual gamepad shows after a sequence of states.
use screx_v.Prelude.{if-preserves, ℕ, ◌≡◌, refl, ap, ◌∙◌, false, List, [], ◌∷◌, ◌==◌, All}
use screx_v.Uinput.{ev_abs, value_after}
use screx_v.Uinput.Gamepad.{bit_of, sync_button, sync_buttons}
use screx_v.Uinput.Held.{value_after-append, among}

-- The values that the device has for the codes of some buttons, against a mask.
abbrev pub Shows : (mask : ℕ) → (before : ℕ → ℕ) → List (ℕ × ℕ) → Type 0
Shows mask before = All (λ b. before b.0 ≡ bit_of mask b.1)

codes : List (ℕ × ℕ) → List ℕ
codes [] = []
codes ((c, b) ∷ bs) = c ∷ codes bs

abbrev Distinct : List (ℕ × ℕ) → Type 0
Distinct [] = Unit {0}
Distinct ((c, b) ∷ bs) = (among c (codes bs) ≡ false) × Distinct bs

sync_buttons-abs :
    (old new code before : ℕ) (bs : List (ℕ × ℕ))
    → value_after (sync_buttons old new bs) ev_abs code before ≡ before
unfolding sync_buttons sync_button value_after
sync_buttons-abs old new code before [] = refl
sync_buttons-abs old new code before ((c, b) ∷ bs) =
    value_after-append (sync_button old new (c, b)) (sync_buttons old new bs) ev_abs code before
    ∙ ap (value_after (sync_buttons old new bs) ev_abs code) (
        if-preserves (λ es. value_after es ev_abs code before ≡ before)
          (bit_of old b == bit_of new b) refl refl)
    ∙ sync_buttons-abs old new code before bs
