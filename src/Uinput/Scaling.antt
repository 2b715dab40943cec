-- ===== src/Uinput/Scaling.antt =====
-- The scaling of contacts from the stream's size to the device's.
use screx_v.Prelude.{
  lt_or_le, ℕ, suc, ◌+◌, ◌-◌, ◌*◌, ◌/◌, ◌≤◌, ◌<◌, ◌≡◌, refl, ap, ap₂, sym, ◌∙◌, min, true, ◌&&◌,
  ◌==◌, if◌then◌else◌, arith, Bool-cases, inl, inr, some, List, [], ◌∷◌, map, All,
}
use native.Mathlib.Nat.{
  div-eq_of_lt, mul-add-div, mul-add-div_right, mul-le-mul_right, div-mul-le_self,
  le-div_iff_mul-le,
}
use screx_v.Input.{TouchContact}
use screx_v.Uinput.{InputEvent}
use screx_v.Uinput.Touchscreen.{VirtualTouchscreen, scale, scale_contact, handle_contacts, touch}

-- The quotient of the source, on sizes less one.
abbrev rounded : (v d e : ℕ) → ℕ
rounded v d e = (v * e + d / 2) / d

half_small : (d : ℕ) → 0 < d → d / 2 / d ≡ 0
half_small d h = div-eq_of_lt (omega arith)

rounded_self : (v d : ℕ) → 0 < d → rounded v d d ≡ v
rounded_self v d h = mul-add-div_right h v (d / 2) ∙ omega (arith, half_small d h)

rounded_zero : (d e : ℕ) → 0 < d → rounded 0 d e ≡ 0
rounded_zero d e h = ap (λ n. n / d) {x = 0 * e + d / 2} {y = d / 2} (omega arith) ∙ half_small d h

rounded_last : (d e : ℕ) → 0 < d → rounded d d e ≡ e
rounded_last d e h = mul-add-div h e (d / 2) ∙ omega (arith, half_small d h)

div_mono : (a b d : ℕ) → 0 < d → a ≤ b → a / d ≤ b / d
div_mono a b d h le =
    (le-div_iff_mul-le {k = d} {x = a / d} {y = b} h).1 (omega (arith, div-mul-le_self a d))

rounded_mono : (v w d e : ℕ) → 0 < d → v ≤ w → rounded v d e ≤ rounded w d e
rounded_mono v w d e h le =
    div_mono (v * e + d / 2) (w * e + d / 2) d h (omega (arith, mul-le-mul_right e le))

-- Above one pixel on both sides.
scale-rounded :
    (v src dst : ℕ)
    → 1 < src
    → 1 < dst
    → dst ≤ 65536
    → scale v src dst ≡ min (rounded v (src - 1) (dst - 1)) (dst - 1)
unfolding scale
scale-rounded v src dst h k fits = ground arith

-- Where both sizes are more than one pixel, and the device's at most 65536, scaling keeps order, puts
-- the first pixel on the first and the last on the last, and stays on the device.
pub scale_fits :
    (v w src dst : ℕ)
    → 1 < src
    → 1 < dst
    → dst ≤ 65536
    → v ≤ w
    → (scale v src dst ≤ scale w src dst)
      × (scale w src dst < dst)
      × (scale 0 src dst ≡ 0)
      × (scale (src - 1) src dst ≡ dst - 1)
scale_fits v w src dst h k fits le = (
  rw (scale-rounded v src dst h k fits, scale-rounded w src dst h k fits)
      (omega (arith, rounded_mono v w (src - 1) (dst - 1) (omega arith) le)),
  rw (scale-rounded w src dst h k fits) (omega arith),
  scale-rounded 0 src dst h k fits ∙ omega (arith, rounded_zero (src - 1) (dst - 1) (omega arith)),
  scale-rounded (src - 1) src dst h k fits
      ∙ omega (arith, rounded_last (src - 1) (dst - 1) (omega arith)),
)

-- Between equal sizes a coordinate on the screen stays what it is.
scale_self : (v src : ℕ) → v < src → src ≤ 65536 → scale v src src ≡ v
unfolding scale
scale_self v src h fits = elim (lt_or_le 2 (suc src)) [
  | inl more ↦
      scale-rounded v src src (omega arith) (omega arith) fits
      ∙ omega (arith, rounded_self v (src - 1) (omega arith))
  | inr one ↦ ground arith
]

-- A contact on the screen.
abbrev pub OnScreen : (width height : ℕ) → TouchContact → Type 0
OnScreen width height c = (c.x < width) × (c.y < height)

map-scale_contact :
    (cs : List TouchContact) (ts : VirtualTouchscreen)
    → ts.width ≤ 65536
    → ts.height ≤ 65536
    → All (OnScreen ts.width ts.height) cs
    → map (scale_contact ts ts.width ts.height) cs ≡ cs
unfolding scale_contact
map-scale_contact [] ts fw fh on = refl
map-scale_contact (c ∷ cs) ts fw fh ((hx, hy), on) =
    ap₂ ◌∷◌
      (λ i. record c { x = scale_self c.x ts.width hx fw i; y = scale_self c.y ts.height hy fh i })
      (map-scale_contact cs ts fw fh on)

same_size : (a b c d : ℕ) → ((a == c) && (b == d)) ≡ true → (a ≡ c) × (b ≡ d)
same_size a b c d e = (ground (arith, e), ground (arith, e))

-- The shortcut for a session of the device's own size is right: whatever the session's size, what
-- `touch` does with contacts that are on the device's screen is what scaling them all and handling
-- them does. The device has at most 65536 pixels on a side.
pub touch_scales :
    (sw sh : ℕ) (cs : List TouchContact) (ts : VirtualTouchscreen)
    → ts.width ≤ 65536
    → ts.height ≤ 65536
    → All (OnScreen ts.width ts.height) cs
    → touch (some (sw, sh)) cs ts ≡ handle_contacts (map (scale_contact ts sw sh) cs) ts
unfolding touch
touch_scales sw sh cs ts fw fh on = elim (Bool-cases ((sw == ts.width) && (sh == ts.height))) [
  | inl e ↦
      ap (λ b. if b then handle_contacts cs ts else scaled sw sh) e
      ∙ sym (
          ap₂ scaled (same_size sw sh ts.width ts.height e).0
            (same_size sw sh ts.width ts.height e).1
          ∙ ap (λ ds. handle_contacts ds ts) (map-scale_contact cs ts fw fh on))
  | inr e ↦ ap (λ b. if b then handle_contacts cs ts else scaled sw sh) e
]
  where
    scaled : ℕ → ℕ → VirtualTouchscreen × List InputEvent
    scaled w h = handle_contacts (map (scale_contact ts w h) cs) ts
