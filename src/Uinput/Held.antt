-- ===== src/Uinput/Held.antt =====
-- Which keys of the virtual keyboard are down after a sequence of calls.
use screx_v.Uinput.Chars.{char_to_key}
use screx_v.Prelude.{
  subst, ℕ, zero, suc, ◌/◌, ◌≡◌, ◌⊎◌, inl, inr, refl, ap, sym, ◌∙◌, Bool, true, false, ◌||◌, Option,
  none, some, List, [], ◌∷◌, ◌++◌, arith, ltb, ◌==◌, if◌then◌else◌, if-preserves, Bool-cases, All,
}
use screx_v.Input.Hid.{hid_to_evdev}
use screx_v.Uinput.{InputEvent, ev_key, key, syn_report, value_after}
use screx_v.Uinput.Keyboard.{
  key_leftctrl, key_leftshift, key_u, key_enter, KeyCall, key_text, key_special,
  key_text_with_modifiers, key_raw_hid, all_key_events, key_events, type_text, type_char, type_key,
  type_unicode, type_hex, tap, tap_found, type_chars, type_known, press_special, press_with,
  press_special_with_modifiers, type_with_modifiers, push_keys, push_mod_keys, mod_keys, raw_event,
  special_to_keycode,
}

pub value_after-append :
    (xs ys : List InputEvent) (t c before : ℕ)
    → value_after (xs ++ ys) t c before ≡ value_after ys t c (value_after xs t c before)
unfolding value_after
value_after-append [] ys t c before = refl
value_after-append (x ∷ xs) ys t c before = value_after-append xs ys t c _

-- After the events no key is down that was up before.
abbrev pub Releases : List InputEvent → Type 0
Releases es = (code : ℕ) → value_after es ev_key code 0 ≡ 0

Releases-append : (xs ys : List InputEvent) → Releases xs → Releases ys → Releases (xs ++ ys)
Releases-append xs ys h k code =
    value_after-append xs ys ev_key code 0 ∙ ap (value_after ys ev_key code) (h code) ∙ k code

tap-Releases : (code : ℕ) → Releases (tap code)
unfolding tap value_after
tap-Releases code k = ground arith

tap_found-Releases : (o : Option ℕ) → Releases (tap_found o)
unfolding tap_found value_after
tap_found-Releases none k = refl
tap_found-Releases (some code) k = tap-Releases code k

type_key-Releases : (k : ℕ × Bool) → Releases (type_key k)
unfolding type_key value_after
type_key-Releases (code, true) k = ground arith
type_key-Releases (code, false) k = ground arith

type_known-Releases : (o : Option (ℕ × Bool)) → Releases (type_known o)
unfolding type_known value_after
type_known-Releases none k = refl
type_known-Releases (some e) k = type_key-Releases e k

type_hex-Releases : (fuel n : ℕ) → Releases (type_hex fuel n)
unfolding type_hex value_after
type_hex-Releases zero n k = refl
type_hex-Releases (suc fuel) n k =
    Releases-append (if ltb n 16 then [] else type_hex fuel (n / 16)) _
      (if-preserves Releases (ltb n 16) (λ k. refl) (type_hex-Releases fuel (n / 16)))
      (tap_found-Releases _) k

-- Ctrl, Shift and U.
abbrev entry_keys : List InputEvent
entry_keys =
    key key_leftctrl 1
    ∷ key key_leftshift 1
    ∷ key key_u 1
    ∷ syn_report
    ∷ key key_u 0
    ∷ key key_leftshift 0
    ∷ key key_leftctrl 0
    ∷ syn_report
    ∷ []

entry_keys-Releases : Releases entry_keys
unfolding value_after
entry_keys-Releases k = ground arith

type_unicode-Releases : (c : ℕ) → Releases (type_unicode c)
unfolding type_unicode
type_unicode-Releases c =
    Releases-append entry_keys (type_hex 6 c ++ tap key_enter) entry_keys-Releases (
      Releases-append (type_hex 6 c) (tap key_enter) (type_hex-Releases 6 c)
        (tap-Releases key_enter))

type_char-Releases : (c : ℕ) (o : Option (ℕ × Bool)) → Releases (type_char c o)
unfolding type_char
type_char-Releases c none = type_unicode-Releases c
type_char-Releases c (some e) = type_key-Releases e

type_text-Releases : (text : List ℕ) → Releases (type_text text)
unfolding type_text value_after
type_text-Releases [] k = refl
type_text-Releases (c ∷ cs) k =
    Releases-append (type_char c (char_to_key c)) (type_text cs)
      (type_char-Releases c (char_to_key c)) (type_text-Releases cs) k

type_chars-Releases : (text : List ℕ) → Releases (type_chars text)
unfolding type_chars value_after
type_chars-Releases [] k = refl
type_chars-Releases (c ∷ cs) k =
    Releases-append (type_known (char_to_key c)) (type_chars cs)
      (type_known-Releases (char_to_key c)) (type_chars-Releases cs) k

-- Whether a code is among some.
abbrev pub among : ℕ → List ℕ → Bool
among k [] = false
among k (c ∷ cs) = (c == k) || among k cs

pub or-false : (a b : Bool) → (a || b) ≡ false → (a ≡ false) × (b ≡ false)
or-false true b h = absurd cc
or-false false b h = (refl, h)

push_keys-other :
    (v : ℕ) (codes : List ℕ) (k before : ℕ)
    → among k codes ≡ false
    → value_after (push_keys v codes) ev_key k before ≡ before
unfolding push_keys value_after
push_keys-other v [] k before h = refl
push_keys-other v (c ∷ cs) k before h =
    let apart = or-false (c == k) (among k cs) h in
    ap (λ b. value_after (push_keys v cs) ev_key k (if b then v else before)) apart.0
    ∙ (push_keys-other v cs k before apart.1)

push_keys-zero :
    (codes : List ℕ) (k before : ℕ)
    → (among k codes ≡ true) ⊎ (before ≡ 0)
    → value_after (push_keys 0 codes) ev_key k before ≡ 0
unfolding push_keys value_after
push_keys-zero [] k before (inl h) = absurd cc
push_keys-zero [] k before (inr h) = h
push_keys-zero (c ∷ cs) k before h = elim (Bool-cases (c == k)) [
  | inl e ↦
      ap (λ b. value_after (push_keys 0 cs) ev_key k (if b then 0 else before)) e
      ∙ push_keys-zero cs k 0 (inr refl)
  | inr e ↦
      ap (λ b. value_after (push_keys 0 cs) ev_key k (if b then 0 else before)) e
      ∙ push_keys-zero cs k before (still e h)
]
  where
    still :
        (c == k) ≡ false
        → (among k (c ∷ cs) ≡ true) ⊎ (before ≡ 0)
        → (among k cs ≡ true) ⊎ (before ≡ 0)
    still e (inl found) = inl (sym (ap (λ b. b || among k cs) e) ∙ found)
    still e (inr zero_before) = inr zero_before

-- Keys that are held around events that release what they press.
held_around-Releases :
    (codes : List ℕ) (inner : List InputEvent)
    → Releases inner
    → Releases
        (push_keys 1 codes ++ (syn_report ∷ (inner ++ (push_keys 0 codes ++ (syn_report ∷ [])))))
unfolding value_after
held_around-Releases codes inner h k =
    value_after-append (push_keys 1 codes) _ ev_key k 0
    ∙ value_after-append inner (push_keys 0 codes ++ (syn_report ∷ [])) ev_key k pressed
    ∙ value_after-append (push_keys 0 codes) (syn_report ∷ []) ev_key k _
    ∙ push_keys-zero codes k (value_after inner ev_key k pressed)
        (elim (Bool-cases (among k codes)) [
          | inl e ↦ inl e
          | inr e ↦ inr (ap (value_after inner ev_key k) (push_keys-other 1 codes k 0 e) ∙ h k)
        ])
  where
    pressed : ℕ
    pressed = value_after (push_keys 1 codes) ev_key k 0

press_with-Releases : (mods : ℕ) (o : Option ℕ) → Releases (press_with mods o)
unfolding press_with push_mod_keys value_after
press_with-Releases mods none k = refl
press_with-Releases mods (some code) k =
    held_around-Releases (mod_keys mods) (key code 1 ∷ syn_report ∷ key code 0 ∷ [])
      (λ j. ground arith) k

type_with_modifiers-Releases : (mods : ℕ) (text : List ℕ) → Releases (type_with_modifiers mods text)
unfolding type_with_modifiers push_mod_keys
type_with_modifiers-Releases mods text =
    held_around-Releases (mod_keys mods) (type_chars text) (type_chars-Releases text)

-- A call that does not hold a key down: all but a raw key that is pressed.
abbrev pub IsStroke : KeyCall → Type 0
IsStroke (key_text text) = Unit {0}
IsStroke (key_special code modifiers) = Unit {0}
IsStroke (key_text_with_modifiers text mods) = Unit {0}
IsStroke (key_raw_hid usage pressed) = pressed ≡ false

raw_event-Releases : (o : Option ℕ) → Releases (raw_event o false)
unfolding raw_event value_after
raw_event-Releases none k = refl
raw_event-Releases (some code) k = ground arith

key_events-Releases : (c : KeyCall) → IsStroke c → Releases (key_events c)
unfolding key_events press_special press_special_with_modifiers
key_events-Releases (key_text text) h = type_text-Releases text
key_events-Releases (key_special code modifiers) h =
    if-preserves Releases (modifiers == 0) (tap_found-Releases (special_to_keycode code))
      (press_with-Releases modifiers (special_to_keycode code))
key_events-Releases (key_text_with_modifiers text mods) h = type_with_modifiers-Releases mods text
key_events-Releases (key_raw_hid usage pressed) h =
    subst (λ b. Releases (raw_event (hid_to_evdev usage) b)) (sym h)
      (raw_event-Releases (hid_to_evdev usage))

-- Text, special keys and combinations with modifiers, and raw keys that are let go, in any order:
-- the virtual keyboard has no key down afterwards that was up before, whatever the characters, codes
-- and modifiers.
pub no_key_left_down :
    (calls : List KeyCall) (code : ℕ)
    → All IsStroke calls
    → value_after (all_key_events calls) ev_key code 0 ≡ 0
unfolding all_key_events value_after
no_key_left_down [] code h = refl
no_key_left_down (c ∷ cs) code (h, hs) =
    Releases-append (key_events c) (all_key_events cs) (key_events-Releases c h)
      (λ k. no_key_left_down cs k hs) code
