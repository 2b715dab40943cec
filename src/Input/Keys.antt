-- ===== src/Input/Keys.antt =====
-- The client's table of keys and the daemon's, `qt_key_to_hid` and `hid_to_evdev`.
use screx_v.Prelude.{
  ℕ, ◌+◌, ◌-◌, ◌≡◌, ◌≢◌, refl, Bool, true, false, ◌&&◌, ◌||◌, not, Option, none, some, List, [],
  ◌∷◌, arith, ◌==◌,
}
use screx_v.Prelude.Tables.{holds_from, holds_from-at}
use screx_v.Bytes.{as_u16}
use screx_v.Input.Hid.{lookup, hid_table, hid_to_evdev}
use screx_v.Input.Qt.{qt_key_to_hid, qt_table}

abbrev is_some : Option ℕ → Bool
is_some none = false
is_some (some _) = true

abbrev absent : ℕ → List (ℕ × ℕ) → Bool
absent v [] = true
absent v ((_, v') ∷ rest) = not (v == v') && absent v rest

abbrev distinct : List (ℕ × ℕ) → Bool
distinct [] = true
distinct ((_, v) ∷ rest) = absent v rest && distinct rest

lookup-absent : (k v : ℕ) (t : List (ℕ × ℕ)) → absent v t ≡ true → lookup k t ≢ some v
unfolding lookup
lookup-absent k v [] h e = cc
lookup-absent k v ((k', v') ∷ rest) h e = ground (arith, lookup-absent k v rest)

lookup_injective :
    (t : List (ℕ × ℕ)) (a b v : ℕ)
    → distinct t ≡ true
    → lookup a t ≡ some v
    → lookup b t ≡ some v
    → a ≡ b
unfolding lookup
lookup_injective [] a b v d ea eb = absurd cc
lookup_injective ((k, w) ∷ rest) a b v d ea eb =
    ground (arith, lookup_injective rest a b v, lookup-absent a v rest, lookup-absent b v rest)

-- The daemon sends no two keyboard usages to the same key.
hid_to_evdev_injective :
    (a b key : ℕ) → hid_to_evdev a ≡ some key → hid_to_evdev b ≡ some key → a ≡ b
unfolding hid_to_evdev
hid_to_evdev_injective a b key ea eb = lookup_injective hid_table a b key refl ea eb

-- A usage the daemon has a key for, or one of the two that it has not: keypad Enter and Pause.
abbrev pub is_known : ℕ → Bool
is_known hid = is_some (hid_to_evdev hid) || (hid == 0x58 || hid == 0x48)

abbrev all_known : List (ℕ × ℕ) → Bool
all_known [] = true
all_known ((_, v) ∷ rest) = is_known v && all_known rest

lookup-known :
    (k v : ℕ) (t : List (ℕ × ℕ)) → all_known t ≡ true → lookup k t ≡ some v → is_known v ≡ true
unfolding lookup
lookup-known k v [] h e = absurd cc
lookup-known k v ((k', v') ∷ rest) h e = ground (arith, lookup-known k v rest)

-- Of a key in a run of keys, sent to the usages from `to` on, the daemon knows the usage.
abbrev run_known : (low to : ℕ) → ℕ → Bool
run_known low to key = is_known (as_u16 (key - low + to))

letters_known : holds_from 0x41 26 (run_known 0x41 0x04) ≡ true
unfolding holds_from hid_to_evdev lookup
letters_known = refl

digits_known : holds_from 0x31 9 (run_known 0x31 0x1e) ≡ true
unfolding holds_from hid_to_evdev lookup
digits_known = refl

functions_known : holds_from 0x01000030 12 (run_known 0x01000030 0x3a) ≡ true
unfolding holds_from hid_to_evdev lookup
functions_known = refl

known_table : all_known qt_table ≡ true
unfolding hid_to_evdev lookup
known_table = refl

-- Of the usages the desktop client can send for a Qt key, the daemon's Linux table has a key for
-- all but two: 0x58, the keypad's Enter, and 0x48, Pause.
qt_key_to_hid-is_known : (qt_key hid : ℕ) → qt_key_to_hid qt_key ≡ some hid → is_known hid ≡ true
unfolding qt_key_to_hid
qt_key_to_hid-is_known qt_key hid e = ground (
  arith,
  holds_from-at 0x41 26 (run_known 0x41 0x04) qt_key letters_known,
  holds_from-at 0x31 9 (run_known 0x31 0x1e) qt_key digits_known,
  holds_from-at 0x01000030 12 (run_known 0x01000030 0x3a) qt_key functions_known,
  lookup-known qt_key hid qt_table known_table,
)
