-- ===== src/Pairing/Stored.antt =====
-- What the daemon keeps: its own identifier, and the devices after `screx unpair`.
use screx_v.Prelude.{
  ℕ, ◌/◌, ◌%◌, ◌<◌, ◌≡◌, refl, ap, sym, subst, ◌∙◌, false, Option, none, some, List, [], ◌∷◌,
  length, arith, ◌==◌, if◌then◌else◌, Bool-cases, Option-cases, inl, inr, All,
}
use screx_v.Bytes.{IsByte}
use screx_v.History.{same_bytes, encode_hex, hex_digit}
use screx_v.History.Normal.{same_bytes_eq}
use screx_v.History.Keys.{length-encode_hex}
use screx_v.Pairing.Devices.{
  PairedDevice, PairingState, one_device, find_device, without_device, is_present, is_paired,
  key_of_device, get_pairing_key, remove_device, run_unpair, is_space, trim_start,
  snoc_unless_space, trim_end, of_length, hex_decode, id_of_file, or_fresh,
  load_or_create_daemon_id,
}
use screx_v.Pairing.Ends.{hex_decode-encode_hex}

find_device-without_device :
    (id : List ℕ) (devices : List (List ℕ × PairedDevice))
    → find_device id (without_device id devices) ≡ none
unfolding find_device without_device
find_device-without_device id [] = refl
find_device-without_device id ((k, dev) ∷ devices) = elim (Bool-cases (same_bytes k id)) [
  | inl e ↦ rw e (find_device-without_device id devices)
  | inr e ↦ rw (e, e) (find_device-without_device id devices)
]

find_device-without_other :
    (id other : List ℕ) (devices : List (List ℕ × PairedDevice))
    → same_bytes id other ≡ false
    → find_device other (without_device id devices) ≡ find_device other devices
unfolding find_device without_device
find_device-without_other id other [] ne = refl
find_device-without_other id other ((k, dev) ∷ devices) ne = elim (Bool-cases (same_bytes k id)) [
  | inl e ↦
      rw (e, ap (λ j. same_bytes j other) (same_bytes_eq k id e) ∙ ne)
        (find_device-without_other id other devices ne)
  | inr e ↦ rw (e, find_device-without_other id other devices ne)
]

absent : (o : Option PairedDevice) → is_present o ≡ false → o ≡ none
unfolding is_present
absent none h = refl
absent (some dev) h = absurd cc

-- After `screx unpair` with an identifier no key is found under it, and under every other
-- identifier what was found before.
unpaired_device_unknown :
    (id other : List ℕ) (ps : PairingState)
    → same_bytes id other ≡ false
    → (get_pairing_key id (run_unpair (one_device id) ps) ≡ none)
      × (get_pairing_key other (run_unpair (one_device id) ps) ≡ get_pairing_key other ps)
unfolding get_pairing_key run_unpair remove_device is_paired key_of_device
unpaired_device_unknown id other ps ne =
    elim (Bool-cases (is_present (find_device id ps.paired_devices))) [
      | inl e ↦ (
        rw (run_unpair, e) (ap key_of_device (find_device-without_device id ps.paired_devices)),
        rw (run_unpair, e)
            (ap key_of_device (find_device-without_other id other ps.paired_devices ne)),
      )
      | inr e ↦ (
        rw (run_unpair, e) (ap key_of_device (absent (find_device id ps.paired_devices) e)),
        rw (run_unpair, e) refl,
      )
    ]

hex_digit_visible : (d : ℕ) → d < 16 → is_space (hex_digit d) ≡ false
unfolding is_space hex_digit
hex_digit_visible d h = ground arith

snoc_unless_space_visible :
    (c : ℕ) (cs : List ℕ) → is_space c ≡ false → snoc_unless_space c cs ≡ c ∷ cs
unfolding snoc_unless_space
snoc_unless_space_visible c [] h = rw h
snoc_unless_space_visible c (x ∷ xs) h = refl

trim_end-encode_hex : (bs : List ℕ) → All IsByte bs → trim_end (encode_hex bs) ≡ encode_hex bs
unfolding trim_end encode_hex snoc_unless_space
trim_end-encode_hex [] h = refl
trim_end-encode_hex (b ∷ bs) (h, hs) = rw (
  trim_end-encode_hex bs hs,
  snoc_unless_space_visible (hex_digit (b % 16)) (encode_hex bs)
      (hex_digit_visible (b % 16) (omega arith)),
  snoc_unless_space_visible (hex_digit (b / 16)) (hex_digit (b % 16) ∷ encode_hex bs)
      (hex_digit_visible (b / 16) (omega arith)),
)

trim_start-encode_hex : (bs : List ℕ) → All IsByte bs → trim_start (encode_hex bs) ≡ encode_hex bs
unfolding trim_start encode_hex
trim_start-encode_hex [] h = refl
trim_start-encode_hex (b ∷ bs) (h, hs) = rw (hex_digit_visible (b / 16) (omega arith)) refl

id_of_file-encode_hex :
    (id : List ℕ) → length id ≡ 16 → All IsByte id → id_of_file (some (encode_hex id)) ≡ some id
unfolding id_of_file of_length
id_of_file-encode_hex id h bytes =
    rw (trim_end-encode_hex id bytes, trim_start-encode_hex id bytes)
      (ap (λ n. if n == 32 then of_length 16 (hex_decode (encode_hex id)) else none) {y = 32}
          (omega (arith, h, length-encode_hex id))
        ∙ rw (hex_decode-encode_hex id bytes, h))

-- The daemon's identifier stays: whatever the file held at first, if anything, what a first start
-- with 16 fresh bytes leaves in the file gives the next start the same identifier, and the file is
-- left alone.
daemon_id_persists :
    (file : Option (List ℕ)) (fresh again : List ℕ)
    → length fresh ≡ 16
    → All IsByte fresh
    → (let first = load_or_create_daemon_id file fresh in
        load_or_create_daemon_id first.1 again ≡ first)
unfolding load_or_create_daemon_id or_fresh
daemon_id_persists file fresh again h bytes = elim (Option-cases (id_of_file file)) [
  | inl fails ↦
      subst
        (λ o.
          or_fresh (id_of_file (or_fresh o file fresh).1) (or_fresh o file fresh).1 again
          ≡ or_fresh o file fresh)
        (sym fails)
        (ap (λ o. or_fresh o (some (encode_hex fresh)) again) (id_of_file-encode_hex fresh h bytes))
  | inr (id, found) ↦
      subst
        (λ o.
          or_fresh (id_of_file (or_fresh o file fresh).1) (or_fresh o file fresh).1 again
          ≡ or_fresh o file fresh)
        (sym found) (ap (λ o. or_fresh o file again) found)
]
