-- ===== src/History/Keys.antt =====
-- Pairing keys in AppStorage: hex digits, and what is stored under an endpoint.
use screx_v.Prelude.{
  ℕ, ◌*◌, ◌/◌, ◌%◌, ◌<◌, ◌≡◌, ◌∙◌, ap, ap₂, sym, refl, true, false, none, some, List, [], ◌∷◌,
  length, arith, ◌==◌, if◌then◌else◌, Bool-cases, inl, inr, All,
}
use screx_v.Bytes.{IsByte}
use screx_v.History.Normal.{same_bytes_eq}
use screx_v.History.{
  StoredState, same_bytes, encode_hex, hex_digit, digit_of_hex, two_digits, byte_of_hex, cons_byte,
  decode_pairs, decode_hex_32, decoded_key, get_pairing, get_pairing_key, remove_pairing,
  set_pairing_key,
}

pub same_bytes_self : (xs : List ℕ) → same_bytes xs xs ≡ true
unfolding same_bytes
same_bytes_self [] = refl
same_bytes_self (x ∷ xs) = ground (arith, same_bytes_self xs)

digit_of_hex-hex_digit : (d : ℕ) → d < 16 → digit_of_hex (hex_digit d) ≡ some d
unfolding digit_of_hex hex_digit
digit_of_hex-hex_digit d h = ground arith

hex_digit_plus : (d : ℕ) → d < 16 → (hex_digit d == 43) ≡ false
unfolding hex_digit
hex_digit_plus d h = ground arith

byte_of_hex_lem :
    (b : ℕ) → IsByte b → byte_of_hex (hex_digit (b / 16)) (hex_digit (b % 16)) ≡ some b
unfolding byte_of_hex
byte_of_hex_lem b h = rw (hex_digit_plus (b / 16) (omega arith)) (
    ap₂ two_digits (digit_of_hex-hex_digit (b / 16) (omega arith))
      (digit_of_hex-hex_digit (b % 16) (omega arith))
    ∙ both)
  where
    both : two_digits (some (b / 16)) (some (b % 16)) ≡ some b
    both = ap some (omega arith)

pub decode_pairs-encode_hex : (bs : List ℕ) → All IsByte bs → decode_pairs (encode_hex bs) ≡ some bs
unfolding decode_pairs encode_hex cons_byte
decode_pairs-encode_hex [] h = refl
decode_pairs-encode_hex (b ∷ bs) (h, hs) =
    ap₂ cons_byte (byte_of_hex_lem b h) (decode_pairs-encode_hex bs hs)

pub length-encode_hex : (bs : List ℕ) → length (encode_hex bs) ≡ 2 * length bs
unfolding encode_hex
length-encode_hex [] = refl
length-encode_hex (b ∷ bs) = omega (arith, length-encode_hex bs)

decode_hex_32-encode_hex :
    (key : List ℕ) → length key ≡ 32 → All IsByte key → decode_hex_32 (encode_hex key) ≡ some key
unfolding decode_hex_32
decode_hex_32-encode_hex key len bytes =
    ap (λ n. if n == 64 then decode_pairs (encode_hex key) else none) {y = 64}
      (omega (arith, len, length-encode_hex key))
    ∙ decode_pairs-encode_hex key bytes

remove_other :
    (key other : List ℕ) (entries : List (List ℕ × List ℕ))
    → same_bytes key other ≡ false
    → get_pairing other (remove_pairing key entries) ≡ get_pairing other entries
unfolding get_pairing remove_pairing
remove_other key other [] ne = refl
remove_other key other ((k, v) ∷ entries) ne = elim (Bool-cases (same_bytes k key)) [
  | inl gone ↦
      ap
        (λ b.
          get_pairing other
            (if b then remove_pairing key entries else (k, v) ∷ remove_pairing key entries))
        gone
      ∙ remove_other key other entries ne
      ∙ ap (λ b. if b then some v else get_pairing other entries)
          (sym (ap (λ j. same_bytes j other) (same_bytes_eq k key gone) ∙ ne))
  | inr kept ↦
      ap
        (λ b.
          get_pairing other
            (if b then remove_pairing key entries else (k, v) ∷ remove_pairing key entries))
        kept
      ∙ ap (λ o. if same_bytes k other then some v else o) (remove_other key other entries ne)
]

pub get-set_pairing_key_self :
    (endpoint key : List ℕ) (s : StoredState)
    → length key ≡ 32
    → All IsByte key
    → get_pairing_key endpoint (set_pairing_key endpoint key s) ≡ some key
unfolding get_pairing_key set_pairing_key get_pairing decoded_key
get-set_pairing_key_self endpoint key s len bytes =
    ap
      (λ b. decoded_key (
        if b
        then some (encode_hex key)
        else get_pairing endpoint (remove_pairing endpoint s.pairings)))
      (same_bytes_self endpoint)
    ∙ decode_hex_32-encode_hex key len bytes

-- A key of 32 bytes that is stored under an endpoint is what is read back there, and what is read
-- under any other endpoint is what was read there before.
get-set_pairing_key :
    (endpoint key other : List ℕ) (s : StoredState)
    → length key ≡ 32
    → All IsByte key
    → same_bytes endpoint other ≡ false
    → (get_pairing_key endpoint (set_pairing_key endpoint key s) ≡ some key)
      × (get_pairing_key other (set_pairing_key endpoint key s) ≡ get_pairing_key other s)
unfolding get_pairing_key set_pairing_key get_pairing decoded_key
get-set_pairing_key endpoint key other s len bytes ne = (
  get-set_pairing_key_self endpoint key s len bytes,
  ap
        (λ b. decoded_key (
          if b
          then some (encode_hex key)
          else get_pairing other (remove_pairing endpoint s.pairings)))
        ne
      ∙ ap decoded_key (remove_other endpoint other s.pairings ne),
)
