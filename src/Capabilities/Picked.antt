-- ===== src/Capabilities/Picked.antt =====
-- What the daemon reads of a request that the settings dialog gives.
use screx_v.Prelude.{
  ℕ, suc, ◌+◌, ◌-◌, ◌*◌, ◌%◌, ◌^◌, ◌<◌, ◌≡◌, refl, ap, ap₂, ◌∙◌, Bool, true, false, Option, none,
  some, List, [], ◌∷◌, ◌++◌, ltb, leb, ◌&&◌, ◌==◌, if◌then◌else◌, drop, arith, inr, if-preserves,
}
use mathlib.Core.Option
use screx_v.Bytes.{as_u8}
use screx_v.Text.{split_once, add_digit, digits, some_digits, parse, decimal}
use screx_v.History.{same_bytes}
use screx_v.Text.Numbers.{decimal-contains, parse-decimal}
use screx_v.Text.Splits.{split_once-append}
use screx_v.Capabilities.Stng.{parse_stng_body}
use screx_v.Capabilities.Client.{build_stng}
use screx_v.Capabilities.Settings.{parse-build_stng, received, sizes}
use screx_v.Capabilities.Negotiate.{as_requested}
use screx_v.Capabilities.Choice.{
  StreamSettingsChoice, positive, both, size_of, parse_resolution, framerate_of, to_requested,
}

abbrev Below : (limit : ℕ) → Option ℕ → Type 0
Below limit none = Unit {0}
Below limit (some n) = n < limit

if-Below :
    (limit n : ℕ) (b : Bool) → (b ≡ true → n < limit) → Below limit (if b then some n else none)
if-Below limit n true h = h refl
if-Below limit n false h = tt

add_digit-Below : (limit d : ℕ) (o : Option ℕ) → Below limit (add_digit limit d o)
unfolding add_digit
add_digit-Below limit d none = tt
add_digit-Below limit d (some n) =
    if-Below limit (n * 10 + (d - 48)) (leb 48 d && (leb d 57 && ltb (n * 10 + (d - 48)) limit))
      (λ e. last_test (leb 48 d) (leb d 57) (n * 10 + (d - 48)) limit e)
  where
    last_test : (a b : Bool) (m limit : ℕ) → (a && (b && ltb m limit)) ≡ true → m < limit
    last_test a b m limit e = grind arith

digits-Below :
    (limit : ℕ) (ds : List ℕ) (o : Option ℕ) → Below limit o → Below limit (digits limit ds o)
unfolding digits
digits-Below limit [] o h = h
digits-Below limit (d ∷ ds) o h =
    digits-Below limit ds (add_digit limit d o) (add_digit-Below limit d o)

some_digits-Below : (limit : ℕ) → 0 < limit → (ds : List ℕ) → Below limit (some_digits limit ds)
unfolding some_digits
some_digits-Below limit h [] = tt
some_digits-Below limit h (d ∷ ds) = digits-Below limit (d ∷ ds) (some 0) h

parse-Below : (limit : ℕ) → 0 < limit → (ds : List ℕ) → Below limit (parse limit ds)
unfolding parse
parse-Below limit h [] = tt
parse-Below limit h (d ∷ ds) =
    if-preserves (Below limit) (d == 43) (some_digits-Below limit h ds)
      (some_digits-Below limit h (d ∷ ds))

positive-Below : (limit : ℕ) (o : Option ℕ) → Below limit o → Below limit (positive o)
unfolding positive
positive-Below limit none h = tt
positive-Below limit (some n) h = if-preserves (Below limit) (ltb 0 n) {x = some n} {y = none} h tt

abbrev Fits : Option (ℕ × ℕ) → Type 0
Fits none = Unit {0}
Fits (some (w, h)) = (w < 65536) × (h < 65536)

both-Fits : (w h : Option ℕ) → Below 65536 w → Below 65536 h → Fits (both w h)
unfolding both
both-Fits none h p q = tt
both-Fits (some w) none p q = tt
both-Fits (some w) (some h) p q = (p, q)

size_of-Fits : (parts : Option (List ℕ × List ℕ)) → Fits (size_of parts)
unfolding size_of
size_of-Fits none = tt
size_of-Fits (some (w, h)) =
    both-Fits (positive (parse 65536 w)) (positive (parse 65536 h)) (fits w) (fits h)
  where
    fits : (ds : List ℕ) → Below 65536 (positive (parse 65536 ds))
    fits ds = positive-Below 65536 (parse 65536 ds) (parse-Below 65536 (omega arith) ds)

sizes-kept :
    (o : Option (ℕ × ℕ))
    → Fits o
    → sizes (Option.map (λ p. p.0) o) (Option.map (λ p. p.1) o)
      ≡ (Option.map (λ p. p.0) o, Option.map (λ p. p.1) o)
sizes-kept none f = refl
sizes-kept (some (w, h)) f = ap₂ (λ a b. (some a, some b)) (omega (arith, f.0)) (omega (arith, f.1))

framerate_of-kept : (value : List ℕ) → Option.map as_u8 (framerate_of value) ≡ framerate_of value
unfolding framerate_of
framerate_of-kept value =
    kept (same_bytes value (b'3' ∷ b'0' ∷ [])) (same_bytes value (b'6' ∷ b'0' ∷ []))
  where
    kept :
        (a b : Bool)
        → Option.map as_u8 (if a then some 30 else if b then some 60 else none)
          ≡ (if a then some 30 else if b then some 60 else none)
    kept true b = refl
    kept false true = refl
    kept false false = refl

bitrate-kept : (o : Option ℕ) → Below (2 ^ 32) o → Option.map (λ b. b % 2 ^ 32) o ≡ o
bitrate-kept none h = refl
bitrate-kept (some b) h = ap some (omega arith)

to_requested-received :
    (c : StreamSettingsChoice) → received (to_requested c) ≡ as_requested (to_requested c)
unfolding to_requested parse_resolution
to_requested-received c =
    rw
      (
        sizes-kept (parse_resolution c.resolution) (size_of-Fits (split_once b'x' c.resolution)),
        framerate_of-kept c.framerate,
        bitrate-kept (positive (parse (2 ^ 32) c.bitrate)) (
            positive-Below (2 ^ 32) (parse (2 ^ 32) c.bitrate)
              (parse-Below (2 ^ 32) (omega arith) c.bitrate)),
      )
      refl

-- Whatever strings the four settings hold, the daemon reads from the client's STNG message the
-- request that the client made of them, each field with its value: none is cut to the width it has
-- on the wire, and no size is sent alone.
pub choice_arrives :
    (c : StreamSettingsChoice)
    → parse_stng_body (drop 4 (build_stng (to_requested c))) ≡ some (as_requested (to_requested c))
choice_arrives c = parse-build_stng (to_requested c) ∙ ap some (to_requested-received c)

number_read :
    (limit fuel n : ℕ)
    → n < 10 ^ suc fuel
    → n < limit
    → 0 < n
    → positive (parse limit (decimal (suc fuel) n)) ≡ some n
unfolding positive
number_read limit fuel n small fits more =
    rw (parse-decimal limit fuel n small fits) (is_positive n more)
  where
    is_positive : (n : ℕ) → 0 < n → (if ltb 0 n then some n else none) ≡ some n
    is_positive n h = ground arith

resolution_read :
    (w h : ℕ)
    → 0 < w
    → w < 65536
    → 0 < h
    → h < 65536
    → parse_resolution (decimal 5 w ++ b'x' ∷ decimal 5 h) ≡ some (w, h)
unfolding parse_resolution size_of both
resolution_read w h w0 w1 h0 h1 =
    rw
      (
        split_once-append b'x' (decimal 5 w) (decimal 5 h)
            (decimal-contains b'x' 5 w (inr (omega arith))),
        number_read 65536 4 w (omega arith) w1 w0,
        number_read 65536 4 h (omega arith) h1 h0,
      )
      refl

-- A resolution written as two positive 16-bit numbers in decimal with an x between them, and a
-- bitrate written as a positive 32-bit number in decimal, are requested as these numbers.
pub picked_numbers_requested :
    (c : StreamSettingsChoice) (w h b : ℕ)
    → 0 < w
    → w < 65536
    → 0 < h
    → h < 65536
    → 0 < b
    → b < 2 ^ 32
    → c.resolution ≡ decimal 5 w ++ b'x' ∷ decimal 5 h
    → c.bitrate ≡ decimal 10 b
    → ((to_requested c).width ≡ some w)
      × ((to_requested c).height ≡ some h)
      × ((to_requested c).bitrate_bps ≡ some b)
unfolding to_requested
picked_numbers_requested c w h b w0 w1 h0 h1 b0 b1 size rate = (
  ap (Option.map (λ p. p.0)) read,
  ap (Option.map (λ p. p.1)) read,
  ap (λ s. positive (parse (2 ^ 32) s)) rate ∙ number_read (2 ^ 32) 9 b (omega arith) b1 b0,
)
  where
    read : parse_resolution c.resolution ≡ some (w, h)
    read = ap parse_resolution size ∙ resolution_read w h w0 w1 h0 h1
