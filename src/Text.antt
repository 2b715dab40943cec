-- ===== src/Text.antt =====
-- The operations on strings that the client's settings and addresses use, on their bytes: `contains`,
-- `split_once`, `rsplit_once`, `strip_prefix` and `parse`, as client/desktop/src/backend.rs
-- (parse_host_port) and client/desktop/src/capabilities.rs (parse_resolution) call them.
pub mod Numbers
pub mod Splits
use screx_v.Prelude.{
  ℕ, zero, suc, ◌+◌, ◌-◌, ◌*◌, ◌/◌, ◌%◌, Bool, true, false, ◌&&◌, ◌||◌, Option, none, some, List,
  [], ◌∷◌, ◌++◌, leb, ltb, ◌==◌, if◌then◌else◌,
}

unfoldable pub contains : (c : ℕ) → List ℕ → Bool
contains c [] = false
contains c (x ∷ xs) = (x == c) || contains c xs

unfoldable pub strip_prefix : (c : ℕ) → List ℕ → Option (List ℕ)
strip_prefix c [] = none
strip_prefix c (x ∷ xs) = if x == c then some xs else none

unfoldable pub before : ℕ → Option (List ℕ × List ℕ) → Option (List ℕ × List ℕ)
before x none = none
before x (some (xs, ys)) = some (x ∷ xs, ys)

-- At the first separator, and at the last one.
unfoldable pub split_once : (c : ℕ) → List ℕ → Option (List ℕ × List ℕ)
unfolding before
split_once c [] = none
split_once c (x ∷ xs) =
    let rest = split_once c xs in if x == c then some ([], xs) else before x rest

unfoldable pub last_split : (c x : ℕ) → List ℕ → Option (List ℕ × List ℕ) → Option (List ℕ × List ℕ)
last_split c x xs (some (ys, zs)) = some (x ∷ ys, zs)
last_split c x xs none = if x == c then some ([], xs) else none

unfoldable pub rsplit_once : (c : ℕ) → List ℕ → Option (List ℕ × List ℕ)
unfolding last_split
rsplit_once c [] = none
rsplit_once c (x ∷ xs) = last_split c x xs (rsplit_once c xs)

-- One more digit, while the number stays below the limit.
unfoldable pub add_digit : (limit : ℕ) → ℕ → Option ℕ → Option ℕ
add_digit limit d none = none
add_digit limit d (some n) =
    if leb 48 d && (leb d 57 && ltb (n * 10 + (d - 48)) limit)
    then some (n * 10 + (d - 48))
    else none

unfoldable pub digits : (limit : ℕ) → List ℕ → Option ℕ → Option ℕ
unfolding add_digit
digits limit [] n = n
digits limit (d ∷ ds) n = digits limit ds (add_digit limit d n)

unfoldable pub some_digits : (limit : ℕ) → List ℕ → Option ℕ
unfolding digits
some_digits limit [] = none
some_digits limit (d ∷ ds) = digits limit (d ∷ ds) (some 0)

-- `parse::<u16>` for the limit 2 ^ 16, `parse::<u32>` for 2 ^ 32: digits, at least one, after a plus
-- sign or none.
unfoldable pub parse : (limit : ℕ) → List ℕ → Option ℕ
unfolding some_digits
parse limit [] = none
parse limit (d ∷ ds) = if d == 43 then some_digits limit ds else some_digits limit (d ∷ ds)

-- A number below 10 ^ fuel, in decimal digits.
unfoldable pub decimal : (fuel n : ℕ) → List ℕ
decimal zero n = []
decimal (suc fuel) n =
    let rest = decimal fuel (n / 10) in
    if ltb n 10 then (48 + n) ∷ [] else rest ++ (48 + n % 10) ∷ []
