-- ===== src/Text/Numbers.antt =====
-- A number is read back from its decimal digits.
use screx_v.Prelude.{
  ℕ, zero, suc, ◌+◌, ◌*◌, ◌/◌, ◌%◌, ◌^◌, ◌<◌, ◌≡◌, ◌⊎◌, refl, ap, subst, Bool, true, false, Option,
  some, List, [], ◌∷◌, ◌++◌, ltb, ◌==◌, arith, Bool-cases, inl, inr,
}
use screx_v.Text.{contains, add_digit, digits, some_digits, parse, decimal}
use screx_v.Text.Splits.{or_false, contains-append}

digits-snoc :
    (limit : ℕ) (ds : List ℕ) (d : ℕ) (o : Option ℕ)
    → digits limit (ds ++ (d ∷ [])) o ≡ add_digit limit d (digits limit ds o)
unfolding digits
digits-snoc limit [] d o = refl
digits-snoc limit (c ∷ ds) d o = digits-snoc limit ds d (add_digit limit c o)

add_digit-fits :
    (limit m r n : ℕ)
    → r < 10
    → n ≡ m * 10 + r
    → n < limit
    → add_digit limit (48 + r) (some m) ≡ some n
unfolding add_digit
add_digit-fits limit m r n h e fits = ground arith

tenth_fits : (p n : ℕ) → n < 10 * p → n / 10 < p
tenth_fits p n h = omega arith

power_suc : (n : ℕ) → 10 ^ suc n ≡ 10 * 10 ^ n
power_suc n = omega arith

digits-decimal :
    (limit fuel n : ℕ) → n < 10 ^ fuel → n < limit → digits limit (decimal fuel n) (some 0) ≡ some n
unfolding decimal digits
digits-decimal limit zero n h fits = ap some (omega arith)
digits-decimal limit (suc fuel) n h fits = elim (Bool-cases (ltb n 10)) [
  | inl e ↦ rw e (add_digit-fits limit 0 n n (ground arith) (omega arith) fits)
  | inr e ↦
      rw
        (
          e,
          digits-snoc limit (decimal fuel (n / 10)) (48 + n % 10) (some 0),
          digits-decimal limit fuel (n / 10)
              (tenth_fits (10 ^ fuel) n (subst (λ p. n < p) (power_suc fuel) h)) (omega arith),
        )
        (add_digit-fits limit (n / 10) (n % 10) n (omega arith) (omega arith) fits)
]

not_digit : (c d : ℕ) → d < 10 → c < 48 ⊎ 57 < c → (48 + d == c) ≡ false
not_digit c d small h = ground arith

-- No digit is a colon or a plus sign.
pub decimal-contains : (c fuel n : ℕ) → c < 48 ⊎ 57 < c → contains c (decimal fuel n) ≡ false
unfolding decimal contains
decimal-contains c zero n h = refl
decimal-contains c (suc fuel) n h = elim (Bool-cases (ltb n 10)) [
  | inl e ↦ rw e (rw (not_digit c n (ground arith) h) refl)
  | inr e ↦
      rw
        (
          e,
          contains-append c (decimal fuel (n / 10)) ((48 + n % 10) ∷ []),
          decimal-contains c fuel (n / 10) h,
        )
        (rw (not_digit c (n % 10) (omega arith) h) refl)
]

starts : List ℕ → Bool
starts [] = false
starts (x ∷ xs) = true

starts-append : (xs : List ℕ) (y : ℕ) → starts (xs ++ (y ∷ [])) ≡ true
unfolding starts
starts-append [] y = refl
starts-append (x ∷ xs) y = refl

decimal-starts : (fuel n : ℕ) → starts (decimal (suc fuel) n) ≡ true
unfolding decimal starts
decimal-starts fuel n = elim (Bool-cases (ltb n 10)) [
  | inl e ↦ rw e refl
  | inr e ↦ rw e (starts-append (decimal fuel (n / 10)) (48 + n % 10))
]

parse-digits :
    (limit : ℕ) (ds : List ℕ) (n : ℕ)
    → starts ds ≡ true
    → contains 43 ds ≡ false
    → digits limit ds (some 0) ≡ some n
    → parse limit ds ≡ some n
unfolding parse some_digits starts contains
parse-digits limit [] n begun plain e = grind arith
parse-digits limit (d ∷ ds) n begun plain e = rw (or_false (d == 43) (contains 43 ds) plain).0 e

pub parse-decimal :
    (limit fuel n : ℕ) → n < 10 ^ suc fuel → n < limit → parse limit (decimal (suc fuel) n) ≡ some n
parse-decimal limit fuel n small fits =
    parse-digits limit (decimal (suc fuel) n) n (decimal-starts fuel n)
      (decimal-contains 43 (suc fuel) n (inl (omega arith)))
      (digits-decimal limit (suc fuel) n small fits)
