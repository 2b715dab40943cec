-- ===== src/Text/Splits.antt =====
-- Where a string splits.
use screx_v.Prelude.{
  ℕ, ◌≡◌, refl, sym, Bool, true, false, ◌||◌, none, some, List, [], ◌∷◌, ◌++◌, ◌==◌, arith,
}
use screx_v.Text.{contains, last_split, rsplit_once, before, split_once}

or_assoc : (a b c : Bool) → ((a || b) || c) ≡ (a || (b || c))
or_assoc true b c = refl
or_assoc false b c = refl

pub or_false : (a b : Bool) → (a || b) ≡ false → (a ≡ false) × (b ≡ false)
or_false true b h = (h, grind arith)
or_false false b h = (refl, h)

pub contains-append :
    (c : ℕ) (xs ys : List ℕ) → contains c (xs ++ ys) ≡ (contains c xs || contains c ys)
unfolding contains
contains-append c [] ys = refl
contains-append c (x ∷ xs) ys =
    rw (contains-append c xs ys) (sym (or_assoc (x == c) (contains c xs) (contains c ys)))

pub rsplit_once-none : (c : ℕ) (xs : List ℕ) → contains c xs ≡ false → rsplit_once c xs ≡ none
unfolding rsplit_once contains last_split
rsplit_once-none c [] h = refl
rsplit_once-none c (x ∷ xs) h =
    let both = or_false (x == c) (contains c xs) h in rw (rsplit_once-none c xs both.1, both.0) refl

pub same_code : (c : ℕ) → (c == c) ≡ true
same_code c = ground arith

pub rsplit_once-append :
    (c : ℕ) (xs ys : List ℕ)
    → contains c ys ≡ false
    → rsplit_once c (xs ++ (c ∷ ys)) ≡ some (xs, ys)
unfolding rsplit_once last_split
rsplit_once-append c [] ys h = rw (rsplit_once-none c ys h) (rw (same_code c) refl)
rsplit_once-append c (x ∷ xs) ys h = rw (rsplit_once-append c xs ys h) refl

pub split_once-append :
    (c : ℕ) (xs ys : List ℕ) → contains c xs ≡ false → split_once c (xs ++ (c ∷ ys)) ≡ some (xs, ys)
unfolding split_once before contains
split_once-append c [] ys h = rw (same_code c) refl
split_once-append c (x ∷ xs) ys h =
    let both = or_false (x == c) (contains c xs) h in
    rw (split_once-append c xs ys both.1, both.0) refl
