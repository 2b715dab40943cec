-- ===== src/Video/SumCode.antt =====
-- A code of one parity shard over two data shards, their sum, as an instance of the erasure code.
use screx_v.Prelude.{
  ℕ, ◌+◌, ◌-◌, ◌≡◌, ◌≤◌, ap, ap₂, sym, refl, suc, Option, none, some, List, [], ◌∷◌, ◌++◌, length,
  map, arith, replicate, ◌∙◌,
}
use screx_v.Camera.Frame.{filled, IsPart}
use screx_v.Video.{ReedSolomon, chunk_payload}
use screx_v.Video.Code.{AreShards, IsCode}

add_all : List ℕ → List ℕ → List ℕ
add_all [] ys = []
add_all (x ∷ xs) [] = []
add_all (x ∷ xs) (y ∷ ys) = (x + y) ∷ add_all xs ys

sub_all : List ℕ → List ℕ → List ℕ
sub_all [] ys = []
sub_all (x ∷ xs) [] = []
sub_all (x ∷ xs) (y ∷ ys) = (x - y) ∷ sub_all xs ys

length-add_all : (xs ys : List ℕ) → length xs ≡ length ys → length (add_all xs ys) ≡ length xs
unfolding add_all
length-add_all [] ys h = refl
length-add_all (x ∷ xs) [] h = absurd (omega arith)
length-add_all (x ∷ xs) (y ∷ ys) h = ap suc (length-add_all xs ys (omega arith))

sub_all-add_all_right : (xs ys : List ℕ) → length xs ≡ length ys → sub_all (add_all xs ys) ys ≡ xs
unfolding add_all sub_all
sub_all-add_all_right [] ys h = refl
sub_all-add_all_right (x ∷ xs) [] h = absurd (omega arith)
sub_all-add_all_right (x ∷ xs) (y ∷ ys) h =
    ap₂ ◌∷◌ (omega arith) (sub_all-add_all_right xs ys (omega arith))

sub_all-add_all_left : (xs ys : List ℕ) → length xs ≡ length ys → sub_all (add_all xs ys) xs ≡ ys
unfolding add_all sub_all
sub_all-add_all_left [] [] h = refl
sub_all-add_all_left [] (y ∷ ys) h = absurd (omega arith)
sub_all-add_all_left (x ∷ xs) [] h = absurd (omega arith)
sub_all-add_all_left (x ∷ xs) (y ∷ ys) h =
    ap₂ ◌∷◌ (omega arith) (sub_all-add_all_left xs ys (omega arith))

sum_encode : (dc pc : ℕ) → List (List ℕ) → Option (List (List ℕ))
unfolding add_all
sum_encode dc pc (a ∷ b ∷ rest) = some (a ∷ b ∷ add_all a b ∷ [])
sum_encode dc pc ss = none

sum_reconstruct : (dc pc : ℕ) → List (Option (List ℕ)) → Option (List (Option (List ℕ)))
unfolding add_all sub_all
sum_reconstruct dc pc (some a ∷ some b ∷ p ∷ []) = some (some a ∷ some b ∷ some (add_all a b) ∷ [])
sum_reconstruct dc pc (some a ∷ none ∷ some p ∷ []) =
    some (some a ∷ some (sub_all p a) ∷ some p ∷ [])
sum_reconstruct dc pc (none ∷ some b ∷ some p ∷ []) =
    some (some (sub_all p b) ∷ some b ∷ some p ∷ [])
sum_reconstruct dc pc slots = none

sum_parity : List (List ℕ) → List (List ℕ)
unfolding add_all
sum_parity (a ∷ b ∷ []) = add_all a b ∷ []
sum_parity ss = []

pub sum_code : ReedSolomon
sum_code = record { encode = sum_encode; reconstruct = sum_reconstruct }

count : (ds : List (List ℕ)) → length ds ≡ 2 → length (sum_parity ds) ≡ 1
unfolding sum_parity
count (a ∷ b ∷ []) h = refl
count [] h = absurd (omega arith)
count (a ∷ []) h = absurd (omega arith)
count (a ∷ b ∷ c ∷ ds) h = absurd (omega arith)

size : (ds : List (List ℕ)) → length ds ≡ 2 → AreShards ds → AreShards (sum_parity ds)
unfolding sum_parity
size (a ∷ b ∷ []) h (ha, (hb, _)) = (length-add_all a b (ha ∙ sym hb) ∙ ha, tt)
size [] h k = tt
size (a ∷ []) h k = tt
size (a ∷ b ∷ c ∷ ds) h k = tt

encodes :
    (ds : List (List ℕ))
    → length ds ≡ 2
    → AreShards ds
    → sum_encode 2 1 (ds ++ replicate 1 (replicate chunk_payload 0)) ≡ some (ds ++ sum_parity ds)
unfolding sum_parity sum_encode
encodes (a ∷ b ∷ []) h k = refl
encodes [] h k = absurd (omega arith)
encodes (a ∷ []) h k = absurd (omega arith)
encodes (a ∷ b ∷ c ∷ ds) h k = absurd (omega arith)

from_slots :
    (a b : List ℕ) (slots : List (Option (List ℕ)))
    → length a ≡ length b
    → IsPart slots (a ∷ b ∷ add_all a b ∷ [])
    → length slots ≡ 3
    → 2 ≤ filled slots
    → sum_reconstruct 2 1 slots ≡ some (some a ∷ some b ∷ some (add_all a b) ∷ [])
unfolding sum_reconstruct
from_slots a b (some x ∷ some y ∷ none ∷ []) e (p, (q, _)) l f =
    ap₂ (λ (u v : List ℕ). some (some u ∷ some v ∷ some (add_all u v) ∷ [])) p q
from_slots a b (some x ∷ some y ∷ some z ∷ []) e (p, (q, _)) l f =
    ap₂ (λ (u v : List ℕ). some (some u ∷ some v ∷ some (add_all u v) ∷ [])) p q
from_slots a b (some x ∷ none ∷ some z ∷ []) e (p, (q, _)) l f =
    ap₂ (λ (u v : List ℕ). some (some u ∷ some (sub_all v u) ∷ some v ∷ [])) p q
    ∙ ap (λ (v : List ℕ). some (some a ∷ some v ∷ some (add_all a b) ∷ []))
        (sub_all-add_all_left a b e)
from_slots a b (none ∷ some y ∷ some z ∷ []) e (p, (q, _)) l f =
    ap₂ (λ (u v : List ℕ). some (some (sub_all v u) ∷ some u ∷ some v ∷ [])) p q
    ∙ ap (λ (v : List ℕ). some (some v ∷ some b ∷ some (add_all a b) ∷ []))
        (sub_all-add_all_right a b e)
from_slots a b (none ∷ none ∷ none ∷ []) e p l f = absurd (omega arith)
from_slots a b (none ∷ none ∷ some z ∷ []) e p l f = absurd (omega arith)
from_slots a b (none ∷ some y ∷ none ∷ []) e p l f = absurd (omega arith)
from_slots a b (some x ∷ none ∷ none ∷ []) e p l f = absurd (omega arith)
from_slots a b [] e p l f = absurd (omega arith)
from_slots a b (x ∷ []) e p l f = absurd (omega arith)
from_slots a b (x ∷ y ∷ []) e p l f = absurd (omega arith)
from_slots a b (x ∷ y ∷ z ∷ w ∷ slots) e p l f = absurd (omega arith)

reconstructs :
    (ds : List (List ℕ)) (slots : List (Option (List ℕ)))
    → length ds ≡ 2
    → AreShards ds
    → IsPart slots (ds ++ sum_parity ds)
    → length slots ≡ 2 + 1
    → 2 ≤ filled slots
    → sum_reconstruct 2 1 slots ≡ some (map some (ds ++ sum_parity ds))
unfolding sum_parity
reconstructs (a ∷ b ∷ []) slots h (ha, (hb, _)) p l f = from_slots a b slots (ha ∙ sym hb) p l f
reconstructs [] slots h k p l f = absurd (omega arith)
reconstructs (a ∷ []) slots h k p l f = absurd (omega arith)
reconstructs (a ∷ b ∷ c ∷ ds) slots h k p l f = absurd (omega arith)

pub sum_code-IsCode : IsCode sum_code 2 1
unfolding sum_code
sum_code-IsCode = record {
  parity_of = sum_parity;
  parity_count = count;
  parity_size = size;
  encodes = encodes;
  reconstructs = reconstructs;
}
