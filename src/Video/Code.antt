-- ===== src/Video/Code.antt =====
-- The erasure code on the slots of a FrameAssembly.
use screx_v.Prelude.{
  ℕ, ◌+◌, ◌<◌, ◌≤◌, ◌≡◌, ◌∙◌, ap, ap₂, refl, zero, suc, Bool, true, false, Option, none, some, List,
  [], ◌∷◌, ◌++◌, length, get_or, arith, replicate, tabulate, concat, map, All, ◌⊎◌, inl, inr,
  if◌then◌else◌, tabulate-ext,
}
use screx_v.Camera.Frame.{filled, IsPart}
use screx_v.Video.{ReedSolomon, chunk_payload}
use screx_v.Video.Assembly.{cut, add_piece, joined, all_present}
use screx_v.Video.Shards.{count_present}

abbrev pub AreShards : List (List ℕ) → Type 0
AreShards ss = All (λ s. length s ≡ chunk_payload) ss

-- What the crate documents of a code with these numbers of data and parity shards: `encode` leaves
-- the data and fills in as many parity shards of the same size; `reconstruct` gives all shards back
-- when at least as many as there are data shards are left.
pub record IsCode (rs : ReedSolomon) (dc pc : ℕ) : Type 0 where
  pub parity_of : List (List ℕ) → List (List ℕ)
  pub parity_count : (ds : List (List ℕ)) → length ds ≡ dc → length (parity_of ds) ≡ pc
  pub parity_size : (ds : List (List ℕ)) → length ds ≡ dc → AreShards ds → AreShards (parity_of ds)
  pub encodes :
      (ds : List (List ℕ))
      → length ds ≡ dc
      → AreShards ds
      → rs.encode dc pc (ds ++ replicate pc (replicate chunk_payload 0)) ≡ some (ds ++ parity_of ds)
  pub reconstructs :
      (ds : List (List ℕ)) (slots : List (Option (List ℕ)))
      → length ds ≡ dc
      → AreShards ds
      → IsPart slots (ds ++ parity_of ds)
      → length slots ≡ dc + pc
      → dc ≤ filled slots
      → rs.reconstruct dc pc slots ≡ some (map some (ds ++ parity_of ds))

pub get_or-AreShards :
    (ss : List (List ℕ)) (i : ℕ)
    → AreShards ss
    → i < length ss
    → length (get_or ss i []) ≡ chunk_payload
get_or-AreShards [] i h lt = absurd (omega arith)
get_or-AreShards (s ∷ ss) zero (h, hs) lt = h
get_or-AreShards (s ∷ ss) (suc i) (h, hs) lt = get_or-AreShards ss i hs (omega arith)

pub tabulate-AreShards :
    (n : ℕ) (f : ℕ → List ℕ)
    → ((i : ℕ) → i < n → length (f i) ≡ chunk_payload)
    → AreShards (tabulate n f)
tabulate-AreShards zero f h = tt
tabulate-AreShards (suc n) f h =
    (h 0 (omega arith), tabulate-AreShards n (λ i. f (suc i)) (λ i lt. h (suc i) (omega arith)))

cons-IsPart :
    (o : Option (List ℕ)) (s : List ℕ) (slots : List (Option (List ℕ))) (ss : List (List ℕ))
    → (o ≡ none) ⊎ (o ≡ some s)
    → IsPart slots ss
    → IsPart (o ∷ slots) (s ∷ ss)
cons-IsPart o s slots ss (inl e) h = rw e h
cons-IsPart o s slots ss (inr e) h = rw e (refl, h)

pub tabulate-IsPart :
    (n : ℕ) (f : ℕ → Option (List ℕ)) (ss : List (List ℕ))
    → n ≤ length ss
    → ((i : ℕ) → i < n → (f i ≡ none) ⊎ (f i ≡ some (get_or ss i [])))
    → IsPart (tabulate n f) ss
tabulate-IsPart zero f ss le h = tt
tabulate-IsPart (suc n) f [] le h = absurd (omega arith)
tabulate-IsPart (suc n) f (s ∷ ss) le h =
    cons-IsPart (f 0) s (tabulate n (λ i. f (suc i))) ss (h 0 (omega arith))
      (tabulate-IsPart n (λ i. f (suc i)) ss (omega arith) (λ i lt. h (suc i) (omega arith)))

pub filled-tabulate :
    (ps : List Bool) (g : ℕ → List ℕ)
    → filled (tabulate (length ps) (λ i. if get_or ps i false then some (g i) else none))
      ≡ count_present ps
filled-tabulate [] g = refl
filled-tabulate (true ∷ ps) g = ap suc (filled-tabulate ps (λ i. g (suc i)))
filled-tabulate (false ∷ ps) g = filled-tabulate ps (λ i. g (suc i))

pub all_present_at :
    (n : ℕ) (ps : List Bool) → all_present n ps ≡ true → (i : ℕ) → i < n → get_or ps i false ≡ true
unfolding all_present
all_present_at zero ps h i lt = absurd (omega arith)
all_present_at (suc n) [] h i lt = absurd cc
all_present_at (suc n) (true ∷ ps) h zero lt = refl
all_present_at (suc n) (true ∷ ps) h (suc i) lt = all_present_at n ps h i (omega arith)
all_present_at (suc n) (false ∷ ps) h i lt = absurd cc

pub not_all_present :
    (n : ℕ) (ps : List Bool)
    → all_present n ps ≡ false
    → n ≤ length ps
    → count_present ps < length ps
unfolding all_present
not_all_present zero ps h le = absurd cc
not_all_present (suc n) [] h le = absurd (omega arith)
not_all_present (suc n) (true ∷ ps) h le = omega (arith, not_all_present n ps h (omega arith))
not_all_present (suc n) (false ∷ ps) h le = omega (arith, count_present_le ps)
  where
    count_present_le : (qs : List Bool) → count_present qs ≤ length qs
    count_present_le [] = omega arith
    count_present_le (true ∷ qs) = omega (arith, count_present_le qs)
    count_present_le (false ∷ qs) = omega (arith, count_present_le qs)

get_or-some :
    (ss : List (List ℕ)) (i : ℕ)
    → i < length ss
    → get_or (map some ss) i none ≡ some (get_or ss i [])
get_or-some [] i lt = absurd (omega arith)
get_or-some (s ∷ ss) zero lt = refl
get_or-some (s ∷ ss) (suc i) lt = get_or-some ss i (omega arith)

joined_step :
    (n i : ℕ) (lens : List ℕ) (shards : List (Option (List ℕ))) (s rest : List ℕ)
    → get_or shards i none ≡ some s
    → joined n (i + 1) lens shards ≡ some rest
    → joined (suc n) i lens shards ≡ some (cut (get_or lens i 0) s ++ rest)
unfolding joined add_piece
joined_step n i lens shards s rest e f = ap₂ (add_piece (get_or lens i 0)) e f

pub joined_lem :
    (n i : ℕ) (lens : List ℕ) (ss : List (List ℕ))
    → i + n ≤ length ss
    → joined n i lens (map some ss)
      ≡ some (concat (tabulate n (λ j. cut (get_or lens (i + j) 0) (get_or ss (i + j) []))))
unfolding joined
joined_lem zero i lens ss le = refl
joined_lem (suc n) i lens ss le =
    joined_step n i lens (map some ss) (get_or ss i []) rest (get_or-some ss i (omega arith))
      (joined_lem n (i + 1) lens ss (omega arith))
    ∙ ap₂ (λ (x : List ℕ) xs. some (x ++ concat xs))
        (ap (λ k. cut (get_or lens k 0) (get_or ss k [])) (omega arith))
        (tabulate-ext n (λ j. cut (get_or lens (i + 1 + j) 0) (get_or ss (i + 1 + j) []))
          (λ j. cut (get_or lens (i + suc j) 0) (get_or ss (i + suc j) []))
          (λ j lt. ap (λ k. cut (get_or lens k 0) (get_or ss k [])) (omega arith)))
  where
    rest : List ℕ
    rest = concat (tabulate n (λ j. cut (get_or lens (i + 1 + j) 0) (get_or ss (i + 1 + j) [])))
