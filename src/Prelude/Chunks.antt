-- ===== src/Prelude/Chunks.antt =====
-- A list cut into pieces of one size, as the `chunks` of a slice does it.
use Prim.Native.Nat.{ℕ, zero, suc, ◌<◌, ◌≤◌}
use mathlib.Core.Path.{◌≡◌, refl}
use mathlib.Core.List.{List, [], ◌∷◌, ◌++◌}
use native.Mathlib.Omega.{arith}
use screx_v.Prelude.Lists.{length, take, drop, length-drop, take-append-drop}

module _ {ℓ} {A : Type ℓ} where
  -- The pieces joined again.
  abbrev pub concat : List (List A) → List A
  concat [] = []
  concat (xs ∷ xss) = xs ++ concat xss

  -- Each round takes `size` elements; for a positive size, as many rounds as elements are enough.
  unfoldable pub chunks_within : ℕ → ℕ → List A → List (List A)
  chunks_within fuel size [] = []
  chunks_within zero size (x ∷ xs) = []
  chunks_within (suc fuel) size (x ∷ xs) =
      take size (x ∷ xs) ∷ chunks_within fuel size (drop size (x ∷ xs))

  unfoldable pub chunks : ℕ → List A → List (List A)
  unfolding chunks_within
  chunks size xs = chunks_within (length xs) size xs

  concat-chunks_within :
      (fuel size : ℕ) (xs : List A)
      → 0 < size
      → length xs ≤ fuel
      → concat (chunks_within fuel size xs) ≡ xs
  unfolding chunks_within
  concat-chunks_within fuel size [] p h = refl
  concat-chunks_within zero size (x ∷ xs) p h = absurd (omega arith)
  concat-chunks_within (suc fuel) size (x ∷ xs) p h =
      rw (concat-chunks_within fuel size (drop size (x ∷ xs)) p shorter)
        (take-append-drop size (x ∷ xs))
    where
      shorter : length (drop size (x ∷ xs)) ≤ fuel
      shorter = omega (arith, length-drop size (x ∷ xs))

  pub concat-chunks : (size : ℕ) (xs : List A) → 0 < size → concat (chunks size xs) ≡ xs
  unfolding chunks
  concat-chunks size xs p = concat-chunks_within (length xs) size xs p (omega arith)
