-- ===== src/Prelude/Slices.antt =====
-- Slices of a buffer, read and overwritten in place.
use Prim.Native.Nat.{ℕ, ◌+◌, ◌-◌, ◌<◌, ◌≤◌}
use mathlib.Core.Path.{◌≡◌, refl, sym, ap, ap₂, ◌∙◌}
use mathlib.Core.List.{List, ◌++◌, append_assoc}
use native.Mathlib.Omega.{arith}
use screx_v.Prelude.Lists.{
  length, get_or, take, drop, length-append, length-take, length-drop, take-append_length,
}
use screx_v.Prelude.Positions.{
  get_or-append_left, get_or-append_right, get_or-take, get_or-drop, tabulate, tabulate-ext,
  tabulate-get_or, drop-append_right, drop-drop,
}

-- `buf[pos..pos + xs.len()].copy_from_slice(xs)`.
unfoldable pub copy_at {ℓ} : {A : Type ℓ} → (pos : ℕ) (xs buf : List A) → List A
copy_at pos xs buf = take pos buf ++ (xs ++ drop (pos + length xs) buf)

module _ {ℓ} {A : Type ℓ} (pos : ℕ) (xs buf : List A) (fits : pos + length xs ≤ length buf) where
  pub length-copy_at : length (copy_at pos xs buf) ≡ length buf
  unfolding copy_at
  length-copy_at = omega (
    arith,
    length-append (take pos buf) (xs ++ drop (pos + length xs) buf),
    length-append xs (drop (pos + length xs) buf),
    length-take pos buf,
    length-drop (pos + length xs) buf,
  )

  pub copy_at_before : (i : ℕ) (d : A) → i < pos → get_or (copy_at pos xs buf) i d ≡ get_or buf i d
  unfolding copy_at
  copy_at_before i d h =
      get_or-append_left (take pos buf) (xs ++ drop (pos + length xs) buf) i d
        (omega (arith, length-take pos buf))
      ∙ get_or-take pos buf i d h

  pub copy_at_inside :
      (i : ℕ) (d : A) → i < length xs → get_or (copy_at pos xs buf) (pos + i) d ≡ get_or xs i d
  unfolding copy_at
  copy_at_inside i d h =
      get_or-append_right (take pos buf) (xs ++ drop (pos + length xs) buf) (pos + i) d
        (omega (arith, length-take pos buf))
      ∙ ap (λ j. get_or (xs ++ drop (pos + length xs) buf) j d) (omega (arith, length-take pos buf))
      ∙ get_or-append_left xs (drop (pos + length xs) buf) i d h

  pub copy_at_after :
      (i : ℕ) (d : A) → pos + length xs ≤ i → get_or (copy_at pos xs buf) i d ≡ get_or buf i d
  unfolding copy_at
  copy_at_after i d h =
      get_or-append_right (take pos buf) (xs ++ drop (pos + length xs) buf) i d
        (omega (arith, length-take pos buf))
      ∙ get_or-append_right xs (drop (pos + length xs) buf) (i - length (take pos buf)) d
          (omega (arith, length-take pos buf))
      ∙ get_or-drop (pos + length xs) buf (i - length (take pos buf) - length xs) d
      ∙ ap (λ j. get_or buf j d) (omega (arith, length-take pos buf))

module _ {ℓ} {A : Type ℓ} where
  pub slice_cells :
      (k n : ℕ) (xs : List A) (d : A)
      → k + n ≤ length xs
      → take n (drop k xs) ≡ tabulate n (λ i. get_or xs (k + i) d)
  slice_cells k n xs d h =
      sym (tabulate-get_or (take n (drop k xs)) d)
      ∙ ap (λ m. tabulate m (λ i. get_or (take n (drop k xs)) i d))
          (omega (arith, length-take n (drop k xs), length-drop k xs))
      ∙ tabulate-ext n (λ i. get_or (take n (drop k xs)) i d) (λ i. get_or xs (k + i) d)
          (λ i lt. get_or-take n (drop k xs) i d lt ∙ get_or-drop k xs i d)

  -- A second copy behind the first.
  pub copy_at_twice :
      (xs ys out : List A)
      → copy_at (length xs) ys (copy_at 0 xs out) ≡ (xs ++ ys) ++ drop (length xs + length ys) out
  unfolding copy_at
  copy_at_twice xs ys out =
      ap₂ (λ (a b : List A). a ++ (ys ++ b)) (take-append_length (length xs) xs t refl)
        (drop-append_right (length xs + length ys) xs t (omega arith)
          ∙ ap (λ k. drop k t) (omega arith)
          ∙ drop-drop (length ys) (0 + length xs) out
          ∙ ap (λ k. drop k out) (omega arith))
      ∙ sym (append_assoc xs ys (drop (length xs + length ys) out))
    where
      t : List A
      t = drop (0 + length xs) out
