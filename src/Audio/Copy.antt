-- ===== src/Audio/Copy.antt =====
-- The one or two slices that AudioRingBuffer::read copies.
use screx_v.Prelude.{
  copy_at, slice_cells, copy_at_twice, ℕ, ◌+◌, ◌-◌, ◌<◌, ◌≤◌, ◌≡◌, ◌∙◌, ap, ap₂, sym, min, List,
  ◌++◌, length, take, drop, get_or, arith, lt→ltb, lt_or_le, not_ltb, ◌⊎◌, inl, inr, length-take,
  length-drop, tabulate, tabulate-ext, tabulate_add,
}
use screx_v.Audio.{AudioRingBuffer, ring_capacity, copy_out}
use screx_v.Audio.Ring.{IsRing, slot, contents, take-tabulate}

module _ (n : ℕ) (r : AudioRingBuffer) (h : IsRing r) (fits : n ≤ r.count) where
  first : ℕ
  first = min (ring_capacity - r.read_pos) n

  near : List ℕ
  near = take first (drop r.read_pos r.storage)

  far : List ℕ
  far = take (n - first) r.storage

  length-near : length near ≡ first
  unfolding near first
  length-near = omega (
    arith,
    h.size,
    h.reads,
    length-take first (drop r.read_pos r.storage),
    length-drop r.read_pos r.storage,
  )

  length-far : length far ≡ n - first
  unfolding far first
  length-far = omega (arith, h.size, h.reads, h.fits, fits, length-take (n - first) r.storage)

  near_lem : near ≡ tabulate first (slot r)
  unfolding near first
  near_lem =
      slice_cells r.read_pos first r.storage 0 (omega (arith, h.size, h.reads))
      ∙ tabulate-ext first (λ i. get_or r.storage (r.read_pos + i) 0) (slot r)
          (λ i lt. ap (λ j. get_or r.storage j 0) (omega arith))

  far_lem : far ≡ tabulate (n - first) (λ i. slot r (first + i))
  unfolding far first
  far_lem =
      slice_cells 0 (n - first) r.storage 0 (omega (arith, h.size, h.fits, fits))
      ∙ tabulate-ext (n - first) (λ i. get_or r.storage (0 + i) 0) (λ i. slot r (first + i))
          (λ i lt. ap (λ j. get_or r.storage j 0) (omega (arith, h.reads, h.fits, fits)))

  pub copy_out_lem :
      (out : List ℕ) → copy_out n r.storage r.read_pos out ≡ take n (contents r) ++ drop n out
  unfolding copy_out copy_at first near far
  copy_out_lem out = by_parts (lt_or_le first n)
    where
      joined : near ++ far ≡ take n (contents r)
      joined =
          ap₂ (λ (a b : List ℕ). a ++ b) near_lem far_lem
          ∙ sym (tabulate_add first (n - first) (slot r))
          ∙ ap (λ k. tabulate k (slot r)) (omega arith)
          ∙ sym (take-tabulate n r.count (slot r) fits)

      by_parts :
          (first < n) ⊎ (n ≤ first)
          → copy_out n r.storage r.read_pos out ≡ take n (contents r) ++ drop n out
      by_parts (inl wraps) = rw (lt→ltb first n wraps) (
          ap (λ k. copy_at k far (copy_at 0 near out)) (sym length-near)
          ∙ copy_at_twice near far out
          ∙ ap₂ (λ (a : List ℕ) k. a ++ drop k out) joined (omega (arith, length-near, length-far)))
      by_parts (inr b) = rw (not_ltb b) (
          ap₂ (λ (a : List ℕ) k. a ++ drop k out)
            (near_lem
              ∙ ap (λ k. tabulate k (slot r)) (omega arith)
              ∙ sym (take-tabulate n r.count (slot r) fits))
            (omega (arith, length-near)))
