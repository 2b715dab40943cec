-- ===== src/Audio/Ring.antt =====
-- What the ring holds, oldest byte first, and what each operation of AudioRingBuffer does to it.
use screx_v.Prelude.{
  copy_at, length-copy_at, copy_at_before, copy_at_inside, copy_at_after, ℕ, ◌+◌, ◌-◌, ◌%◌, ◌<◌,
  ◌≤◌, ◌≡◌, ◌∙◌, ap, min, inl, inr, List, length, take, drop, get_or, ltb, lt→ltb, lt_or_le, arith,
  ◌⊎◌, length-take, if-preserves, length-drop, drop-append_length, tabulate, tabulate_add,
  length-tabulate, get_or-take, get_or-drop, take-append_length,
}
use screx_v.Audio.{AudioRingBuffer, ring_capacity, put_in}

pub record IsRing (r : AudioRingBuffer) : Type 0 where
  pub size : length r.storage ≡ ring_capacity
  pub reads : r.read_pos < ring_capacity
  pub fits : r.count ≤ ring_capacity
  pub writes : r.write_pos ≡ (r.read_pos + r.count) % ring_capacity

-- The byte at a distance from the read position.
abbrev pub slot : AudioRingBuffer → ℕ → ℕ
slot r i = get_or r.storage ((r.read_pos + i) % ring_capacity) 0

abbrev pub contents : AudioRingBuffer → List ℕ
contents r = tabulate r.count (slot r)

pub drop-tabulate :
    (n m : ℕ) (f : ℕ → ℕ) → n ≤ m → drop n (tabulate m f) ≡ tabulate (m - n) (λ i. f (n + i))
drop-tabulate n m f h =
    ap (λ k. drop n (tabulate k f)) (omega arith)
    ∙ ap (drop n) (tabulate_add n (m - n) f)
    ∙ drop-append_length n (tabulate n f) (tabulate (m - n) (λ i. f (n + i))) (length-tabulate n f)

pub take-tabulate : (n m : ℕ) (f : ℕ → ℕ) → n ≤ m → take n (tabulate m f) ≡ tabulate n f
take-tabulate n m f h =
    ap (λ k. take n (tabulate k f)) (omega arith)
    ∙ ap (take n) (tabulate_add n (m - n) f)
    ∙ take-append_length n (tabulate n f) (tabulate (m - n) (λ i. f (n + i))) (length-tabulate n f)

zero_add : (j : ℕ) → j ≡ 0 + j
zero_add j = omega arith

-- The storage after `put_in`, at a distance from the write position: the new bytes, then the old.
module _ (pcm storage : List ℕ) (w : ℕ) (size : length storage ≡ ring_capacity)
    (in_ring : w < ring_capacity) (fits : length pcm ≤ ring_capacity) where
  first : ℕ
  first = min (ring_capacity - w) (length pcm)

  once : List ℕ
  once = copy_at w (take first pcm) storage

  first_fits : w + length (take first pcm) ≤ length storage
  unfolding first
  first_fits = omega (arith, size, in_ring, length-take first pcm)

  length-once : length once ≡ length storage
  unfolding once
  length-once = length-copy_at w (take first pcm) storage first_fits

  rest_fits : 0 + length (drop first pcm) ≤ length once
  unfolding first
  rest_fits = omega (arith, size, in_ring, fits, length-once, length-drop first pcm)

  pub length-put_in : length (put_in pcm storage w) ≡ ring_capacity
  unfolding put_in first once
  length-put_in =
      if-preserves (λ (st : List ℕ). length st ≡ ring_capacity) (ltb first (length pcm))
        (length-copy_at 0 (drop first pcm) once rest_fits ∙ length-once ∙ size) (length-once ∙ size)

  once_new : (i : ℕ) → i < first → get_or once (w + i) 0 ≡ get_or pcm i 0
  unfolding once first
  once_new i h =
      copy_at_inside w (take first pcm) storage first_fits i 0
        (omega (arith, length-take first pcm))
      ∙ get_or-take first pcm i 0 h

  once_old : (j : ℕ) → (j < w) ⊎ (w + first ≤ j) → get_or once j 0 ≡ get_or storage j 0
  unfolding once first
  once_old j (inl h) = copy_at_before w (take first pcm) storage first_fits j 0 h
  once_old j (inr h) =
      copy_at_after w (take first pcm) storage first_fits j 0 (omega (arith, length-take first pcm))

  put_in_near : (i : ℕ) → i < first → get_or (put_in pcm storage w) (w + i) 0 ≡ get_or pcm i 0
  unfolding put_in first once
  put_in_near i h =
      if-preserves (λ (st : List ℕ). get_or st (w + i) 0 ≡ get_or pcm i 0) (ltb first (length pcm))
        (copy_at_after 0 (drop first pcm) once rest_fits (w + i) 0
            (omega (arith, length-drop first pcm))
          ∙ once_new i h)
        (once_new i h)

  put_in_far :
      (j : ℕ)
      → first + j < length pcm
      → get_or (put_in pcm storage w) j 0 ≡ get_or pcm (first + j) 0
  unfolding put_in first once
  put_in_far j h = rw (lt→ltb first (length pcm) (omega arith)) (
      ap (λ k. get_or (copy_at 0 (drop first pcm) once) k 0) (zero_add j)
      ∙ copy_at_inside 0 (drop first pcm) once rest_fits j 0 (omega (arith, length-drop first pcm))
      ∙ get_or-drop first pcm j 0)

  put_in_rest :
      (j : ℕ)
      → length pcm ≤ first + j
      → (j < w) ⊎ (w + first ≤ j)
      → get_or (put_in pcm storage w) j 0 ≡ get_or storage j 0
  unfolding put_in first once
  put_in_rest j h k =
      if-preserves (λ (st : List ℕ). get_or st j 0 ≡ get_or storage j 0) (ltb first (length pcm))
        (copy_at_after 0 (drop first pcm) once rest_fits j 0 (omega (arith, length-drop first pcm))
          ∙ once_old j k)
        (once_old j k)

  pub put_in_new :
      (i : ℕ)
      → i < length pcm
      → get_or (put_in pcm storage w) ((w + i) % ring_capacity) 0 ≡ get_or pcm i 0
  unfolding first
  put_in_new i h = at_place (lt_or_le i first)
    where
      at_place :
          (i < first) ⊎ (first ≤ i)
          → get_or (put_in pcm storage w) ((w + i) % ring_capacity) 0 ≡ get_or pcm i 0
      at_place (inl near) =
          ap (λ j. get_or (put_in pcm storage w) j 0) (omega arith) ∙ put_in_near i near
      at_place (inr far) =
          ap (λ j. get_or (put_in pcm storage w) j 0) (omega arith)
          ∙ put_in_far (i - first) (omega arith)
          ∙ ap (λ j. get_or pcm j 0) (omega arith)

  pub put_in_old :
      (i : ℕ)
      → length pcm ≤ i
      → i < ring_capacity
      → get_or (put_in pcm storage w) ((w + i) % ring_capacity) 0
        ≡ get_or storage ((w + i) % ring_capacity) 0
  unfolding first
  put_in_old i h k =
      put_in_rest ((w + i) % ring_capacity) (omega arith)
        (elim (lt_or_le ((w + i) % ring_capacity) w) [
          | inl before ↦ inl before
          | inr behind ↦ inr (omega arith)
        ])
