-- ===== src/Audio/Queue.antt =====
-- Each operation of AudioRingBuffer as one on the queue of the bytes it holds.
use screx_v.Prelude.{
  drop-min, take-min, ℕ, ◌+◌, ◌-◌, ◌<◌, ◌≤◌, ◌≡◌, ◌∙◌, ap, ap₂, sym, refl, min, inl, inr, true,
  false, List, [], ◌∷◌, ◌++◌, length, take, drop, get_or, ltb, arith, Bool-cases, lt_or_le, lt→ltb,
  not_ltb, ◌==◌, ◌⊎◌, length-append, length-drop, drop-append_left, drop-append_right, drop_all,
  tabulate-ext, tabulate_add, tabulate-get_or, length-tabulate, if-preserves, length-replicate,
}
use mathlib.Core.List.{append-nil}
use screx_v.Audio.{
  AudioRingBuffer, ring_capacity, put_in, append, advance, make_room, tail_of, write, read, discard,
  clear, new,
}
use screx_v.Audio.Copy.{copy_out_lem}
use screx_v.Audio.Ring.{
  IsRing, slot, contents, drop-tabulate, length-put_in, put_in_new, put_in_old,
}

-- The last bytes of a queue, as many as the ring holds.
abbrev pub latest : List ℕ → List ℕ
latest q = drop (length q - ring_capacity) q

pub new-IsRing : IsRing new
unfolding new
new-IsRing = record {
  size = length-replicate {A = ℕ} ring_capacity 0;
  reads = omega arith;
  fits = omega arith;
  writes = refl;
}

pub clear-IsRing : (r : AudioRingBuffer) → IsRing r → IsRing (clear r)
unfolding clear
clear-IsRing r h = record { size = h.size; reads = omega arith; fits = omega arith; writes = refl }

module _ (n : ℕ) (r : AudioRingBuffer) (h : IsRing r) (fits : n ≤ r.count) where
  pub advance-IsRing : IsRing (advance n r)
  unfolding advance
  advance-IsRing = record {
    size = h.size;
    reads = omega arith;
    fits = omega (arith, h.fits);
    writes = omega (arith, h.writes, fits);
  }

  pub contents-advance : contents (advance n r) ≡ drop n (contents r)
  unfolding advance
  contents-advance =
      tabulate-ext (r.count - n) (slot (advance n r)) (λ i. slot r (n + i))
        (λ i lt. ap (λ j. get_or r.storage j 0) (omega arith))
      ∙ sym (drop-tabulate n r.count (slot r) fits)

module _ (pcm : List ℕ) (r : AudioRingBuffer) (h : IsRing r)
    (room : r.count + length pcm ≤ ring_capacity) where
  in_ring : r.write_pos < ring_capacity
  in_ring = omega (arith, h.writes)

  pub append-IsRing : IsRing (append pcm r)
  unfolding append
  append-IsRing = record {
    size = length-put_in pcm r.storage r.write_pos h.size in_ring (omega (arith, room));
    reads = h.reads;
    fits = room;
    writes = omega (arith, h.writes);
  }

  kept : (i : ℕ) → i < r.count → slot (append pcm r) i ≡ slot r i
  unfolding append
  kept i lt =
      ap (λ j. get_or (put_in pcm r.storage r.write_pos) j 0)
        (omega (arith, h.writes, h.reads, room))
      ∙ put_in_old pcm r.storage r.write_pos h.size in_ring (omega (arith, room))
          (ring_capacity - r.count + i) (omega (arith, room)) (omega (arith, room))
      ∙ ap (λ j. get_or r.storage j 0) (omega (arith, h.writes, h.reads, room))

  added : (i : ℕ) → i < length pcm → slot (append pcm r) (r.count + i) ≡ get_or pcm i 0
  unfolding append
  added i lt =
      ap (λ j. get_or (put_in pcm r.storage r.write_pos) j 0) (omega (arith, h.writes))
      ∙ put_in_new pcm r.storage r.write_pos h.size in_ring (omega (arith, room)) i lt

  pub contents-append : contents (append pcm r) ≡ contents r ++ pcm
  unfolding append
  contents-append =
      tabulate_add r.count (length pcm) (slot (append pcm r))
      ∙ ap₂ (λ (x y : List ℕ). x ++ y) (tabulate-ext r.count (slot (append pcm r)) (slot r) kept)
          (tabulate-ext (length pcm) (λ i. slot (append pcm r) (r.count + i)) (λ i. get_or pcm i 0)
              added
            ∙ tabulate-get_or pcm 0)

tail_of_lem : (pcm : List ℕ) → tail_of pcm ≡ drop (length pcm - ring_capacity) pcm
unfolding tail_of
tail_of_lem pcm = by_length (lt_or_le ring_capacity (length pcm))
  where
    by_length :
        (ring_capacity < length pcm) ⊎ (length pcm ≤ ring_capacity)
        → tail_of pcm ≡ drop (length pcm - ring_capacity) pcm
    by_length (inl long) = rw (lt→ltb ring_capacity (length pcm) long) refl
    by_length (inr fits) = rw (not_ltb fits) (ap (λ k. drop k pcm) {x = 0} (omega arith))

module _ (len : ℕ) (r : AudioRingBuffer) (h : IsRing r) (small : len ≤ ring_capacity) where
  make_room-IsRing : IsRing (make_room len r)
  unfolding make_room advance
  make_room-IsRing =
      if-preserves IsRing (ltb ring_capacity (r.count + len))
        (advance-IsRing (r.count + len - ring_capacity) r h (omega (arith, h.fits))) h

  make_room_fits : (make_room len r).count + len ≤ ring_capacity
  unfolding make_room
  make_room_fits = by_room (lt_or_le ring_capacity (r.count + len))
    where
      by_room :
          (ring_capacity < r.count + len) ⊎ (r.count + len ≤ ring_capacity)
          → (make_room len r).count + len ≤ ring_capacity
      by_room (inl long) =
          rw (lt→ltb ring_capacity (r.count + len) long) (omega (arith, h.fits, small))
      by_room (inr fits) = rw (not_ltb fits) fits

  contents-make_room :
      contents (make_room len r) ≡ drop (r.count + len - ring_capacity) (contents r)
  unfolding make_room advance
  contents-make_room = by_room (lt_or_le ring_capacity (r.count + len))
    where
      by_room :
          (ring_capacity < r.count + len) ⊎ (r.count + len ≤ ring_capacity)
          → contents (make_room len r) ≡ drop (r.count + len - ring_capacity) (contents r)
      by_room (inl long) =
          rw (lt→ltb ring_capacity (r.count + len) long)
            (contents-advance (r.count + len - ring_capacity) r h (omega (arith, h.fits, small)))
      by_room (inr fits) = rw (not_ltb fits) (ap (λ k. drop k (contents r)) {x = 0} (omega arith))

tail_of_fits : (pcm : List ℕ) → length (tail_of pcm) ≤ ring_capacity
tail_of_fits pcm =
    rw (tail_of_lem pcm) (omega (arith, length-drop (length pcm - ring_capacity) pcm))

-- What is kept of a queue and of new bytes, each shortened by itself.
latest_parts :
    (q pcm : List ℕ)
    → length q ≤ ring_capacity
    → drop (length q + length (tail_of pcm) - ring_capacity) q ++ tail_of pcm ≡ latest (q ++ pcm)
latest_parts q pcm h = by_length (lt_or_le ring_capacity (length pcm))
  where
    k : ℕ
    k = length (q ++ pcm) - ring_capacity

    cut : length (tail_of pcm) ≡ length pcm - (length pcm - ring_capacity)
    cut = ap length (tail_of_lem pcm) ∙ length-drop (length pcm - ring_capacity) pcm

    by_length :
        (ring_capacity < length pcm) ⊎ (length pcm ≤ ring_capacity)
        → drop (length q + length (tail_of pcm) - ring_capacity) q ++ tail_of pcm
          ≡ latest (q ++ pcm)
    by_length (inl long) =
        ap₂ (λ (a b : List ℕ). a ++ b)
          (drop_all (length q + length (tail_of pcm) - ring_capacity) q (omega (arith, cut)))
          (tail_of_lem pcm ∙ ap (λ m. drop m pcm) (omega (arith, length-append q pcm)))
        ∙ sym (drop-append_right k q pcm (omega (arith, length-append q pcm)))
    by_length (inr fits) =
        ap₂ (λ m (b : List ℕ). drop m q ++ b) (omega (arith, cut, length-append q pcm))
          (tail_of_lem pcm ∙ ap (λ m. drop m pcm) {y = 0} (omega arith))
        ∙ sym (drop-append_left k q pcm (omega (arith, length-append q pcm)))

module _ (r : AudioRingBuffer) (h : IsRing r) where
  pub length-contents : length (contents r) ≡ r.count
  length-contents = length-tabulate r.count (slot r)

  pub write-IsRing : (pcm : List ℕ) → IsRing (write pcm r)
  unfolding write
  write-IsRing [] = h
  write-IsRing (b ∷ bs) =
      append-IsRing (tail_of (b ∷ bs)) (make_room (length (tail_of (b ∷ bs))) r)
        (make_room-IsRing (length (tail_of (b ∷ bs))) r h (tail_of_fits (b ∷ bs)))
        (make_room_fits (length (tail_of (b ∷ bs))) r h (tail_of_fits (b ∷ bs)))

  pub contents-write : (pcm : List ℕ) → contents (write pcm r) ≡ latest (contents r ++ pcm)
  unfolding write
  contents-write [] = sym (
      ap latest (append-nil (contents r))
      ∙ ap (λ k. drop k (contents r)) {y = 0} (omega (arith, length-contents, h.fits)))
  contents-write (b ∷ bs) =
      contents-append (tail_of (b ∷ bs)) (make_room (length (tail_of (b ∷ bs))) r)
        (make_room-IsRing (length (tail_of (b ∷ bs))) r h (tail_of_fits (b ∷ bs)))
        (make_room_fits (length (tail_of (b ∷ bs))) r h (tail_of_fits (b ∷ bs)))
      ∙ ap (λ (q : List ℕ). q ++ tail_of (b ∷ bs))
          (contents-make_room (length (tail_of (b ∷ bs))) r h (tail_of_fits (b ∷ bs))
            ∙ ap (λ k. drop (k + length (tail_of (b ∷ bs)) - ring_capacity) (contents r))
                (sym length-contents))
      ∙ latest_parts (contents r) (b ∷ bs) (omega (arith, length-contents, h.fits))

  pub discard-IsRing : (n : ℕ) → IsRing (discard n r)
  unfolding discard
  discard-IsRing n = advance-IsRing (min n r.count) r h (omega arith)

  pub contents-discard : (n : ℕ) → contents (discard n r) ≡ drop n (contents r)
  unfolding discard
  contents-discard n =
      contents-advance (min n r.count) r h (omega arith)
      ∙ ap (λ k. drop (min n k) (contents r)) (sym length-contents)
      ∙ drop-min n (contents r)

  pub read-IsRing : (out : List ℕ) → IsRing (read out r).0
  unfolding read
  read-IsRing out =
      if-preserves (λ (p : AudioRingBuffer × (List ℕ × ℕ)). IsRing p.0)
        (min (length out) r.count == 0) h
        (advance-IsRing (min (length out) r.count) r h (omega arith))

  dropped :
      (out : List ℕ) → drop (min (length out) r.count) (contents r) ≡ drop (length out) (contents r)
  dropped out =
      ap (λ k. drop (min (length out) k) (contents r)) (sym length-contents)
      ∙ drop-min (length out) (contents r)

  taken :
      (out : List ℕ) → take (min (length out) r.count) (contents r) ≡ take (length out) (contents r)
  taken out =
      ap (λ k. take (min (length out) k) (contents r)) (sym length-contents)
      ∙ take-min (length out) (contents r)

  pub contents-read : (out : List ℕ) → contents (read out r).0 ≡ drop (length out) (contents r)
  unfolding read
  contents-read out = by_count (Bool-cases (min (length out) r.count == 0))
    where
      by_count :
          ((min (length out) r.count == 0) ≡ true) ⊎ ((min (length out) r.count == 0) ≡ false)
          → contents (read out r).0 ≡ drop (length out) (contents r)
      by_count (inl none_left) =
          rw none_left
            (ap (λ k. drop k (contents r)) {x = 0} (ground (arith, none_left)) ∙ dropped out)
      by_count (inr some_left) =
          rw some_left (contents-advance (min (length out) r.count) r h (omega arith) ∙ dropped out)

  pub read_bytes :
      (out : List ℕ)
      → (read out r).1.0 ≡ take (length out) (contents r) ++ drop (min (length out) r.count) out
  unfolding read
  read_bytes out = by_count (Bool-cases (min (length out) r.count == 0))
    where
      by_count :
          ((min (length out) r.count == 0) ≡ true) ⊎ ((min (length out) r.count == 0) ≡ false)
          → (read out r).1.0 ≡ take (length out) (contents r) ++ drop (min (length out) r.count) out
      by_count (inl none_left) = rw none_left (
          ap (λ k. take k (contents r) ++ drop k out) {x = 0} (ground (arith, none_left))
          ∙ ap (λ (a : List ℕ). a ++ drop (min (length out) r.count) out) (taken out))
      by_count (inr some_left) = rw some_left (
          copy_out_lem (min (length out) r.count) r h (omega arith) out
          ∙ ap (λ (a : List ℕ). a ++ drop (min (length out) r.count) out) (taken out))
