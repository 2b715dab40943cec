-- ===== src/Audio/Drift.antt =====
-- What AudioPlayer::enqueue leaves in the ring.
use screx_v.Prelude.{
  ℕ, ◌+◌, ◌-◌, ◌*◌, ◌/◌, ◌%◌, ◌^◌, ◌<◌, ◌≤◌, ◌≡◌, ◌∙◌, ap, sym, refl, subst, min, true, false,
  Option, none, some, List, [], ◌++◌, drop, ltb, leb, arith, ◌&&◌, if◌then◌else◌, if-preserves,
}
use screx_v.Audio.{
  AudioRingBuffer, AvSync, ring_capacity, target_buffer_bytes, bytes_per_ms, write, discard, clear,
  advance, correct_drift, correct, wrapping_drift, enqueue, expected_daemon_time_now,
  consume_gap_resume,
}
use screx_v.Audio.Ring.{IsRing, contents}
use screx_v.Audio.Queue.{
  latest, clear-IsRing, write-IsRing, contents-write, discard-IsRing, contents-discard,
}

-- A ring that holds the end of a queue, less a whole number of frames of four bytes.
pub record HoldsEnd (q : List ℕ) (r : AudioRingBuffer) : Type 0 where
  pub ring : IsRing r
  pub gone : ℕ
  pub whole : gone % 4 ≡ 0
  pub rest : contents r ≡ drop gone q

module _ (r : AudioRingBuffer) (h : IsRing r) where
  keeps : HoldsEnd (contents r) r
  keeps = record { ring = h; gone = 0; whole = refl; rest = refl }

  discards : (n : ℕ) → HoldsEnd (contents r) (discard (n / 4 * 4) r)
  discards n = record {
    ring = discard-IsRing r h (n / 4 * 4);
    gone = n / 4 * 4;
    whole = omega arith;
    rest = contents-discard r h (n / 4 * 4);
  }

  correct_drift-HoldsEnd : (drift : ℕ) → HoldsEnd (contents r) (correct_drift drift r)
  unfolding correct_drift
  correct_drift-HoldsEnd drift =
      if-preserves (HoldsEnd (contents r)) (leb (2 ^ 31) drift)
        (if-preserves (HoldsEnd (contents r)) (ltb 40 (2 ^ 32 - drift))
          (discards (min ((2 ^ 32 - drift) * bytes_per_ms) r.count)) keeps)
        (if-preserves (HoldsEnd (contents r)) (ltb 60 drift && ltb target_buffer_bytes r.count)
          (discards (r.count - target_buffer_bytes)) keeps)

  correct-HoldsEnd : (ts : ℕ) (expected : Option ℕ) → HoldsEnd (contents r) (correct ts expected r)
  unfolding correct
  correct-HoldsEnd ts none = keeps
  correct-HoldsEnd ts (some e) = correct_drift-HoldsEnd (wrapping_drift ts e)

-- The bytes held before, or none after a gap in the video.
abbrev pub queued : AvSync → AudioRingBuffer → List ℕ
queued s r = if s.gap_resume then [] else contents r

unfoldable flushed : AvSync → AudioRingBuffer → AudioRingBuffer
unfolding clear
flushed s r = if s.gap_resume then clear r else r

module _ (s : AvSync) (r : AudioRingBuffer) (h : IsRing r) where
  flushed-IsRing : IsRing (flushed s r)
  unfolding flushed
  flushed-IsRing = if-preserves IsRing s.gap_resume (clear-IsRing r h) h

  contents-flushed : contents (flushed s r) ≡ queued s r
  unfolding flushed clear
  contents-flushed = by_gap s.gap_resume
    where
      by_gap : (gap : _) → contents (if gap then clear r else r) ≡ (if gap then [] else contents r)
      by_gap true = refl
      by_gap false = refl

module _ (pcm : List ℕ) (ts now : ℕ) (s : AvSync) (r : AudioRingBuffer) (h : IsRing r) where
  contents-written : contents (write pcm (flushed s r)) ≡ latest (queued s r ++ pcm)
  contents-written =
      contents-write (flushed s r) (flushed-IsRing s r h) pcm
      ∙ ap (λ q. latest (q ++ pcm)) (contents-flushed s r h)

  -- An enqueue on a well-formed ring, whatever the clocks say, leaves the end of the queue of the bytes
  -- held before (none of them when the video just resumed after a gap) and the new ones, capped at
  -- 96000 bytes: what the drift correction gives up is a whole number of four-byte frames at the old
  -- end. The ring stays well-formed, and only the gap flag of the clock state changes.
  enqueue-HoldsEnd :
      HoldsEnd (latest (queued s r ++ pcm)) (enqueue pcm ts now s r).1
      × ((enqueue pcm ts now s r).0 ≡ (consume_gap_resume s).0)
  unfolding enqueue flushed
  enqueue-HoldsEnd = (
    subst (λ q. HoldsEnd q (enqueue pcm ts now s r).1) contents-written
        (correct-HoldsEnd (write pcm (flushed s r))
          (write-IsRing (flushed s r) (flushed-IsRing s r h) pcm) ts
          (expected_daemon_time_now now (consume_gap_resume s).0)),
    refl,
  )

correct_drift_ahead :
    (d : ℕ) (r : AudioRingBuffer) → 60 < d → d < 2 ^ 31 → (correct_drift d r).count ≤ 5763
unfolding correct_drift discard advance
correct_drift_ahead d r h k = ground arith

correct_drift_behind :
    (d : ℕ) (r : AudioRingBuffer)
    → r.count ≤ ring_capacity
    → 2 ^ 31 ≤ d
    → d + 500 ≤ 2 ^ 32
    → (correct_drift d r).count ≤ 3
unfolding correct_drift discard advance
correct_drift_behind d r f h k = ground arith

module _ (pcm : List ℕ) (ts now e : ℕ) (s : AvSync) (r : AudioRingBuffer)
    (expected : expected_daemon_time_now now s ≡ some e) where
  -- Audio stamped more than 60 ms, and less than 2 ^ 31 ms, after the time that the last video frame
  -- lets expect: once enqueued, at most 5763 bytes (the 30 ms target and less than one frame) are left
  -- in the ring.
  enqueue_trims :
      60 < wrapping_drift ts e
      → wrapping_drift ts e < 2 ^ 31
      → (enqueue pcm ts now s r).1.count ≤ 5763
  unfolding enqueue correct flushed expected_daemon_time_now
  enqueue_trims h k =
      subst (λ o. (correct ts o (write pcm (flushed s r))).count ≤ 5763) (sym expected)
        (correct_drift_ahead (wrapping_drift ts e) (write pcm (flushed s r)) h k)

  -- Audio stamped 500 ms or more (up to 2 ^ 31 ms) before the time that the last video frame lets
  -- expect, on a well-formed ring: once enqueued, less than one frame of four bytes is left.
  enqueue_drops :
      IsRing r
      → 2 ^ 31 ≤ wrapping_drift ts e
      → wrapping_drift ts e + 500 ≤ 2 ^ 32
      → (enqueue pcm ts now s r).1.count ≤ 3
  unfolding enqueue correct flushed expected_daemon_time_now
  enqueue_drops g h k =
      subst (λ o. (correct ts o (write pcm (flushed s r))).count ≤ 3) (sym expected)
        (correct_drift_behind (wrapping_drift ts e) (write pcm (flushed s r))
          (write-IsRing (flushed s r) (flushed-IsRing s r g) pcm).fits h k)
