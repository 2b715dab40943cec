-- ===== src/Audio/Refine.antt =====
-- Sequences of operations of AudioRingBuffer, on the ring and on a bounded queue.
use screx_v.Prelude.{ℕ, ◌≡◌, ◌∙◌, ap, ap₂, sym, refl, List, [], ◌∷◌, ◌++◌, length, take, drop, min}
use screx_v.Audio.{AudioRingBuffer, write, read, discard, clear, new}
use screx_v.Audio.Ring.{IsRing, contents}
use screx_v.Audio.Queue.{
  latest, new-IsRing, clear-IsRing, write-IsRing, contents-write, discard-IsRing, contents-discard,
  read-IsRing, contents-read, read_bytes, length-contents,
}

pub data Op : Type 0 where
  writes : List ℕ → Op
  reads : List ℕ → Op
  discards : ℕ → Op
  clears : Op

-- The ring after an operation, and the output buffer of a read.
unfoldable pub ring_step : Op → AudioRingBuffer → AudioRingBuffer × List ℕ
ring_step (writes pcm) r = (write pcm r, [])
ring_step (reads out) r = ((read out r).0, (read out r).1.0)
ring_step (discards n) r = (discard n r, [])
ring_step clears r = (clear r, [])

-- The same on a queue of the last bytes written.
unfoldable pub queue_step : Op → List ℕ → List ℕ × List ℕ
queue_step (writes pcm) q = (latest (q ++ pcm), [])
queue_step (reads out) q =
    (drop (length out) q, take (length out) q ++ drop (min (length out) (length q)) out)
queue_step (discards n) q = (drop n q, [])
queue_step clears q = ([], [])

-- The output buffers of a sequence of operations, and the state after it.
unfoldable pub run {ℓ} : {S : Type ℓ} → (Op → S → S × List ℕ) → List Op → S → S × List (List ℕ)
run step [] s = (s, [])
run step (op ∷ ops) s =
    let next = step op s in let rest = run step ops next.0 in (rest.0, next.1 ∷ rest.1)

step-IsRing : (op : Op) (r : AudioRingBuffer) → IsRing r → IsRing (ring_step op r).0
unfolding ring_step
step-IsRing (writes pcm) r h = write-IsRing r h pcm
step-IsRing (reads out) r h = read-IsRing r h out
step-IsRing (discards n) r h = discard-IsRing r h n
step-IsRing clears r h = clear-IsRing r h

step_refines :
    (op : Op) (r : AudioRingBuffer)
    → IsRing r
    → (contents (ring_step op r).0 ≡ (queue_step op (contents r)).0)
      × ((ring_step op r).1 ≡ (queue_step op (contents r)).1)
unfolding ring_step queue_step clear
step_refines (writes pcm) r h = (contents-write r h pcm, refl)
step_refines (reads out) r h = (
  contents-read r h out,
  read_bytes r h out
      ∙ ap (λ k. take (length out) (contents r) ++ drop (min (length out) k) out)
          (sym (length-contents r h)),
)
step_refines (discards n) r h = (contents-discard r h n, refl)
step_refines clears r h = (refl, refl)

-- After any sequence of writes, reads, discards and clears on a well-formed ring, the storage still
-- has 96000 bytes, the read position is inside it, at most 96000 bytes are held, and the write
-- position is where the bytes held end.
run-IsRing : (ops : List Op) (r : AudioRingBuffer) → IsRing r → IsRing (run ring_step ops r).0
unfolding run
run-IsRing [] r h = h
run-IsRing (op ∷ ops) r h = run-IsRing ops (ring_step op r).0 (step-IsRing op r h)

run_refines_from :
    (ops : List Op) (r : AudioRingBuffer) (q : List ℕ)
    → IsRing r
    → contents r ≡ q
    → (contents (run ring_step ops r).0 ≡ (run queue_step ops q).0)
      × ((run ring_step ops r).1 ≡ (run queue_step ops q).1)
unfolding run
run_refines_from [] r q h e = (e, refl)
run_refines_from (op ∷ ops) r q h e =
    let rest =
      run_refines_from ops (ring_step op r).0 (queue_step op q).0 (step-IsRing op r h)
        ((step_refines op r h).0 ∙ ap (λ p. (queue_step op p).0) e) in
    (rest.0, ap₂ ◌∷◌ ((step_refines op r h).1 ∙ ap (λ p. (queue_step op p).1) e) rest.1)

-- From a new ring, any sequence of writes, reads, discards and clears gives the output buffers that
-- a queue gives which keeps the last 96000 bytes written, whatever wraps around in the storage; and
-- the ring then holds what that queue holds, in the same order.
pub run_refines :
    (ops : List Op)
    → (contents (run ring_step ops new).0 ≡ (run queue_step ops []).0)
      × ((run ring_step ops new).1 ≡ (run queue_step ops []).1)
unfolding new
run_refines ops = run_refines_from ops new [] new-IsRing refl
