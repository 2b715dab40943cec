-- ===== src/Camera/Tests.antt =====
-- Runs of the theorems on camera frames.
use screx_v.Prelude.{
  ℕ, ◌<◌, ◌≡◌, refl, zero, suc, true, arith, List, [], ◌∷◌, map, length, All, chunks, chunks_within,
  replicate,
}
use screx_v.Camera.{CamReassembler, new, feed_all, chunk_packet, chunk_size}
use screx_v.Camera.Wire.{body, IsGenuine, IsSentFrame, feed_all-IsSentFrame}
use screx_v.Camera.Steps.{packet_of, contains}
use screx_v.Camera.Complete.{feed_all-packet_of}

abbrev jpeg : List ℕ
jpeg = replicate 1301 7

-- A daemon in the middle of another frame.
abbrev other : CamReassembler
other = record { current_frame_id = 4; total_chunks = 0; received = []; received_count = 0 }

two_chunks : length (chunks chunk_size jpeg) ≡ 2
unfolding chunks chunks_within
two_chunks = refl

-- The second chunk comes first, and again.
all_chunks : (j : ℕ) → j < 2 → contains j (1 ∷ 1 ∷ 0 ∷ []) ≡ true
all_chunks zero h = refl
all_chunks (suc zero) h = refl
all_chunks (suc (suc j)) h = absurd (omega arith)

feed_all-packet_of_example :
    feed_all (map body (map (packet_of 5 (chunks chunk_size jpeg)) (1 ∷ 1 ∷ 0 ∷ []))) other
    ≡ jpeg ∷ []
feed_all-packet_of_example =
    feed_all-packet_of 5 jpeg (1 ∷ 1 ∷ 0 ∷ []) other (omega arith) (rw two_chunks (omega arith))
      (rw two_chunks (omega arith)) (omega arith)
      (rw two_chunks (omega arith, (omega arith, (omega arith, tt)))) (rw two_chunks all_chunks)

-- A client whose frames are their numbers.
abbrev frames : ℕ → List ℕ
frames id = id ∷ []

one-IsGenuine : (id : ℕ) → id < 100 → IsGenuine frames (chunk_packet id 1 0 (id ∷ []))
unfolding chunks chunks_within
one-IsGenuine id h = (id, 0, id ∷ [], omega arith, omega arith, omega arith, refl, refl)

feed_all-IsSentFrame_example :
    All
      (IsSentFrame frames)
      (feed_all (map body (chunk_packet 9 1 0 (9 ∷ []) ∷ chunk_packet 3 1 0 (3 ∷ []) ∷ [])) new)
feed_all-IsSentFrame_example =
    feed_all-IsSentFrame frames (chunk_packet 9 1 0 (9 ∷ []) ∷ chunk_packet 3 1 0 (3 ∷ []) ∷ [])
      (one-IsGenuine 9 (omega arith), (one-IsGenuine 3 (omega arith), tt))
