-- ===== src/Camera/Wire.antt =====
-- The packets of a camera frame as the daemon reads them, and the frames a stream of them gives.
use screx_v.Prelude.{
  ℕ, ◌+◌, ◌-◌, ◌/◌, ◌%◌, ◌^◌, ◌≤◌, ◌≡◌, ◌∙◌, ap, sym, refl, zero, suc, Option, none, some, List, [],
  ◌∷◌, length, drop, arith, get_elem?, chunks, chunks_within, length-drop, All, concat-chunks, map,
}
use screx_v.Bytes.{IsU16, IsU32, as_u16, from_be16-be16, from_be32-be32}
use screx_v.Camera.{
  CamReassembler, new, feed_fields, feed, feed_all, emit, chunk_size, chunk_packet, packets_from,
  send_camera_frame,
}
use screx_v.Camera.Frame.{Tracks, IsOf, feed_fields_sound}

-- The number of chunks the client announces is the number it sends.
length-chunks_within :
    (fuel : ℕ) (xs : List ℕ)
    → length xs ≤ fuel
    → length (chunks_within fuel chunk_size xs) ≡ (length xs + chunk_size - 1) / chunk_size
unfolding chunks_within
length-chunks_within fuel [] h = omega arith
length-chunks_within zero (x ∷ xs) h = absurd (omega arith)
length-chunks_within (suc fuel) (x ∷ xs) h = omega (
  arith,
  length-chunks_within fuel (drop chunk_size (x ∷ xs))
      (omega (arith, length-drop chunk_size (x ∷ xs))),
  length-drop chunk_size (x ∷ xs),
)

pub length-chunks :
    (xs : List ℕ) → (length xs + chunk_size - 1) / chunk_size ≡ length (chunks chunk_size xs)
unfolding chunks
length-chunks xs = sym (length-chunks_within (length xs) xs (omega arith))

-- A packet without its magic, as the daemon's server hands it on.
abbrev pub body : List ℕ → List ℕ
body p = drop 3 p

pub feed-chunk_packet :
    (id total i : ℕ) (c : List ℕ) (r : CamReassembler)
    → IsU32 id
    → IsU16 total
    → IsU16 i
    → feed (body (chunk_packet id total i c)) r ≡ feed_fields id i total c r
unfolding feed chunk_packet
feed-chunk_packet id total i c r hid ht hi =
    rw
      (
        from_be32-be32 id ∙ id_eq,
        from_be16-be16 (as_u16 i) ∙ i_eq,
        from_be16-be16 (as_u16 total) ∙ total_eq,
      )
      refl
  where
    id_eq : id % 2 ^ 32 ≡ id
    id_eq = omega arith

    i_eq : as_u16 (as_u16 i) ≡ i
    i_eq = omega arith

    total_eq : as_u16 (as_u16 total) ≡ total
    total_eq = omega arith

-- A packet the client sends for one of its frames, as numbered by `frames`.
abbrev pub IsGenuine : (ℕ → List ℕ) → List ℕ → Type 0
IsGenuine frames p =
    (id : ℕ) × (i : ℕ) × (c : List ℕ) × IsU32 id
    × IsU16 i
    × IsU16 (length (chunks chunk_size (frames id)))
    × (get_elem? (chunks chunk_size (frames id)) i ≡ some c)
    × (p ≡ chunk_packet id (length (chunks chunk_size (frames id))) i c)

packets_from-IsGenuine :
    (frames : ℕ → List ℕ) (id i : ℕ) (cs : List (List ℕ))
    → IsU32 id
    → IsU16 (length (chunks chunk_size (frames id)))
    → i + length cs ≡ length (chunks chunk_size (frames id))
    → ((j : ℕ) → get_elem? cs j ≡ get_elem? (chunks chunk_size (frames id)) (i + j))
    → All (IsGenuine frames) (packets_from id (length (chunks chunk_size (frames id))) i cs)
unfolding packets_from
packets_from-IsGenuine frames id i [] hid ht n at = tt
packets_from-IsGenuine frames id i (c ∷ cs) hid ht n at = (
  (
    id,
    i,
    c,
    hid,
    omega arith,
    ht,
    (ap (get_elem? (chunks chunk_size (frames id))) (omega arith) ∙ sym (at 0)),
    refl,
  ),
  packets_from-IsGenuine frames id (i + 1) cs hid ht (omega arith)
      (λ j. (at (suc j) ∙ ap (get_elem? (chunks chunk_size (frames id))) (omega arith))),
)

-- All that `send_camera_frame` sends of a frame is genuine.
pub send_camera_frame-IsGenuine :
    (frames : ℕ → List ℕ) (id : ℕ)
    → IsU32 id
    → IsU16 (length (chunks chunk_size (frames id)))
    → All (IsGenuine frames) (send_camera_frame id (frames id))
unfolding send_camera_frame
send_camera_frame-IsGenuine frames id hid ht = rw (length-chunks (frames id)) (
    packets_from-IsGenuine frames id 0 (chunks chunk_size (frames id)) hid ht (omega arith)
      (λ j. ap (get_elem? (chunks chunk_size (frames id))) (omega arith)))

-- A frame the client sent.
abbrev pub IsSentFrame : (ℕ → List ℕ) → List ℕ → Type 0
IsSentFrame frames jpeg = (id : ℕ) × (jpeg ≡ frames id)

emit-IsSentFrame :
    (frames : ℕ → List ℕ) (id : ℕ) (o : Option (List ℕ)) (later : List (List ℕ))
    → IsOf (chunks chunk_size (frames id)) o
    → All (IsSentFrame frames) later
    → All (IsSentFrame frames) (emit o later)
emit-IsSentFrame frames id none later h hs = hs
emit-IsSentFrame frames id (some jpeg) later h hs =
    ((id, h ∙ concat-chunks chunk_size (frames id) (omega arith)), hs)

feed_all_sound :
    (frames : ℕ → List ℕ) (ps : List (List ℕ)) (r : CamReassembler)
    → Tracks (λ id. chunks chunk_size (frames id)) r
    → All (IsGenuine frames) ps
    → All (IsSentFrame frames) (feed_all (map body ps) r)
unfolding feed_all
feed_all_sound frames [] r h g = tt
feed_all_sound frames (p ∷ ps) r h ((id, i, c, hid, hi, ht, e, eq), gs) =
    rw (ap (λ q. feed (body q) r) eq ∙ feed-chunk_packet id _ i c r hid ht hi)
      (emit-IsSentFrame frames id _ _ step.1 (feed_all_sound frames ps _ step.0 gs))
  where
    step :
        Tracks
          (λ k. chunks chunk_size (frames k))
          (feed_fields id i (length (chunks chunk_size (frames id))) c r).0
        × IsOf
            (chunks chunk_size (frames id))
            (feed_fields id i (length (chunks chunk_size (frames id))) c r).1
    step = feed_fields_sound (λ k. chunks chunk_size (frames k)) r id i c h e

-- Whatever camera packets of the client arrive, of any of its frames of fewer than 65536 chunks, in
-- any order, any of them missing or more than once, every frame the daemon puts together is one the
-- client sent whole.
pub feed_all-IsSentFrame :
    (frames : ℕ → List ℕ) (ps : List (List ℕ))
    → All (IsGenuine frames) ps
    → All (IsSentFrame frames) (feed_all (map body ps) new)
unfolding new
feed_all-IsSentFrame frames ps g = feed_all_sound frames ps new (refl, tt) g
