-- ===== src/Video/Arrival.antt =====
-- From UdpSender::send_frame to the decoder of the client.
use screx_v.Prelude.{
  ℕ, ◌+◌, ◌-◌, ◌*◌, ◌<◌, ◌≤◌, ◌≡◌, ◌∙◌, ap, sym, subst, refl, Bool, true, false, ◌||◌, Option, none,
  some, List, [], ◌∷◌, ◌++◌, length, get_or, arith, replicate, All, inl, inr, ◌⊎◌, if◌then◌else◌,
  ◌==◌, if-preserves, map, get_or-tabulate, tabulate, length-tabulate, lt_or_le,
}
use screx_v.Crypto.{Cipher, IsAead}
use screx_v.Video.{
  ReedSolomon, Frame, chunk_payload, data_count_of, actual_payload_len, frame_packets, packets_of,
  frame_packet, actual_parity, all_shards,
}
use screx_v.Video.Shards.{count_present, count_present-replicate}
use screx_v.Video.Receiver.{
  Receiver, Event, decodes, lookup, is_stale, receive_video, receive, run, step, Input, arrives,
  batch_ends, after_batch,
}
use screx_v.Video.Pending.{AllPending}
use screx_v.Video.Pruning.{absent-Young}
use screx_v.Video.Timely.{Moment, packet, batch_end, marked, IsTimely, receive_moments, fills}
use screx_v.Video.Code.{IsCode}
use screx_v.Video.Frames.{dc_bounds}
use screx_v.Video.Wire.{IsSendable, header_of, receive-frame_packet}
use screx_v.Video.Delivery.{decoded}
use screx_v.Video.Sent.{pad, Sent, with_parity, without_parity}

-- A moment of the frame as an input of the media loop, for the packets of the frame.
unfoldable pub input : List (List ℕ) → Moment → Input
input packets (packet i now) = arrives (get_or packets i []) now
input packets (batch_end now) = batch_ends now

module _ (rs : ReedSolomon) (c : Cipher) (aead : IsAead c) (id percent : ℕ) (frame : Frame) (pc : ℕ)
    (parity : pc ≡ actual_parity (data_count_of frame.annex_b) percent)
    (fits : IsSendable id pc frame)
    (code : 0 < pc → IsCode rs (data_count_of frame.annex_b) pc) where
  abbrev n : ℕ
  n = data_count_of frame.annex_b

  abbrev flags : ℕ
  flags = if frame.is_idr then 0x01 else 0

  sent : Sent rs frame.annex_b id pc frame.codec_id flags frame.timestamp_ms
  sent = elim (lt_or_le 0 pc) [
    | inl some_parity ↦
        with_parity rs frame.annex_b id pc frame.codec_id flags frame.timestamp_ms fits.some_data
          some_parity (code some_parity)
    | inr no_parity ↦
        without_parity rs frame.annex_b id pc frame.codec_id flags frame.timestamp_ms fits.some_data
          (omega arith)
  ]

  pub packets : List (List ℕ)
  packets = tabulate (n + pc) (frame_packet (some c) id frame n pc sent.shards)

  pub frame_packets_lem : frame_packets rs (some c) id percent frame ≡ some packets
  unfolding frame_packets packets_of packets
  frame_packets_lem =
      ap (λ k. packets_of (some c) id frame n k (all_shards rs n k frame.annex_b)) (sym parity)
      ∙ ap (packets_of (some c) id frame n pc) sent.coded

  receives :
      (i now : ℕ) (r : Receiver)
      → i < n + pc
      → receive rs c (get_or packets i []) now r
        ≡ receive_video rs
            (header_of c aead id pc frame fits sent.shards i)
            (get_or sent.shards i [])
            now
            r
  unfolding packets
  receives i now r lt =
      ap (λ p. receive rs c p now r)
        (get_or-tabulate (n + pc) i (frame_packet (some c) id frame n pc sent.shards) [] lt)
      ∙ receive-frame_packet c aead id pc frame fits sent.shards i lt rs now r

  module _ (start : ℕ) where
    abbrev moments : List Moment → Receiver → List Event
    moments =
        receive_moments rs id n pc frame.codec_id flags frame.timestamp_ms sent.shards
          (actual_payload_len frame.annex_b n) sent.sized sent.counted
          (λ ps. frame.annex_b ++ pad frame.annex_b pc ps) sent.gives start

    runs :
        (ms : List Moment) (r : Receiver)
        → All (IsTimely (n + pc) start) ms
        → (run rs c (map (input packets) ms) r).1 ≡ moments ms r
    unfolding run step input receive_moments IsTimely
    runs [] r b = refl
    runs (batch_end now ∷ ms) r (soon, b) =
        ap (λ es. (after_batch rs now r).1 ++ es) (runs ms (after_batch rs now r).0 b)
    runs (packet i now ∷ ms) r ((lt, late), b) = rw (receives i now r lt) (
        ap
          (λ es.
            (receive_video rs (header_of c aead id pc frame fits sent.shards i)
              (get_or sent.shards i []) now r).1
            ++ es)
          (runs ms
            (receive_video rs (header_of c aead id pc frame fits sent.shards i)
              (get_or sent.shards i []) now r).0
            b))

  -- Whether the result of the client is the frame, or the frame with zeros behind it.
  abbrev pub Delivers : List Event → Type 0
  Delivers es =
      (zeros : List ℕ) × ((zeros ≡ [])
        ⊎ ((0 < pc) × (zeros ≡ replicate (n * chunk_payload - length frame.annex_b) 0)))
      × (decoded es
          ≡ decodes (frame.annex_b ++ zeros) id frame.codec_id flags frame.timestamp_ms ∷ [])

  pad_cases :
      (ps : List Bool)
      → (pad frame.annex_b pc ps ≡ [])
        ⊎ ((0 < pc)
            × (pad frame.annex_b pc ps ≡ replicate (n * chunk_payload - length frame.annex_b) 0))
  pad_cases ps = elim (lt_or_le 0 pc) [
    | inl some_parity ↦
        if-preserves
          (λ (zs : List ℕ).
            (zs ≡ []) ⊎ ((0 < pc) × (zs ≡ replicate (n * chunk_payload - length frame.annex_b) 0)))
          ((pc == 0) || get_or ps (n - 1) false) (inl refl) (inr (some_parity, refl))
    | inr no_parity ↦ inl (
        ap
          (λ b.
            if b || get_or ps (n - 1) false
            then []
            else replicate (n * chunk_payload - length frame.annex_b) 0)
          {y = true} (ground (arith, no_parity)))
  ]

  delivers :
      (start : ℕ) (ms : List Moment) (r : Receiver)
      → All (IsTimely (n + pc) start) ms
      → n ≤ count_present (marked (replicate (n + pc) false) ms)
      → is_stale id r ≡ false
      → lookup id r.video_frames ≡ none
      → AllPending r
      → Delivers (run rs c (map (input packets) ms) r).1
  delivers start ms r b enough fresh absent pending =
      subst Delivers (sym (runs start ms r b))
        (pad frame.annex_b pc filled.0, pad_cases filled.0, filled.2)
    where
      filled :
          (qs : List Bool) × (n ≤ count_present qs)
          × (decoded (moments start ms r)
              ≡ decodes
                  (frame.annex_b ++ pad frame.annex_b pc qs)
                  id
                  frame.codec_id
                  flags
                  frame.timestamp_ms
                ∷ [])
      filled =
          fills rs id n pc frame.codec_id flags frame.timestamp_ms sent.shards
            (actual_payload_len frame.annex_b n) sent.sized sent.counted
            (λ ps. frame.annex_b ++ pad frame.annex_b pc ps) sent.gives start ms
            (replicate (n + pc) false) r
            (record {
              fresh = fresh;
              few = omega (
                arith,
                count_present-replicate (n + pc),
                (dc_bounds frame.annex_b 0 [] fits.some_data refl).0,
              );
              entry = inl (absent, refl);
            })
            pending (absent-Young id start r.video_frames absent) b enough

  pub length-packets : length packets ≡ n + pc
  unfolding packets
  length-packets = length-tabulate (n + pc) (frame_packet (some c) id frame n pc sent.shards)

  -- A frame that is not empty and fits the header's fields, cut into packets under a cipher and an
  -- erasure code: when packets of this frame arrive in any order, any of them lost or repeated, but
  -- as many different ones as there are data shards, and batches end in between, where the client may
  -- prune its frames, each at most 100 ms after a time before which no packet of the frame comes, at a
  -- client that has not yet begun or passed this frame, and each of whose frames waits for more shards
  -- than it has, then the decoder gets exactly one frame. It is the one sent, with its codec, flags
  -- and timestamp; only if there is parity may the padding of the last shard follow it.
  pub frame_arrives :
      (start : ℕ) (ps : List (List ℕ)) (ms : List Moment) (r : Receiver)
      → frame_packets rs (some c) id percent frame ≡ some ps
      → All (IsTimely (length ps) start) ms
      → n ≤ count_present (marked (replicate (length ps) false) ms)
      → is_stale id r ≡ false
      → lookup id r.video_frames ≡ none
      → AllPending r
      → Delivers (run rs c (map (input ps) ms) r).1
  frame_arrives start ps ms r e b enough fresh absent pending =
      subst (λ qs. Delivers (run rs c (map (input qs) ms) r).1) same
        (delivers start ms r
          (subst (λ k. All (IsTimely k start) ms) (ap length (sym same) ∙ length-packets) b)
          (subst (λ k. n ≤ count_present (marked (replicate k false) ms))
            (ap length (sym same) ∙ length-packets) enough)
          fresh absent pending)
    where
      got : Option (List (List ℕ)) → List (List ℕ)
      got none = []
      got (some qs) = qs

      same : packets ≡ ps
      same = ap got (sym frame_packets_lem ∙ e)
