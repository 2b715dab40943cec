-- ===== src/Video/Wire.antt =====
-- A packet of UdpSender::send_frame, taken apart again by the media loop.
use screx_v.Prelude.{
  ℕ, ◌+◌, ◌-◌, ◌/◌, ◌%◌, ◌^◌, ◌<◌, ◌≡◌, ◌∙◌, ap, refl, false, ◌&&◌, some, List, [], ◌++◌, length,
  take, get_or, arith, take_all, length-append, if◌then◌else◌, ◌==◌, if-preserves, ltb,
}
use screx_v.Bytes.{as_u16, from_be16-be16, from_be32-be32}
use screx_v.Crypto.{Cipher, IsAead, encrypt_slice_padded, nonce_server, tag_len}
use screx_v.Video.{
  ReedSolomon, Frame, build_header, sealed_packet, frame_packet, actual_payload_len, flags_of,
  data_count_of,
}
use screx_v.Video.Receiver.{
  Header, Receiver, parse_header, receive_plain, receive_parsed, receive, receive_video,
  receive_audio,
}

-- What is left of the fields of a header on the wire.
pub parse_header-build_header :
    (id idx dc pc flags codec len ts : ℕ) (rest : List ℕ)
    → parse_header (build_header id idx dc pc flags codec len ts ++ rest)
      ≡ some (
        record {
          frame_id = id % 2 ^ 32;
          chunk_idx = as_u16 idx;
          total_data = as_u16 dc;
          total_parity = as_u16 pc;
          flags = flags;
          codec_id = codec;
          payload_len = as_u16 len;
          timestamp_ms = ts % 2 ^ 32;
        },
        build_header id idx dc pc flags codec len ts,
        rest,
      )
unfolding parse_header
parse_header-build_header id idx dc pc flags codec len ts rest = λ i. some (
  record {
    frame_id = from_be32-be32 id i;
    chunk_idx = from_be16-be16 idx i;
    total_data = from_be16-be16 dc i;
    total_parity = from_be16-be16 pc i;
    flags = flags;
    codec_id = codec;
    payload_len = from_be16-be16 len i;
    timestamp_ms = from_be32-be32 ts i;
  },
  build_header id idx dc pc flags codec len ts,
  rest,
)

sealed_packet_lem :
    (c : Cipher) (id idx flags : ℕ) (header chunk : List ℕ)
    → IsAead c
    → sealed_packet (some c) id idx flags header chunk
      ≡ header
        ++ ((c.seal (nonce_server id idx flags) header chunk).0
            ++ (c.seal (nonce_server id idx flags) header chunk).1)
unfolding sealed_packet
sealed_packet_lem c id idx flags header chunk aead =
    ap (λ (s : List ℕ × ℕ). header ++ take s.1 s.0)
      (encrypt_slice_padded c (nonce_server id idx flags) header chunk)
    ∙ ap (λ (xs : List ℕ). header ++ xs)
        (take_all (length chunk + tag_len) (ct ++ tag) (
          omega (
            arith,
            length-append ct tag,
            aead.same_length (nonce_server id idx flags) header chunk,
            aead.tag_length (nonce_server id idx flags) header chunk,
          )))
  where
    ct : List ℕ
    ct = (c.seal (nonce_server id idx flags) header chunk).0

    tag : List ℕ
    tag = (c.seal (nonce_server id idx flags) header chunk).1

u16_twice : (n : ℕ) → n < 2 ^ 16 → as_u16 n ≡ n
u16_twice n h = omega arith

actual_payload_len_lt : (payload : List ℕ) (dc i : ℕ) → actual_payload_len payload dc i < 2 ^ 16
unfolding actual_payload_len
actual_payload_len_lt payload dc i =
    if-preserves (λ (n : ℕ). n < 2 ^ 16) (ltb i dc) (omega arith) (omega arith)

-- A frame that fits the fields of the header.
pub record IsSendable (frame_id pc : ℕ) (frame : Frame) : Type 0 where
  pub some_data : 0 < length frame.annex_b
  pub few_shards : data_count_of frame.annex_b + pc < 2 ^ 16
  pub id_fits : frame_id < 2 ^ 32
  pub time_fits : frame.timestamp_ms < 2 ^ 32

module _ (c : Cipher) (aead : IsAead c) (id pc : ℕ) (frame : Frame) (fits : IsSendable id pc frame)
    (shards : List (List ℕ)) where
  abbrev pub dc : ℕ
  dc = data_count_of frame.annex_b

  abbrev pub flags : ℕ
  flags = if frame.is_idr then 0x01 else 0

  -- The fields of a shard's packet.
  abbrev pub header_of : ℕ → Header
  header_of i = record {
    frame_id = id;
    chunk_idx = i;
    total_data = dc;
    total_parity = pc;
    flags = flags;
    codec_id = frame.codec_id;
    payload_len = actual_payload_len frame.annex_b dc i;
    timestamp_ms = frame.timestamp_ms;
  }

  sent_header : ℕ → List ℕ
  sent_header i =
      build_header id (as_u16 i) (as_u16 dc) (as_u16 pc) flags frame.codec_id
        (actual_payload_len frame.annex_b dc i) frame.timestamp_ms

  sealed_shard : ℕ → List ℕ
  sealed_shard i =
      let sealed = c.seal (nonce_server id i flags) (sent_header i) (get_or shards i []) in
      sealed.0 ++ sealed.1

  some_shards : 0 < dc
  unfolding data_count_of
  some_shards = omega (arith, fits.some_data)

  module _ (i : ℕ) (lt : i < dc + pc) where
    frame_packet_lem :
        frame_packet (some c) id frame dc pc shards i ≡ sent_header i ++ sealed_shard i
    unfolding frame_packet sent_header sealed_shard flags_of
    frame_packet_lem =
        sealed_packet_lem c id (as_u16 i) flags (sent_header i) (get_or shards i []) aead
        ∙ ap
            (λ k.
              sent_header i
              ++ ((c.seal (nonce_server id k flags) (sent_header i) (get_or shards i [])).0
                  ++ (c.seal (nonce_server id k flags) (sent_header i) (get_or shards i [])).1))
            (omega (arith, fits.few_shards))

    parsed :
        parse_header (frame_packet (some c) id frame dc pc shards i)
        ≡ some (header_of i, sent_header i, sealed_shard i)
    unfolding sent_header
    parsed =
        ap parse_header frame_packet_lem
        ∙ parse_header-build_header id (as_u16 i) (as_u16 dc) (as_u16 pc) flags frame.codec_id
            (actual_payload_len frame.annex_b dc i) frame.timestamp_ms (sealed_shard i)
        ∙ (λ j. some (
          record {
            frame_id = id_kept j;
            chunk_idx = idx_kept j;
            total_data = data_kept j;
            total_parity = parity_kept j;
            flags = flags;
            codec_id = frame.codec_id;
            payload_len = u16_twice (actual_payload_len frame.annex_b dc i) len_kept j;
            timestamp_ms = time_kept j;
          },
          sent_header i,
          sealed_shard i,
        ))
      where
        id_kept : id % 2 ^ 32 ≡ id
        id_kept = omega (arith, fits.id_fits)

        time_kept : frame.timestamp_ms % 2 ^ 32 ≡ frame.timestamp_ms
        time_kept = omega (arith, fits.time_fits)

        idx_kept : as_u16 (as_u16 i) ≡ i
        idx_kept = omega (arith, fits.few_shards, lt)

        data_kept : as_u16 (as_u16 dc) ≡ dc
        data_kept = omega (arith, fits.few_shards)

        parity_kept : as_u16 (as_u16 pc) ≡ pc
        parity_kept = omega (arith, fits.few_shards)

        len_kept : actual_payload_len frame.annex_b dc i < 2 ^ 16
        len_kept = actual_payload_len_lt frame.annex_b dc i

    pub receive-frame_packet :
        (rs : ReedSolomon) (now : ℕ) (r : Receiver)
        → receive rs c (frame_packet (some c) id frame dc pc shards i) now r
          ≡ receive_video rs (header_of i) (get_or shards i []) now r
    unfolding receive receive_parsed receive_plain sealed_shard
    receive-frame_packet rs now r =
        ap (λ p. receive_parsed rs c p now r) parsed
        ∙ ap
            (λ b.
              if b
              then (r, [])
              else receive_plain rs (header_of i)
                  (c.unseal (nonce_server id i flags) (sent_header i) (sealed_shard i)) now r)
            guard
        ∙ ap (λ o. receive_plain rs (header_of i) o now r)
            (aead.opens (nonce_server id i flags) (sent_header i) (get_or shards i []))
        ∙ ap
            (λ b.
              if b
              then receive_audio (header_of i) (get_or shards i []) now r
              else receive_video rs (header_of i) (get_or shards i []) now r)
            video
      where
        guard : ((id == 2 ^ 32 - 1) && (dc == 0)) ≡ false
        guard = ground (arith, some_shards)

        video : (flags / 2 % 2 == 1) ≡ false
        video = if-preserves (λ (n : ℕ). (n / 2 % 2 == 1) ≡ false) frame.is_idr refl refl
