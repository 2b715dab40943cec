-- ===== src/Video.antt =====
-- Video and audio frames over UDP. This file is UdpSender of daemon/src/stream_server.rs, and
-- Video/AudioSender.antt its AudioSender. Video/Assembly.antt, Video/AudioAssembly.antt and
-- Video/Receiver.antt are the receiving side: FrameAssembly, AudioAssembly and the media loop of
-- client/desktop/src/backend.rs.
pub mod Assembly
pub mod Shards
pub mod AudioAssembly
pub mod AudioSender
pub mod Receiver
pub mod Code
pub mod Recovery
pub mod Wire
pub mod Filling
pub mod Delivery
pub mod Pruning
pub mod Timely
pub mod Sent
pub mod Arrival
pub mod Bounds
pub mod SumCode
pub mod Throttle
pub mod Batches
pub mod Pending
mod Tests
pub mod Frames
pub mod Erasure
use screx_v.Prelude.{
  ℕ, ◌+◌, ◌-◌, ◌*◌, ◌/◌, ◌%◌, ◌^◌, zero, suc, min, max, Bool, true, false, ◌&&◌, ◌||◌, Option, none,
  some, List, [], ◌∷◌, ◌++◌, length, take, drop, get_or, ltb, leb, ◌==◌, if◌then◌else◌, replicate,
  tabulate,
}
use screx_v.Bytes.{be16, be32, as_u16}
use screx_v.Crypto.{Cipher, encrypt_slice, nonce_server, tag_len}
use screx_v.Adaptive.{StreamTuning}

abbrev pub chunk_payload : ℕ
chunk_payload = 1400

abbrev pub header_len : ℕ
header_len = 18

abbrev pub max_fec_shards : ℕ
max_fec_shards = 127

abbrev pub flag_idr : ℕ
flag_idr = 0x01

abbrev pub flag_audio : ℕ
flag_audio = 0x02

-- The `reed_solomon_erasure` crate, for a number of data and of parity shards: `new` and `encode`
-- together, which fill in the shards behind the data, and `new` and `reconstruct`, which fill in the
-- missing ones. Either fails with `none`.
pub record ReedSolomon : Type 0 where
  pub encode : (data_count parity_count : ℕ) → List (List ℕ) → Option (List (List ℕ))
  pub reconstruct :
      (data_count parity_count : ℕ) → List (Option (List ℕ)) → Option (List (Option (List ℕ)))

abbrev pub build_header :
    (frame_id chunk_idx total_data total_parity flags codec_id payload_len timestamp_ms : ℕ)
    → List ℕ
build_header frame_id chunk_idx total_data total_parity flags codec_id payload_len timestamp_ms =
    be32 frame_id
    ++ (be16 chunk_idx
        ++ (be16 total_data
            ++ (be16 total_parity ++ (flags ∷ codec_id ∷ (be16 payload_len ++ be32 timestamp_ms)))))

unfoldable pub data_count_of : List ℕ → ℕ
data_count_of payload = (length payload + chunk_payload - 1) / chunk_payload

unfoldable pub parity_percent : Bool → StreamTuning → ℕ
parity_percent is_idr tuning = if is_idr then tuning.idr_fec_percent else tuning.pframe_fec_percent

unfoldable pub parity_count : (data_count parity_percent : ℕ) → ℕ
parity_count data_count percent =
    if leb data_count 1 || (percent == 0)
    then 0
    else min (max ((data_count * percent + 99) / 100) 1) max_fec_shards

unfoldable pub actual_parity : (data_count parity_percent : ℕ) → ℕ
unfolding parity_count
actual_parity data_count percent =
    let parity = parity_count data_count percent in
    if ltb 0 parity && leb (data_count + parity) 255 then parity else 0

-- A data shard, padded with zeros.
unfoldable pub data_shard : List ℕ → ℕ → List ℕ
data_shard payload i =
    let actual = min (i * chunk_payload + chunk_payload) (length payload) - i * chunk_payload in
    take actual (drop (i * chunk_payload) payload) ++ replicate (chunk_payload - actual) 0

unfoldable pub data_shards : List ℕ → ℕ → List (List ℕ)
unfolding data_shard
data_shards payload data_count = tabulate data_count (data_shard payload)

-- The data shards and those that the code adds, zeros before it runs.
unfoldable pub all_shards : ReedSolomon → (data_count parity : ℕ) → List ℕ → Option (List (List ℕ))
unfolding data_shards
all_shards rs data_count parity payload =
    if ltb 0 parity
    then rs.encode data_count parity
        (data_shards payload data_count ++ replicate parity (replicate chunk_payload 0))
    else some (data_shards payload data_count)

unfoldable pub actual_payload_len : (payload : List ℕ) (data_count idx : ℕ) → ℕ
actual_payload_len payload data_count idx =
    if ltb idx data_count
    then as_u16 (min (idx * chunk_payload + chunk_payload) (length payload) - idx * chunk_payload)
    else as_u16 chunk_payload

-- The header and the shard behind it, sealed when there is a cipher. The 16 bytes behind the shard
-- are overwritten by the tag.
unfoldable pub sealed_packet :
    Option Cipher → (frame_id chunk_idx flags : ℕ) (header chunk : List ℕ) → List ℕ
unfolding encrypt_slice nonce_server
sealed_packet none frame_id chunk_idx flags header chunk = header ++ chunk
sealed_packet (some c) frame_id chunk_idx flags header chunk =
    let sealed =
      encrypt_slice c (nonce_server frame_id chunk_idx flags) header (chunk ++ replicate tag_len 0)
        (length chunk) in
    header ++ take sealed.1 sealed.0

-- What an access unit is sent with.
pub record Frame : Type 0 where
  pub annex_b : List ℕ
  pub is_idr : Bool
  pub codec_id : ℕ
  pub timestamp_ms : ℕ

unfoldable pub flags_of : Bool → ℕ
flags_of is_idr = if is_idr then flag_idr else 0

unfoldable pub frame_packet :
    Option Cipher → (frame_id : ℕ) → Frame → (data_count parity : ℕ) → List (List ℕ) → ℕ → List ℕ
unfolding sealed_packet actual_payload_len flags_of
frame_packet cipher frame_id frame data_count parity shards idx =
    sealed_packet cipher frame_id (as_u16 idx) (flags_of frame.is_idr)
      (build_header frame_id (as_u16 idx) (as_u16 data_count) (as_u16 parity)
        (flags_of frame.is_idr) frame.codec_id (actual_payload_len frame.annex_b data_count idx)
        frame.timestamp_ms)
      (get_or shards idx [])

unfoldable pub packets_of :
    Option Cipher
    → (frame_id : ℕ) → Frame
    → (data_count parity : ℕ) → Option (List (List ℕ))
    → Option (List (List ℕ))
unfolding frame_packet
packets_of cipher frame_id frame data_count parity none = none
packets_of cipher frame_id frame data_count parity (some shards) =
    some
      (tabulate (data_count + parity) (frame_packet cipher frame_id frame data_count parity shards))

-- The packets of a frame, unless the code fails.
unfoldable pub frame_packets :
    ReedSolomon → Option Cipher → (frame_id percent : ℕ) → Frame → Option (List (List ℕ))
unfolding data_count_of actual_parity all_shards packets_of
frame_packets rs cipher frame_id percent frame =
    let data_count = data_count_of frame.annex_b in
    let parity = actual_parity data_count percent in
    packets_of cipher frame_id frame data_count parity
      (all_shards rs data_count parity frame.annex_b)

-- What the sockets do: how many packets of the batch a `sendmmsg` that starts at a packet sends, or
-- that it fails, and whether `send_to` sends a packet.
pub record Sockets : Type 0 where
  pub sendmmsg : (start size : ℕ) → Option ℕ
  pub send_to : ℕ → Bool

abbrev pub sendmmsg_batch_size : ℕ
sendmmsg_batch_size = 32

-- The packets that leave one by one, from one index up to another, and whether all do.
unfoldable pub send_each : Sockets → (count idx : ℕ) → List (List ℕ) → List (List ℕ) × Bool
send_each s zero idx packets = ([], true)
send_each s (suc count) idx packets =
    let rest = send_each s count (idx + 1) packets in
    if s.send_to idx then (get_or packets idx [] ∷ rest.0, rest.1) else ([], false)

-- What one `sendmmsg` and, when it fails, the packets sent one by one make of a batch; `later` goes
-- on behind a number of packets.
unfoldable pub batch_result :
    (outcome : Option ℕ) (each : List (List ℕ) × Bool) (size : ℕ) (next : List (List ℕ))
    (later : ℕ → List (List ℕ) × Bool)
    → List (List ℕ) × Bool
batch_result none each size next later =
    if each.1 then (each.0 ++ (later size).0, (later size).1) else (each.0, false)
batch_result (some zero) each size next later = ([], false)
batch_result (some (suc n)) each size next later =
    (take (suc n) next ++ (later (suc n)).0, (later (suc n)).1)

-- The packets that leave, in order, and whether all do. A round with fuel sends a packet or stops.
unfoldable pub send_batches :
    (fuel : ℕ) → Sockets → (sent : ℕ) → List (List ℕ) → List (List ℕ) × Bool
unfolding send_each batch_result
send_batches zero s sent packets = ([], leb (length packets) sent)
send_batches (suc fuel) s sent packets =
    let size = min (sent + sendmmsg_batch_size) (length packets) - sent in
    let later : ℕ → List (List ℕ) × Bool = λ n. send_batches fuel s (sent + n) packets in
    if leb (length packets) sent
    then ([], true)
    else batch_result (s.sendmmsg sent size) (send_each s size sent packets) size
        (drop sent packets) later

-- Every round sends a packet, so as many rounds as packets are enough.
unfoldable pub send_frame_batch : Sockets → List (List ℕ) → List (List ℕ) × Bool
unfolding send_batches
send_frame_batch s packets = send_batches (length packets) s 0 packets

pub record UdpSender : Type 0 where
  pub frame_id : ℕ
  pub cipher : Option Cipher

-- The identifier moves on only when all packets have left.
unfoldable pub after_frame :
    Sockets → Option (List (List ℕ)) → UdpSender → UdpSender × (List (List ℕ) × Bool)
unfolding send_frame_batch
after_frame s none sender = (sender, ([], false))
after_frame s (some packets) sender =
    let result = send_frame_batch s packets in
    if result.1
    then (record sender { frame_id = (sender.frame_id + 1) % 2 ^ 32 }, result)
    else (sender, result)

-- The sender after a frame, the packets that left, and whether the call succeeds.
unfoldable pub send_frame :
    ReedSolomon → Sockets → Frame → StreamTuning → UdpSender → UdpSender × (List (List ℕ) × Bool)
unfolding frame_packets after_frame parity_percent
send_frame rs s frame tuning sender =
    after_frame s
      (frame_packets rs sender.cipher sender.frame_id (parity_percent frame.is_idr tuning) frame)
      sender
