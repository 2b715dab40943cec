-- ===== src/Video/Receiver.antt =====
-- The media loop of client/desktop/src/backend.rs: what it does with a packet, and the pruning of
-- old assemblies. Times are in nanoseconds.
use screx_v.Prelude.{
  ℕ, ◌+◌, ◌-◌, ◌/◌, ◌%◌, ◌^◌, Bool, true, false, ◌&&◌, ◌||◌, Option, none, some, List, [], ◌∷◌,
  ◌++◌, ltb, leb, ◌==◌, if◌then◌else◌,
}
use screx_v.Bytes.{from_be16, from_be32}
use screx_v.Crypto.{Cipher, nonce_server}
use screx_v.Audio.{AvSync, update_video}
use screx_v.Video.{ReedSolomon}
use screx_v.Video.Assembly.{FrameAssembly, new, add_chunk, is_complete, can_recover, reassemble}
use screx_v.Video.AudioAssembly

abbrev pub pli_min_interval : ℕ
pli_min_interval = 1_000_000_000

abbrev pub frame_timeout : ℕ
frame_timeout = 100_000_000

abbrev pub prune_interval : ℕ
prune_interval = 100_000_000

unfoldable pub should_send_pli : (now : ℕ) → Option ℕ → Bool × Option ℕ
should_send_pli now none = (true, some now)
should_send_pli now (some at) =
    if leb pli_min_interval (now - at) then (true, some now) else (false, some at)

pub record Header : Type 0 where
  pub frame_id : ℕ
  pub chunk_idx : ℕ
  pub total_data : ℕ
  pub total_parity : ℕ
  pub flags : ℕ
  pub codec_id : ℕ
  pub payload_len : ℕ
  pub timestamp_ms : ℕ

-- The fields, the header's bytes and the bytes behind it.
unfoldable pub parse_header : List ℕ → Option (Header × List ℕ × List ℕ)
unfolding from_be16 from_be32
parse_header
      (b0 ∷ b1 ∷ b2 ∷ b3 ∷ b4 ∷ b5 ∷ b6 ∷ b7 ∷ b8 ∷ b9 ∷ b10 ∷ b11 ∷ b12 ∷ b13 ∷ b14 ∷ b15 ∷ b16
        ∷ b17 ∷ payload) =
    some (
      record {
        frame_id = from_be32 b0 b1 b2 b3;
        chunk_idx = from_be16 b4 b5;
        total_data = from_be16 b6 b7;
        total_parity = from_be16 b8 b9;
        flags = b10;
        codec_id = b11;
        payload_len = from_be16 b12 b13;
        timestamp_ms = from_be32 b14 b15 b16 b17;
      },
      b0 ∷ b1 ∷ b2 ∷ b3 ∷ b4 ∷ b5 ∷ b6 ∷ b7 ∷ b8 ∷ b9 ∷ b10 ∷ b11 ∷ b12 ∷ b13 ∷ b14 ∷ b15 ∷ b16
          ∷ b17 ∷ [],
      payload,
    )
parse_header _ = none

pub data Event : Type 0 where
  decodes : (annex_b : List ℕ) (frame_id codec_id flags timestamp_ms : ℕ) → Event
  enqueues : (pcm : List ℕ) (timestamp_ms : ℕ) → Event
  sends_pli : Event

-- The maps of the assemblies are lists of pairs.
pub record Receiver : Type 0 where
  pub video_frames : List (ℕ × FrameAssembly)
  pub audio_frames : List (ℕ × AudioAssembly.AudioAssembly)
  pub last_completed_frame_id : ℕ
  pub has_received_first_frame : Bool
  pub last_pli_at : Option ℕ
  pub last_prune : ℕ
  pub av_sync : AvSync

module _ {ℓ} {A : Type ℓ} where
  unfoldable pub lookup : ℕ → List (ℕ × A) → Option A
  lookup id [] = none
  lookup id ((k, a) ∷ entries) = if id == k then some a else lookup id entries

  unfoldable pub remove : ℕ → List (ℕ × A) → List (ℕ × A)
  remove id [] = []
  remove id ((k, a) ∷ entries) =
      let rest = remove id entries in if id == k then rest else (k, a) ∷ rest

  abbrev pub or_new : A → Option A → A
  or_new a none = a
  or_new a (some b) = b

unfoldable pub is_stale : (frame_id : ℕ) → Receiver → Bool
is_stale frame_id r =
    r.has_received_first_frame
    && ((frame_id == r.last_completed_frame_id)
        || (ltb frame_id r.last_completed_frame_id
            && ltb (r.last_completed_frame_id - frame_id) 0x80000000))

-- `frame_id - last - 1` on u32.
unfoldable pub gap_before : (frame_id last : ℕ) → ℕ
gap_before frame_id last = (frame_id + 2 ^ 33 - last - 1) % 2 ^ 32

unfoldable pub has_gap : (frame_id : ℕ) → Receiver → Bool
unfolding gap_before
has_gap frame_id r =
    let gap = gap_before frame_id r.last_completed_frame_id in
    r.has_received_first_frame
    && (ltb ((r.last_completed_frame_id + 1) % 2 ^ 32) frame_id
        && (ltb 0 gap && ltb gap 0x80000000))

-- The request for a key frame, at most one per interval.
unfoldable pub request_pli : (now : ℕ) → Receiver → Receiver × List Event
unfolding should_send_pli
request_pli now r =
    let sent = should_send_pli now r.last_pli_at in
    (record r { last_pli_at = sent.1 }, if sent.0 then sends_pli ∷ [] else [])

-- A frame is handed to the decoder.
unfoldable pub complete :
    (annex_b : List ℕ) (frame_id codec_id flags timestamp_ms now : ℕ)
    → Receiver
    → Receiver × List Event
unfolding has_gap request_pli update_video
complete annex_b frame_id codec_id flags timestamp_ms now r =
    let asked = if has_gap frame_id r then request_pli now r else (r, []) in
    (
      record asked.0 {
        last_completed_frame_id = frame_id;
        has_received_first_frame = true;
        av_sync = update_video timestamp_ms now r.av_sync;
      },
      asked.1 ++ decodes annex_b frame_id codec_id flags timestamp_ms ∷ [],
    )

-- What becomes of a complete assembly, out of the map.
unfoldable pub finish : Option (List ℕ) → Header → (now : ℕ) → Receiver → Receiver × List Event
unfolding complete
finish none h now r = (record r { video_frames = remove h.frame_id r.video_frames }, [])
finish (some annex_b) h now r =
    complete annex_b h.frame_id h.codec_id h.flags h.timestamp_ms now
      (record r { video_frames = remove h.frame_id r.video_frames })

unfoldable pub assembly_for : Header → (now : ℕ) → Receiver → FrameAssembly
assembly_for h now r =
    or_new (new h.total_data h.total_parity h.codec_id h.flags h.timestamp_ms now)
      (lookup h.frame_id r.video_frames)

unfoldable pub receive_video :
    ReedSolomon → Header → (plaintext : List ℕ) (now : ℕ) → Receiver → Receiver × List Event
unfolding is_stale assembly_for finish
receive_video rs h plaintext now r =
    let a = add_chunk h.chunk_idx plaintext h.payload_len (assembly_for h now r) in
    if is_stale h.frame_id r
    then (r, [])
    else if is_complete a
    then finish (reassemble rs a) h now r
    else (record r { video_frames = (h.frame_id, a) ∷ remove h.frame_id r.video_frames }, [])

unfoldable pub enqueue_event : Option (List ℕ) → (timestamp_ms : ℕ) → List Event
enqueue_event none timestamp_ms = []
enqueue_event (some pcm) timestamp_ms = enqueues pcm timestamp_ms ∷ []

unfoldable pub receive_audio :
    Header → (plaintext : List ℕ) (now : ℕ) → Receiver → Receiver × List Event
unfolding enqueue_event
receive_audio h plaintext now r =
    let a =
      AudioAssembly.add_chunk h.chunk_idx plaintext h.payload_len
        (or_new (AudioAssembly.new h.total_data now) (lookup h.frame_id r.audio_frames)) in
    let others = remove h.frame_id r.audio_frames in
    if AudioAssembly.is_complete a
    then (
      record r { audio_frames = others },
      enqueue_event (AudioAssembly.reassemble a) h.timestamp_ms,
    )
    else (record r { audio_frames = (h.frame_id, a) ∷ others }, [])

unfoldable pub receive_plain :
    ReedSolomon → Header → Option (List ℕ) → (now : ℕ) → Receiver → Receiver × List Event
unfolding receive_video receive_audio
receive_plain rs h none now r = (r, [])
receive_plain rs h (some plaintext) now r =
    if h.flags / 2 % 2 == 1
    then receive_audio h plaintext now r
    else receive_video rs h plaintext now r

unfoldable pub receive_parsed :
    ReedSolomon
    → Cipher
    → Option (Header × List ℕ × List ℕ)
    → (now : ℕ) → Receiver
    → Receiver × List Event
unfolding receive_plain nonce_server
receive_parsed rs c none now r = (r, [])
receive_parsed rs c (some (h, header, payload)) now r =
    if (h.frame_id == 2 ^ 32 - 1) && (h.total_data == 0)
    then (r, [])
    else receive_plain rs h (c.unseal (nonce_server h.frame_id h.chunk_idx h.flags) header payload)
        now r

-- One packet of the batch.
unfoldable pub receive :
    ReedSolomon → Cipher → (packet : List ℕ) (now : ℕ) → Receiver → Receiver × List Event
unfolding parse_header receive_parsed
receive rs c packet now r = receive_parsed rs c (parse_header packet) now r

unfoldable pub is_expired : (now created_at : ℕ) → Bool
is_expired now created_at = ltb frame_timeout (now - created_at)

-- An expired assembly, out of the map: the state, the events, and whether it is lost.
unfoldable pub expire_with :
    Option (List ℕ)
    → (frame_id : ℕ) → FrameAssembly
    → (now : ℕ) → Receiver
    → Receiver × List Event × Bool
unfolding complete
expire_with none frame_id a now r = (r, [], true)
expire_with (some annex_b) frame_id a now r =
    let done = complete annex_b frame_id a.codec_id a.flags a.timestamp_ms now r in
    (done.0, done.1, false)

unfoldable pub expire :
    ReedSolomon
    → (frame_id : ℕ) → FrameAssembly
    → (now : ℕ) → Receiver
    → Receiver × List Event × Bool
unfolding expire_with
expire rs frame_id a now r =
    if can_recover a then expire_with (reassemble rs a) frame_id a now r else (r, [], true)

-- The expired assemblies of the map in turn; the others stay.
unfoldable pub expire_all :
    ReedSolomon
    → (entries : List (ℕ × FrameAssembly)) (now : ℕ) → Receiver
    → Receiver × List Event × Bool
unfolding expire is_expired
expire_all rs [] now r = (r, [], false)
expire_all rs ((id, a) ∷ entries) now r =
    let one = expire rs id a now (record r { video_frames = remove id r.video_frames }) in
    let after_one = expire_all rs entries now one.0 in
    let untouched = expire_all rs entries now r in
    if is_expired now a.created_at
    then (after_one.0, one.1 ++ after_one.1, one.2 || after_one.2)
    else untouched

-- Entries that have not expired.
unfoldable pub retain :
    (now : ℕ) → List (ℕ × AudioAssembly.AudioAssembly) → List (ℕ × AudioAssembly.AudioAssembly)
unfolding is_expired
retain now [] = []
retain now ((id, a) ∷ entries) =
    let rest = retain now entries in if is_expired now a.created_at then rest else (id, a) ∷ rest

unfoldable pub prune : ReedSolomon → (now : ℕ) → Receiver → Receiver × List Event
unfolding expire_all retain request_pli
prune rs now r =
    let expired = expire_all rs r.video_frames now r in
    let asked = if expired.2 then request_pli now expired.0 else (expired.0, []) in
    (
      record asked.0 { audio_frames = retain now asked.0.audio_frames; last_prune = now },
      expired.1 ++ asked.1,
    )

-- After a batch.
unfoldable pub after_batch : ReedSolomon → (now : ℕ) → Receiver → Receiver × List Event
unfolding prune
after_batch rs now r = if leb prune_interval (now - r.last_prune) then prune rs now r else (r, [])

-- What happens to the receiver, in order.
pub data Input : Type 0 where
  arrives : (packet : List ℕ) (now : ℕ) → Input
  batch_ends : (now : ℕ) → Input

unfoldable pub step : ReedSolomon → Cipher → Input → Receiver → Receiver × List Event
unfolding receive after_batch
step rs c (arrives packet now) r = receive rs c packet now r
step rs c (batch_ends now) r = after_batch rs now r

unfoldable pub run : ReedSolomon → Cipher → List Input → Receiver → Receiver × List Event
unfolding step
run rs c [] r = (r, [])
run rs c (i ∷ is) r =
    let one = step rs c i r in let rest = run rs c is one.0 in (rest.0, one.1 ++ rest.1)
