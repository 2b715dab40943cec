-- ===== src/Audio.antt =====
-- The audio ring buffer and its drift correction: AudioRingBuffer and
-- AudioPlayer::enqueue of client/desktop/src/audio_player.rs, with the AvSyncState
-- of client/desktop/src/backend.rs.
pub mod Ring
pub mod Copy
pub mod Queue
pub mod Refine
pub mod Drift
mod Tests
use screx_v.Prelude.{
  copy_at, length-copy_at, copy_at_before, copy_at_inside, copy_at_after, slice_cells,
  copy_at_twice, ℕ, ◌+◌, ◌-◌, ◌*◌, ◌/◌, ◌%◌, ◌^◌, min, ◌&&◌, Bool, true, false, Option, none, some,
  List, [], ◌∷◌, ◌++◌, length, take, drop, ltb, leb, ◌==◌, if◌then◌else◌, replicate,
}

abbrev pub bytes_per_ms : ℕ
bytes_per_ms = 192

abbrev pub ring_capacity : ℕ
ring_capacity = 96000

abbrev pub target_buffer_bytes : ℕ
target_buffer_bytes = 5760

abbrev pub drift_drop_threshold_ms : ℕ
drift_drop_threshold_ms = 40

abbrev pub drift_trim_threshold_ms : ℕ
drift_trim_threshold_ms = 60

pub record AudioRingBuffer : Type 0 where
  pub storage : List ℕ
  pub read_pos : ℕ
  pub write_pos : ℕ
  pub count : ℕ

unfoldable pub new : AudioRingBuffer
new = record { storage = replicate ring_capacity 0; read_pos = 0; write_pos = 0; count = 0 }

-- The part of the data that fits.
unfoldable pub tail_of : List ℕ → List ℕ
tail_of pcm = if ltb ring_capacity (length pcm) then drop (length pcm - ring_capacity) pcm else pcm

-- The oldest bytes given up for `len` new ones.
unfoldable pub make_room : (len : ℕ) → AudioRingBuffer → AudioRingBuffer
make_room len r =
    if ltb ring_capacity (r.count + len)
    then record r {
      read_pos = (r.read_pos + (r.count + len - ring_capacity)) % ring_capacity;
      count = r.count - (r.count + len - ring_capacity);
    }
    else r

-- The pcm copied in one or two parts.
unfoldable pub put_in : (pcm storage : List ℕ) (write_pos : ℕ) → List ℕ
unfolding copy_at
put_in pcm storage write_pos =
    let first = min (ring_capacity - write_pos) (length pcm) in
    let once = copy_at write_pos (take first pcm) storage in
    if ltb first (length pcm) then copy_at 0 (drop first pcm) once else once

unfoldable pub append : (pcm : List ℕ) → AudioRingBuffer → AudioRingBuffer
unfolding put_in
append pcm r = record r {
  storage = put_in pcm r.storage r.write_pos;
  write_pos = (r.write_pos + length pcm) % ring_capacity;
  count = r.count + length pcm;
}

unfoldable pub write : (pcm : List ℕ) → AudioRingBuffer → AudioRingBuffer
unfolding make_room append tail_of
write [] r = r
write (b ∷ bs) r = append (tail_of (b ∷ bs)) (make_room (length (tail_of (b ∷ bs))) r)

-- The bytes of a slice of the storage, in one or two parts.
unfoldable pub copy_out : (n : ℕ) (storage : List ℕ) (read_pos : ℕ) (out : List ℕ) → List ℕ
unfolding copy_at
copy_out n storage read_pos out =
    let first = min (ring_capacity - read_pos) n in
    let once = copy_at 0 (take first (drop read_pos storage)) out in
    if ltb first n then copy_at first (take (n - first) storage) once else once

unfoldable pub advance : (n : ℕ) → AudioRingBuffer → AudioRingBuffer
advance n r = record r { read_pos = (r.read_pos + n) % ring_capacity; count = r.count - n }

-- The ring after a read, the output buffer and the number of bytes read.
unfoldable pub read : (out : List ℕ) → AudioRingBuffer → AudioRingBuffer × (List ℕ × ℕ)
unfolding copy_out advance
read out r =
    let n = min (length out) r.count in
    if n == 0 then (r, (out, 0)) else (advance n r, (copy_out n r.storage r.read_pos out, n))

unfoldable pub discard : ℕ → AudioRingBuffer → AudioRingBuffer
unfolding advance
discard n r = advance (min n r.count) r

unfoldable pub clear : AudioRingBuffer → AudioRingBuffer
clear r = record r { read_pos = 0; write_pos = 0; count = 0 }

-- AvSyncInner, with instants in nanoseconds.
pub record AvSync : Type 0 where
  pub last_video_ts : ℕ
  pub last_video_wall : Option ℕ
  pub gap_resume : Bool

abbrev pub av_gap_threshold : ℕ
av_gap_threshold = 2_000_000_000

unfoldable pub after_gap : (now : ℕ) → Option ℕ → Bool
after_gap now none = false
after_gap now (some wall) = leb av_gap_threshold (now - wall)

unfoldable pub update_video : (timestamp_ms now : ℕ) → AvSync → AvSync
unfolding after_gap
update_video timestamp_ms now s = record {
  last_video_ts = timestamp_ms;
  last_video_wall = some now;
  gap_resume = if after_gap now s.last_video_wall then true else s.gap_resume;
}

unfoldable pub consume_gap_resume : AvSync → AvSync × Bool
consume_gap_resume s = (record s { gap_resume = false }, s.gap_resume)

unfoldable pub expected_at : (now last_video_ts : ℕ) → Option ℕ → Option ℕ
expected_at now ts none = none
expected_at now ts (some wall) =
    if ltb 1_000_000_000 (now - wall)
    then none
    else some ((ts + (now - wall) / 1_000_000 % 2 ^ 32) % 2 ^ 32)

unfoldable pub expected_daemon_time_now : (now : ℕ) → AvSync → Option ℕ
unfolding expected_at
expected_daemon_time_now now s = expected_at now s.last_video_ts s.last_video_wall

-- The difference of two timestamps modulo 2 ^ 32.
unfoldable pub wrapping_drift : (timestamp_ms expected_ts : ℕ) → ℕ
wrapping_drift timestamp_ms expected_ts = (timestamp_ms + 2 ^ 32 - expected_ts) % 2 ^ 32

-- The difference is read as a signed number: from 2 ^ 31 on it is below zero.
unfoldable pub correct_drift : (drift : ℕ) → AudioRingBuffer → AudioRingBuffer
unfolding discard
correct_drift drift r =
    if leb (2 ^ 31) drift
    then (if ltb drift_drop_threshold_ms (2 ^ 32 - drift)
        then discard (min ((2 ^ 32 - drift) * bytes_per_ms) r.count / 4 * 4) r
        else r)
    else if ltb drift_trim_threshold_ms drift && ltb target_buffer_bytes r.count
    then discard ((r.count - target_buffer_bytes) / 4 * 4) r
    else r

unfoldable pub correct : (timestamp_ms : ℕ) → Option ℕ → AudioRingBuffer → AudioRingBuffer
unfolding correct_drift wrapping_drift
correct timestamp_ms none r = r
correct timestamp_ms (some expected_ts) r =
    correct_drift (wrapping_drift timestamp_ms expected_ts) r

unfoldable pub enqueue :
    (pcm : List ℕ) (timestamp_ms now : ℕ) → AvSync → AudioRingBuffer → AvSync × AudioRingBuffer
unfolding consume_gap_resume clear write correct expected_daemon_time_now
enqueue pcm timestamp_ms now s r =
    let flushed = if s.gap_resume then clear r else r in
    let sync = (consume_gap_resume s).0 in
    (sync, correct timestamp_ms (expected_daemon_time_now now sync) (write pcm flushed))
