-- ===== src/Video/Assembly.antt =====
-- FrameAssembly of client/desktop/src/backend.rs.
use screx_v.Prelude.{
  ℕ, ◌+◌, ◌*◌, zero, suc, min, Bool, true, false, ◌&&◌, ◌||◌, Option, none, some, List, [], ◌∷◌,
  ◌++◌, length, take, drop, get_or, ltb, leb, ◌==◌, if◌then◌else◌, replicate, tabulate, set,
  copy_at, concat,
}
use screx_v.Video.{ReedSolomon, chunk_payload}

pub record FrameAssembly : Type 0 where
  pub total_data : ℕ
  pub total_parity : ℕ
  pub created_at : ℕ
  pub shard_buf : List ℕ
  pub present : List Bool
  pub actual_lengths : List ℕ
  pub received_count : ℕ
  pub duplicate_count : ℕ
  pub invalid_count : ℕ
  pub codec_id : ℕ
  pub flags : ℕ
  pub timestamp_ms : ℕ

unfoldable pub new : (total_data total_parity codec_id flags timestamp_ms now : ℕ) → FrameAssembly
new total_data total_parity codec_id flags timestamp_ms now = record {
  total_data = total_data;
  total_parity = total_parity;
  created_at = now;
  shard_buf = replicate ((total_data + total_parity) * chunk_payload) 0;
  present = replicate (total_data + total_parity) false;
  actual_lengths = replicate (total_data + total_parity) 0;
  received_count = 0;
  duplicate_count = 0;
  invalid_count = 0;
  codec_id = codec_id;
  flags = flags;
  timestamp_ms = timestamp_ms;
}

unfoldable pub place_chunk : (index : ℕ) → List ℕ → (actual_len : ℕ) → FrameAssembly → FrameAssembly
place_chunk index payload actual_len a = record a {
  shard_buf =
      copy_at (index * chunk_payload) (take (min (length payload) chunk_payload) payload)
        a.shard_buf;
  present = set a.present index true;
  actual_lengths = set a.actual_lengths index actual_len;
  received_count = a.received_count + 1;
}

unfoldable pub add_chunk : (index : ℕ) → List ℕ → (actual_len : ℕ) → FrameAssembly → FrameAssembly
unfolding place_chunk
add_chunk index payload actual_len a =
    if leb (a.total_data + a.total_parity) index
    then record a { invalid_count = a.invalid_count + 1 }
    else if get_or a.present index false
    then record a { duplicate_count = a.duplicate_count + 1 }
    else place_chunk index payload actual_len a

-- Whether the first slots are all filled.
unfoldable pub all_present : ℕ → List Bool → Bool
all_present zero ps = true
all_present (suc n) [] = false
all_present (suc n) (p ∷ ps) = p && all_present n ps

unfoldable pub is_complete : FrameAssembly → Bool
unfolding all_present
is_complete a =
    if a.total_parity == 0
    then all_present a.total_data a.present
    else leb a.total_data a.received_count

unfoldable pub can_recover : FrameAssembly → Bool
can_recover a = leb a.total_data a.received_count

-- The slot of a shard in the buffer.
unfoldable pub shard_at : List ℕ → ℕ → List ℕ
shard_at buf i = take chunk_payload (drop (i * chunk_payload) buf)

-- The bytes of a shard that count: a length of zero stands for all of them.
unfoldable pub cut : (actual_len : ℕ) → List ℕ → List ℕ
cut actual_len shard =
    take (min (if ltb 0 actual_len then actual_len else length shard) (length shard)) shard

unfoldable pub present_piece : FrameAssembly → ℕ → List ℕ
unfolding cut shard_at
present_piece a i =
    if get_or a.present i false
    then cut (get_or a.actual_lengths i 0) (shard_at a.shard_buf i)
    else []

unfoldable pub assemble_present_data : FrameAssembly → List ℕ
unfolding present_piece
assemble_present_data a = concat (tabulate a.total_data (present_piece a))

-- The shard array that the code is given.
unfoldable pub shard_slot : FrameAssembly → ℕ → Option (List ℕ)
unfolding shard_at
shard_slot a i = if get_or a.present i false then some (shard_at a.shard_buf i) else none

unfoldable pub add_piece : (actual_len : ℕ) (shard rest : Option (List ℕ)) → Option (List ℕ)
unfolding cut
add_piece actual_len none rest = none
add_piece actual_len (some shard) none = none
add_piece actual_len (some shard) (some rest) = some (cut actual_len shard ++ rest)

-- The data shards joined, or nothing when one is missing.
unfoldable pub joined :
    (n i : ℕ) (actual_lengths : List ℕ) (shards : List (Option (List ℕ))) → Option (List ℕ)
unfolding add_piece
joined zero i actual_lengths shards = some []
joined (suc n) i actual_lengths shards =
    add_piece (get_or actual_lengths i 0) (get_or shards i none)
      (joined n (i + 1) actual_lengths shards)

unfoldable pub join_all :
    (n : ℕ) (actual_lengths : List ℕ) → Option (List (Option (List ℕ))) → Option (List ℕ)
unfolding joined
join_all n actual_lengths none = none
join_all n actual_lengths (some shards) = joined n 0 actual_lengths shards

unfoldable pub recover : ReedSolomon → FrameAssembly → Option (List ℕ)
unfolding shard_slot join_all
recover rs a = join_all a.total_data a.actual_lengths (
    rs.reconstruct a.total_data a.total_parity
      (tabulate (a.total_data + a.total_parity) (shard_slot a)))

unfoldable pub reassemble : ReedSolomon → FrameAssembly → Option (List ℕ)
unfolding all_present assemble_present_data recover
reassemble rs a =
    if all_present a.total_data a.present
    then some (assemble_present_data a)
    else if (a.total_parity == 0) || ltb a.received_count a.total_data
    then none
    else recover rs a
