-- ===== src/Video/AudioAssembly.antt =====
-- AudioAssembly of client/desktop/src/backend.rs.
use screx_v.Prelude.{
  ℕ, ◌+◌, ◌*◌, zero, suc, min, Bool, true, false, Option, none, some, List, [], ◌++◌, length, take,
  drop, get_or, ltb, leb, if◌then◌else◌, replicate, set, copy_at,
}
use screx_v.Video.{chunk_payload}

pub record AudioAssembly : Type 0 where
  pub total_data : ℕ
  pub created_at : ℕ
  pub shard_buf : List ℕ
  pub present : List Bool
  pub actual_lengths : List ℕ
  pub received_count : ℕ

unfoldable pub new : (total_data now : ℕ) → AudioAssembly
new total_data now = record {
  total_data = total_data;
  created_at = now;
  shard_buf = replicate (total_data * chunk_payload) 0;
  present = replicate total_data false;
  actual_lengths = replicate total_data 0;
  received_count = 0;
}

unfoldable pub place_chunk : (index : ℕ) → List ℕ → (actual_len : ℕ) → AudioAssembly → AudioAssembly
place_chunk index payload actual_len a = record a {
  shard_buf =
      copy_at (index * chunk_payload) (take (min (length payload) chunk_payload) payload)
        a.shard_buf;
  present = set a.present index true;
  actual_lengths = set a.actual_lengths index actual_len;
  received_count = a.received_count + 1;
}

unfoldable pub add_chunk : (index : ℕ) → List ℕ → (actual_len : ℕ) → AudioAssembly → AudioAssembly
unfolding place_chunk
add_chunk index payload actual_len a =
    if leb a.total_data index
    then a
    else if get_or a.present index false
    then a
    else place_chunk index payload actual_len a

unfoldable pub is_complete : AudioAssembly → Bool
is_complete a = leb a.total_data a.received_count

-- The bytes of a slot that count: a length of zero stands for all of them.
unfoldable pub slot_bytes : AudioAssembly → ℕ → List ℕ
slot_bytes a i =
    let actual_len = get_or a.actual_lengths i 0 in
    take (min (if ltb 0 actual_len then actual_len else chunk_payload) chunk_payload)
      (drop (i * chunk_payload) a.shard_buf)

unfoldable pub add_slot : (present : Bool) (bytes : List ℕ) → Option (List ℕ) → Option (List ℕ)
add_slot false bytes rest = none
add_slot true bytes none = none
add_slot true bytes (some rest) = some (bytes ++ rest)

-- The slots from one on, unless one is missing.
unfoldable pub join_slots : (count i : ℕ) → AudioAssembly → Option (List ℕ)
unfolding add_slot slot_bytes
join_slots zero i a = some []
join_slots (suc count) i a =
    add_slot (get_or a.present i false) (slot_bytes a i) (join_slots count (i + 1) a)

unfoldable pub reassemble : AudioAssembly → Option (List ℕ)
unfolding is_complete join_slots
reassemble a = if is_complete a then join_slots a.total_data 0 a else none
