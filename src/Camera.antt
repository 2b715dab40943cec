-- ===== src/Camera.antt =====
-- Camera frames cut into packets and put together again: send_camera_frame of
-- client/desktop/src/webcam_capture.rs and CamReassembler of daemon/src/camera.rs.
pub mod Frame
pub mod Wire
pub mod Steps
pub mod Complete
mod Tests
use screx_v.Prelude.{
  ℕ, ◌+◌, ◌-◌, ◌*◌, ◌/◌, zero, suc, Bool, true, false, ◌&&◌, ◌||◌, not, Option, none, some, List,
  [], ◌∷◌, ◌++◌, length, drop, ltb, ◌==◌, if◌then◌else◌, replicate, get_or, set, chunks, map,
}
use screx_v.Bytes.{be16, be32, from_be16, from_be32, as_u16}

abbrev pub chunk_size : ℕ
chunk_size = 1300

abbrev pub cam_magic : List ℕ
cam_magic = 67 ∷ 65 ∷ 77 ∷ []

abbrev pub max_cam_chunks : ℕ
max_cam_chunks = 4096

-- The packet of one chunk.
unfoldable pub chunk_packet : (frame_id total_chunks chunk_idx : ℕ) → List ℕ → List ℕ
chunk_packet frame_id total_chunks chunk_idx chunk =
    cam_magic ++ be32 frame_id ++ be16 (as_u16 chunk_idx) ++ be16 (as_u16 total_chunks) ++ chunk

unfoldable pub packets_from : (frame_id total_chunks chunk_idx : ℕ) → List (List ℕ) → List (List ℕ)
unfolding chunk_packet
packets_from frame_id total_chunks chunk_idx [] = []
packets_from frame_id total_chunks chunk_idx (chunk ∷ rest) =
    chunk_packet frame_id total_chunks chunk_idx chunk
    ∷ packets_from frame_id total_chunks (chunk_idx + 1) rest

-- The packets of a frame, in the order they are sent.
unfoldable pub send_camera_frame : ℕ → List ℕ → List (List ℕ)
unfolding packets_from chunks
send_camera_frame frame_id jpeg_data =
    packets_from frame_id ((length jpeg_data + chunk_size - 1) / chunk_size) 0
      (chunks chunk_size jpeg_data)

pub record CamReassembler : Type 0 where
  current_frame_id : ℕ
  total_chunks : ℕ
  received : List (Option (List ℕ))
  received_count : ℕ

unfoldable pub new : CamReassembler
new = record { current_frame_id = 0; total_chunks = 0; received = []; received_count = 0 }

-- Another frame, or another number of chunks, starts over.
unfoldable pub restart : (frame_id total : ℕ) → CamReassembler → CamReassembler
restart frame_id total r =
    if (frame_id == r.current_frame_id) && (total == r.total_chunks) then r else record {
      current_frame_id = frame_id;
      total_chunks = total;
      received = replicate total none;
      received_count = 0;
    }

-- Whether there is a slot at an index, and nothing in it.
abbrev pub is_free : List (Option (List ℕ)) → ℕ → Bool
is_free [] i = false
is_free (none ∷ slots) zero = true
is_free (some _ ∷ slots) zero = false
is_free (_ ∷ slots) (suc i) = is_free slots i

unfoldable pub store : (chunk_idx : ℕ) → List ℕ → CamReassembler → CamReassembler
store chunk_idx payload r =
    if is_free r.received chunk_idx
    then record r {
      received = set r.received chunk_idx (some payload);
      received_count = r.received_count + 1;
    }
    else r

-- The chunks there are, joined.
abbrev pub joined : List (Option (List ℕ)) → List ℕ
joined [] = []
joined (none ∷ slots) = joined slots
joined (some chunk ∷ slots) = chunk ++ joined slots

unfoldable pub deliver : CamReassembler → CamReassembler × Option (List ℕ)
deliver r =
    if r.received_count == r.total_chunks
    then (record r { received = []; received_count = 0 }, some (joined r.received))
    else (r, none)

unfoldable pub feed_fields :
    (frame_id chunk_idx total : ℕ) → List ℕ → CamReassembler → CamReassembler × Option (List ℕ)
unfolding restart store deliver
feed_fields frame_id chunk_idx total payload r =
    if (total == 0) || ltb max_cam_chunks total
    then (r, none)
    else deliver (store chunk_idx payload (restart frame_id total r))

-- One packet without its magic: the state after it, and the frame it completes.
unfoldable pub feed : List ℕ → CamReassembler → CamReassembler × Option (List ℕ)
unfolding feed_fields from_be16 from_be32
feed (f1 ∷ f2 ∷ f3 ∷ f4 ∷ c1 ∷ c2 ∷ t1 ∷ t2 ∷ payload) r =
    feed_fields (from_be32 f1 f2 f3 f4) (from_be16 c1 c2) (from_be16 t1 t2) payload r
feed _ r = (r, none)

-- The frame of one step before those of the later ones.
abbrev pub emit : Option (List ℕ) → List (List ℕ) → List (List ℕ)
emit none later = later
emit (some jpeg) later = jpeg ∷ later

-- The frames that a sequence of packets completes.
unfoldable pub feed_all : List (List ℕ) → CamReassembler → List (List ℕ)
unfolding feed
feed_all [] r = []
feed_all (p ∷ ps) r = emit (feed p r).1 (feed_all ps (feed p r).0)
