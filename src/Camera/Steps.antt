-- ===== src/Camera/Steps.antt =====
-- The branches of one step of the daemon on a camera packet.
use screx_v.Prelude.{
  ℕ, ◌+◌, ◌<◌, ◌≤◌, ◌≡◌, ◌≢◌, ◌∙◌, ap, refl, zero, suc, Bool, true, false, Option, none, some, List,
  [], ◌∷◌, length, arith, get_elem?, get_or, set, All, if◌then◌else◌, ◌==◌, replicate,
}
use screx_v.Camera.{
  CamReassembler, restart, store, deliver, joined, is_free, feed_fields, max_cam_chunks,
  chunk_packet,
}
use screx_v.Camera.Frame.{filled, IsPart}

abbrev pub contains : ℕ → List ℕ → Bool
contains i [] = false
contains i (j ∷ js) = if i == j then true else contains i js

pub true_ne_false : false ≡ true → ⊥
true_ne_false e = cc

-- The packet of the chunk with an index.
abbrev pub packet_of : ℕ → List (List ℕ) → ℕ → List ℕ
packet_of id cs i = chunk_packet id (length cs) i (get_or cs i [])

-- The daemon is in the middle of a frame.
pub record IsFilling (id : ℕ) (cs : List (List ℕ)) (r : CamReassembler) : Type 0 where
  pub current : r.current_frame_id ≡ id
  pub total : r.total_chunks ≡ length cs
  pub slots : length r.received ≡ length cs
  pub count : r.received_count ≡ filled r.received
  pub part : IsPart r.received cs
  pub more : filled r.received < length cs

-- The daemon has had all of a frame.
pub record IsSpent (id : ℕ) (cs : List (List ℕ)) (r : CamReassembler) : Type 0 where
  pub current : r.current_frame_id ≡ id
  pub total : r.total_chunks ≡ length cs
  pub empty : r.received ≡ []
  pub count : r.received_count ≡ 0
  pub some_chunks : 0 < length cs

pub restart_same :
    (r : CamReassembler) (id total : ℕ)
    → r.current_frame_id ≡ id
    → r.total_chunks ≡ total
    → restart id total r ≡ r
unfolding restart
restart_same r id total e f = ground arith

pub restart_fresh :
    (r : CamReassembler) (id total : ℕ)
    → r.current_frame_id ≢ id
    → restart id total r ≡ record {
      current_frame_id = id;
      total_chunks = total;
      received = replicate total none;
      received_count = 0;
    }
unfolding restart
restart_fresh r id total n = ground arith

pub deliver-none : (r : CamReassembler) → r.received_count ≢ r.total_chunks → deliver r ≡ (r, none)
unfolding deliver
deliver-none r h = ground arith

pub deliver-some :
    (r : CamReassembler)
    → r.received_count ≡ r.total_chunks
    → deliver r ≡ (record r { received = []; received_count = 0 }, some (joined r.received))
unfolding deliver
deliver-some r h = ground arith

pub store_taken :
    (i : ℕ) (c : List ℕ) (r : CamReassembler) → is_free r.received i ≡ false → store i c r ≡ r
unfolding store
store_taken i c r h = rw h refl

pub store_free :
    (i : ℕ) (c : List ℕ) (r : CamReassembler)
    → is_free r.received i ≡ true
    → store i c r
      ≡ record r { received = set r.received i (some c); received_count = r.received_count + 1 }
unfolding store
store_free i c r h = rw h refl

pub feed_fields_same :
    (r : CamReassembler) (id total i : ℕ) (c : List ℕ)
    → r.current_frame_id ≡ id
    → r.total_chunks ≡ total
    → 0 < total
    → total ≤ max_cam_chunks
    → feed_fields id i total c r ≡ deliver (store i c r)
unfolding feed_fields
feed_fields_same r id total i c e f p h = rw (restart_same r id total e f) (ground arith)

pub feed_fields_fresh :
    (r : CamReassembler) (id total i : ℕ) (c : List ℕ)
    → r.current_frame_id ≢ id
    → 0 < total
    → total ≤ max_cam_chunks
    → feed_fields id i total c r
      ≡ deliver (
          store i c (record {
            current_frame_id = id;
            total_chunks = total;
            received = replicate total none;
            received_count = 0;
          }))
unfolding feed_fields
feed_fields_fresh r id total i c n p h = rw (restart_fresh r id total n) (ground arith)

pub free_lt : (n j : ℕ) → is_free (replicate n none) j ≡ true → j < n
free_lt zero j h = absurd (true_ne_false h)
free_lt (suc n) zero h = omega arith
free_lt (suc n) (suc j) h = omega (arith, free_lt n j h)

pub spent_step :
    (id : ℕ) (cs : List (List ℕ)) (r : CamReassembler) (i : ℕ) (c : List ℕ)
    → IsSpent id cs r
    → length cs ≤ max_cam_chunks
    → feed_fields id i (length cs) c r ≡ (r, none)
spent_step id cs r i c h m =
    feed_fields_same r id (length cs) i c h.current h.total h.some_chunks m
    ∙ ap deliver (store_taken i c r (ap (λ slots. is_free slots i) h.empty))
    ∙ deliver-none r (λ e. absurd (omega (arith, e, h.count, h.total, h.some_chunks)))

pub free_slot :
    (slots : List (Option (List ℕ)))
    → filled slots < length slots
    → (i : ℕ) × (i < length slots) × (is_free slots i ≡ true)
free_slot [] h = absurd (omega arith)
free_slot (none ∷ slots) h = (0, omega arith, refl)
free_slot (some c ∷ slots) h = later (free_slot slots (omega arith))
  where
    later :
        (i : ℕ) × (i < length slots) × (is_free slots i ≡ true)
        → (i : ℕ) × (i < suc (length slots)) × (is_free (some c ∷ slots) i ≡ true)
    later (i, lt, free) = (suc i, omega arith, free)

pub free_before :
    (slots : List (Option (List ℕ))) (i j : ℕ) (c : List ℕ)
    → is_free (set slots i (some c)) j ≡ true
    → (is_free slots j ≡ true) × (j ≢ i)
free_before [] i j c h = absurd cc
free_before (none ∷ slots) zero zero c h = absurd cc
free_before (some _ ∷ slots) zero zero c h = absurd cc
free_before (none ∷ slots) zero (suc j) c h = (h, omega arith)
free_before (some _ ∷ slots) zero (suc j) c h = (h, omega arith)
free_before (none ∷ slots) (suc i) zero c h = (refl, omega arith)
free_before (some _ ∷ slots) (suc i) zero c h = absurd cc
free_before (none ∷ slots) (suc i) (suc j) c h =
    ((free_before slots i j c h).0, (λ e. (free_before slots i j c h).1 (omega arith)))
free_before (some _ ∷ slots) (suc i) (suc j) c h =
    ((free_before slots i j c h).0, (λ e. (free_before slots i j c h).1 (omega arith)))

pub get_elem?-get_or :
    (cs : List (List ℕ)) (i : ℕ) → i < length cs → get_elem? cs i ≡ some (get_or cs i [])
get_elem?-get_or [] i h = absurd (omega arith)
get_elem?-get_or (c ∷ cs) zero h = refl
get_elem?-get_or (c ∷ cs) (suc i) h = get_elem?-get_or cs i (omega arith)

-- The indices are of chunks of a frame.
abbrev pub IsIndexed : List (List ℕ) → List ℕ → Type 0
IsIndexed cs is = All (λ i. i < length cs) is
