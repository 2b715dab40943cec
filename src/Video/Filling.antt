-- ===== src/Video/Filling.antt =====
-- The media loop while the packets of one frame arrive.
use screx_v.Prelude.{
  ℕ, ◌+◌, ◌<◌, ◌≤◌, ◌≡◌, ◌∙◌, ap, sym, subst, refl, zero, suc, Bool, true, false, none, some, List,
  [], ◌∷◌, length, get_or, set, arith, replicate, inl, inr, ◌⊎◌, Bool-cases, if◌then◌else◌, ◌==◌,
  leb, not_leb,
}
use screx_v.Video.{ReedSolomon}
use screx_v.Video.Assembly.{
  FrameAssembly, new, add_chunk, place_chunk, all_present, is_complete, reassemble,
}
use screx_v.Video.Shards.{Holds, count_present, new-Holds, add_chunk-Holds}
use screx_v.Video.Receiver.{
  Header, Receiver, Event, lookup, remove, or_new, is_stale, assembly_for, receive_video, finish,
  complete,
}
use screx_v.Video.Pending.{IsPending, incomplete-IsPending}
use screx_v.Video.Code.{AreShards, get_or-AreShards}

set_same : (ps : List Bool) (i : ℕ) → get_or ps i false ≡ true → set ps i true ≡ ps
set_same [] i h = refl
set_same (p ∷ ps) zero h = ap (λ q. q ∷ ps) (sym h)
set_same (p ∷ ps) (suc i) h = ap (λ qs. p ∷ qs) (set_same ps i h)

all_present_le : (n : ℕ) (ps : List Bool) → all_present n ps ≡ true → n ≤ count_present ps
unfolding all_present
all_present_le zero ps h = omega arith
all_present_le (suc n) [] h = absurd cc
all_present_le (suc n) (true ∷ ps) h = omega (arith, all_present_le n ps h)
all_present_le (suc n) (false ∷ ps) h = absurd cc

lookup_self :
    (id : ℕ) (a : FrameAssembly) (entries : List (ℕ × FrameAssembly))
    → lookup id ((id, a) ∷ entries) ≡ some a
unfolding lookup
lookup_self id a entries = rw (same id) refl
  where
    same : (n : ℕ) → (n == n) ≡ true
    same n = ground arith

module _ (id dc pc codec flags ts : ℕ) (shards : List (List ℕ)) (lens : ℕ → ℕ)
    (sized : AreShards shards) (counted : length shards ≡ dc + pc) where
  abbrev pub header_at : ℕ → Header
  header_at i = record {
    frame_id = id;
    chunk_idx = i;
    total_data = dc;
    total_parity = pc;
    flags = flags;
    codec_id = codec;
    payload_len = lens i;
    timestamp_ms = ts;
  }

  -- The assembly of the frame holds its shards, those at the marked places.
  pub record HasMarked (ps : List Bool) (a : FrameAssembly) : Type 0 where
    pub holds : Holds dc pc shards lens a
    pub marked : a.present ≡ ps

  add_chunk_present :
      (i : ℕ) (a : FrameAssembly)
      → Holds dc pc shards lens a
      → i < dc + pc
      → (add_chunk i (get_or shards i []) (lens i) a).present ≡ set a.present i true
  unfolding add_chunk place_chunk
  add_chunk_present i a h lt =
      rw
        (not_leb {a = i} {b = a.total_data + a.total_parity}
          (omega (arith, h.data_total, h.parity_total)))
        (elim (Bool-cases (get_or a.present i false)) [
          | inl there ↦ rw there (sym (set_same a.present i there))
          | inr free ↦ rw free refl
        ])

  pub add_chunk-HasMarked :
      (ps : List Bool) (i : ℕ) (a : FrameAssembly)
      → HasMarked ps a
      → i < dc + pc
      → HasMarked (set ps i true) (add_chunk i (get_or shards i []) (lens i) a)
  add_chunk-HasMarked ps i a h lt = record {
    holds =
        add_chunk-Holds dc pc shards lens a h.holds i lt
          (get_or-AreShards shards i sized (omega (arith, counted)));
    marked = add_chunk_present i a h.holds lt ∙ ap (λ qs. set qs i true) h.marked;
  }

  -- The frame is not out of date, and fewer shards are there than it takes.
  pub record IsWaiting (ps : List Bool) (r : Receiver) : Type 0 where
    pub fresh : is_stale id r ≡ false
    pub few : count_present ps < dc
    pub entry :
        ((lookup id r.video_frames ≡ none) × (ps ≡ replicate (dc + pc) false))
        ⊎ ((a : FrameAssembly) × (lookup id r.video_frames ≡ some a) × HasMarked ps a)

  assembly-HasMarked :
      (ps : List Bool) (r : Receiver) (i now : ℕ)
      → IsWaiting ps r
      → HasMarked ps (assembly_for (header_at i) now r)
  unfolding assembly_for new
  assembly-HasMarked ps r i now w = by_entry w.entry
    where
      by_entry :
          ((lookup id r.video_frames ≡ none) × (ps ≡ replicate (dc + pc) false))
            ⊎ ((a : FrameAssembly) × (lookup id r.video_frames ≡ some a) × HasMarked ps a)
          → HasMarked ps (assembly_for (header_at i) now r)
      by_entry (inl (e, p)) =
          subst (λ o. HasMarked ps (or_new (new dc pc codec flags ts now) o)) (sym e)
            (record { holds = new-Holds dc pc shards lens codec flags ts now; marked = sym p })
      by_entry (inr (a, e, h)) =
          subst (λ o. HasMarked ps (or_new (new dc pc codec flags ts now) o)) (sym e) h

  module _ (ps : List Bool) (a : FrameAssembly) (h : HasMarked ps a) where
    received_lem : a.received_count ≡ count_present ps
    received_lem = h.holds.count ∙ ap count_present h.marked

    pub complete_count : is_complete a ≡ true → dc ≤ count_present ps
    unfolding is_complete
    complete_count e = elim (Bool-cases (a.total_parity == 0)) [
      | inl without ↦ omega (
        arith,
        received_lem,
        h.holds.count,
        h.holds.data_total,
        all_present_le a.total_data a.present (sym (ap branch without) ∙ e),
      )
      | inr with ↦ ground (arith, received_lem, h.holds.data_total, sym (ap branch with) ∙ e)
    ]
      where
        branch : Bool → Bool
        branch b =
            if b then all_present a.total_data a.present else leb a.total_data a.received_count

    incomplete_count : is_complete a ≡ false → count_present ps < dc
    incomplete_count e = omega (arith, received_lem, h.holds.data_total, pending.more)
      where
        pending : IsPending a
        pending =
            incomplete-IsPending a
              (record {
                slots = omega (arith, h.holds.slots, h.holds.data_total, h.holds.parity_total);
                count = h.holds.count;
              })
              e

  -- What `reassemble` gives once enough shards are there.
  module _ (rs : ReedSolomon) (frame_bytes : List Bool → List ℕ)
      (gives : (ps : List Bool) (a : FrameAssembly)
        → HasMarked ps a
        → dc ≤ count_present ps
        → reassemble rs a ≡ some (frame_bytes ps)) where
    unfoldable pub added : Receiver → ℕ → ℕ → FrameAssembly
    added r i now = add_chunk i (get_or shards i []) (lens i) (assembly_for (header_at i) now r)

    module _ (ps : List Bool) (r : Receiver) (i now : ℕ) (w : IsWaiting ps r)
        (lt : i < dc + pc) where
      pub added-HasMarked : HasMarked (set ps i true) (added r i now)
      unfolding added
      added-HasMarked =
          add_chunk-HasMarked ps i (assembly_for (header_at i) now r)
            (assembly-HasMarked ps r i now w) lt

      abbrev pub step : Receiver × List Event
      step = receive_video rs (header_at i) (get_or shards i []) now r

      unfoldable pub stored : Receiver
      stored = record r { video_frames = (id, added r i now) ∷ remove id r.video_frames }

      pub step_waits : is_complete (added r i now) ≡ false → step ≡ (stored, [])
      unfolding receive_video added stored
      step_waits e = rw (w.fresh, e) refl

      pub stored-IsWaiting : is_complete (added r i now) ≡ false → IsWaiting (set ps i true) stored
      unfolding stored is_stale
      stored-IsWaiting e = record {
        fresh = w.fresh;
        few = incomplete_count (set ps i true) (added r i now) added-HasMarked e;
        entry = inr (
          added r i now,
          lookup_self id (added r i now) (remove id r.video_frames),
          added-HasMarked,
        );
      }

      pub step_completes :
          is_complete (added r i now) ≡ true
          → step
            ≡ complete
                (frame_bytes (set ps i true))
                id
                codec
                flags
                ts
                now
                (record r { video_frames = remove id r.video_frames })
      unfolding receive_video added finish
      step_completes e =
          rw (w.fresh, e)
            (ap (λ o. finish o (header_at i) now r)
              (gives (set ps i true) (added r i now) added-HasMarked
                (complete_count (set ps i true) (added r i now) added-HasMarked e)))
