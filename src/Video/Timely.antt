-- ===== src/Video/Timely.antt =====
-- A frame of UdpSender::send_frame through the media loop, whatever packets arrive in which order,
-- with the ends of batches, where the loop prunes, in between.
use screx_v.Prelude.{
  ℕ, ◌+◌, ◌<◌, ◌≤◌, ◌≡◌, ◌∙◌, ap, ap₂, sym, subst, refl, Bool, true, false, none, some, List, [],
  ◌∷◌, ◌++◌, length, get_or, set, arith, All, inl, inr, ◌⊎◌, if-preserves, replicate, Bool-cases,
  leb, Option-cases,
}
use screx_v.Video.{ReedSolomon}
use screx_v.Video.Assembly.{FrameAssembly, new, add_chunk, place_chunk, is_complete, reassemble}
use screx_v.Video.Shards.{count_present}
use screx_v.Video.Receiver.{
  Receiver, Event, decodes, lookup, remove, or_new, is_stale, receive_video, complete, after_batch,
  frame_timeout, assembly_for,
}
use screx_v.Video.Code.{AreShards}
use screx_v.Video.Pending.{
  after_batch-AllPending, AllPending, IsPending, remove-Entries, complete-frames,
  receive_video-AllPending,
}
use screx_v.Video.Pruning.{
  Young, remove-Young, lookup-Young, after_batch-stale, after_batch-IsKept, after_batch-silent,
}
use screx_v.Video.Delivery.{decoded, decoded-append, complete_decodes, complete_stale}
use screx_v.Video.Filling.{
  IsWaiting, HasMarked, header_at, added, stored, step_waits, added-HasMarked, complete_count,
  stored-IsWaiting, step_completes,
}

-- What happens at the client at a time: one of the frame's packets comes, or a batch ends.
pub data Moment : Type 0 where
  packet : (i now : ℕ) → Moment
  batch_end : (now : ℕ) → Moment

-- The places marked once the packets of a list have come.
unfoldable pub marked : List Bool → List Moment → List Bool
marked ps [] = ps
marked ps (packet i now ∷ ms) = marked (set ps i true) ms
marked ps (batch_end now ∷ ms) = marked ps ms

-- A packet is one of so many; all comes within the timeout of a frame that begins at `start`.
unfoldable pub IsTimely : (count start : ℕ) → Moment → Type 0
IsTimely count start (packet i now) = (i < count) × (start ≤ now)
IsTimely count start (batch_end now) = now ≤ start + frame_timeout

add_chunk-created :
    (i : ℕ) (payload : List ℕ) (len : ℕ) (a : FrameAssembly)
    → (add_chunk i payload len a).created_at ≡ a.created_at
unfolding add_chunk place_chunk
add_chunk-created i payload len a =
    if-preserves (λ (b : FrameAssembly). b.created_at ≡ a.created_at)
      (leb (a.total_data + a.total_parity) i) refl
      (if-preserves (λ (b : FrameAssembly). b.created_at ≡ a.created_at) (get_or a.present i false)
        refl refl)

module _ (rs : ReedSolomon) (id dc pc codec flags ts : ℕ) (shards : List (List ℕ)) (lens : ℕ → ℕ)
    (sized : AreShards shards) (counted : length shards ≡ dc + pc)
    (frame_bytes : List Bool → List ℕ)
    (gives : (ps : List Bool) (a : FrameAssembly)
      → HasMarked id dc pc codec flags ts shards lens sized counted ps a
      → dc ≤ count_present ps
      → reassemble rs a ≡ some (frame_bytes ps))
    (start : ℕ) where
  abbrev pub take_shard : ℕ → ℕ → Receiver → Receiver × List Event
  take_shard i now r =
      receive_video rs (header_at id dc pc codec flags ts shards lens sized counted i)
        (get_or shards i []) now r

  unfoldable pub receive_moments : List Moment → Receiver → List Event
  receive_moments [] r = []
  receive_moments (packet i now ∷ ms) r =
      (take_shard i now r).1 ++ receive_moments ms (take_shard i now r).0
  receive_moments (batch_end now ∷ ms) r =
      (after_batch rs now r).1 ++ receive_moments ms (after_batch rs now r).0

  stale_silent :
      (ms : List Moment) (r : Receiver)
      → is_stale id r ≡ true
      → AllPending r
      → decoded (receive_moments ms r) ≡ []
  unfolding receive_moments receive_video
  stale_silent [] r h pending = refl
  stale_silent (packet i now ∷ ms) r h pending = rw h (stale_silent ms r h pending)
  stale_silent (batch_end now ∷ ms) r h pending =
      decoded-append (after_batch rs now r).1 (receive_moments ms (after_batch rs now r).0)
      ∙ ap₂ (λ (xs ys : List Event). xs ++ ys) (after_batch-silent rs now r pending)
          (stale_silent ms (after_batch rs now r).0
            (after_batch-stale id start rs now r pending ∙ h)
            (after_batch-AllPending rs now r pending))

  added-Young :
      (r : Receiver) (i now : ℕ)
      → start ≤ now
      → Young id start r.video_frames
      → start
        ≤ (added id dc pc codec flags ts shards lens sized counted rs frame_bytes gives r i
            now).created_at
  unfolding added assembly_for new
  added-Young r i now le y =
      subst (λ t. start ≤ t)
        (sym (
          add_chunk-created i (get_or shards i []) (lens i)
            (or_new (new dc pc codec flags ts now) (lookup id r.video_frames))))
        (begun (Option-cases (lookup id r.video_frames)))
    where
      begun :
          (lookup id r.video_frames ≡ none)
            ⊎ ((a : FrameAssembly) × (lookup id r.video_frames ≡ some a))
          → start ≤ (or_new (new dc pc codec flags ts now) (lookup id r.video_frames)).created_at
      begun (inl e) =
          subst (λ o. start ≤ (or_new (new dc pc codec flags ts now) o).created_at) (sym e) le
      begun (inr (a, e)) =
          subst (λ o. start ≤ (or_new (new dc pc codec flags ts now) o).created_at) (sym e)
            (lookup-Young id start r.video_frames a y e)

  stored-Young :
      (ps : List Bool) (r : Receiver) (i now : ℕ)
      (w : IsWaiting id dc pc codec flags ts shards lens sized counted ps r) (lt : i < dc + pc)
      → start ≤ now
      → Young id start r.video_frames
      → Young id start
          (stored id dc pc codec flags ts shards lens sized counted rs frame_bytes gives ps r i now
            w lt).video_frames
  unfolding stored
  stored-Young ps r i now w lt le y =
      (λ same. added-Young r i now le y, remove-Young id start id r.video_frames y)

  batch-IsWaiting :
      (ps : List Bool) (r t : Receiver)
      → is_stale id t ≡ is_stale id r
      → lookup id t.video_frames ≡ lookup id r.video_frames
      → IsWaiting id dc pc codec flags ts shards lens sized counted ps r
      → IsWaiting id dc pc codec flags ts shards lens sized counted ps t
  batch-IsWaiting ps r t stale entry w = record {
    fresh = stale ∙ w.fresh;
    few = w.few;
    entry = moved w.entry;
  }
    where
      moved :
          ((lookup id r.video_frames ≡ none) × (ps ≡ replicate (dc + pc) false))
            ⊎ ((a : FrameAssembly) × (lookup id r.video_frames ≡ some a)
                × HasMarked id dc pc codec flags ts shards lens sized counted ps a)
          → ((lookup id t.video_frames ≡ none) × (ps ≡ replicate (dc + pc) false))
            ⊎ ((a : FrameAssembly) × (lookup id t.video_frames ≡ some a)
                × HasMarked id dc pc codec flags ts shards lens sized counted ps a)
      moved (inl (e, p)) = inl (entry ∙ e, p)
      moved (inr (a, e, h)) = inr (a, entry ∙ e, h)

  abbrev pub Decoded : List Event → Type 0
  Decoded es =
      (qs : List Bool) × (dc ≤ count_present qs)
      × (decoded es ≡ decodes (frame_bytes qs) id codec flags ts ∷ [])

  -- The frame is decoded once, from the first packet that makes it complete.
  pub fills :
      (ms : List Moment) (ps : List Bool) (r : Receiver)
      → IsWaiting id dc pc codec flags ts shards lens sized counted ps r
      → AllPending r
      → Young id start r.video_frames
      → All (IsTimely (dc + pc) start) ms
      → dc ≤ count_present (marked ps ms)
      → Decoded (receive_moments ms r)
  unfolding marked IsTimely receive_moments
  fills [] ps r w pending y b enough = absurd (omega (arith, enough, w.few))
  fills (batch_end now ∷ ms) ps r w pending y (soon, b) enough =
      let kept = after_batch-IsKept id start rs now r soon pending y in
      let rest =
        fills ms ps (after_batch rs now r).0
          (batch-IsWaiting ps r (after_batch rs now r).0
            (after_batch-stale id start rs now r pending) kept.0 w)
          (after_batch-AllPending rs now r pending) kept.1 b enough in
      (
        rest.0,
        rest.1,
        decoded-append (after_batch rs now r).1 (receive_moments ms (after_batch rs now r).0)
            ∙ ap₂ (λ (xs ys : List Event). xs ++ ys) (after_batch-silent rs now r pending) rest.2,
      )
  fills (packet i now ∷ ms) ps r w pending y ((lt, late), b) enough =
      elim (Bool-cases (is_complete a)) [
        | inl full ↦ (
          set ps i true,
          complete_count id dc pc codec flags ts shards lens sized counted (set ps i true) a
              (added-HasMarked id dc pc codec flags ts shards lens sized counted rs frame_bytes
                gives ps r i now w lt)
              full,
          rw
              (step_completes id dc pc codec flags ts shards lens sized counted rs frame_bytes gives
                ps r i now w lt full)
              (decoded-append done.1 (receive_moments ms done.0)
                ∙ ap₂ (λ (xs ys : List Event). xs ++ ys)
                    (complete_decodes (frame_bytes (set ps i true)) id codec flags ts now rest)
                    (stale_silent ms done.0
                      (complete_stale (frame_bytes (set ps i true)) id codec flags ts now rest)
                      done-AllPending)),
        )
        | inr part ↦
            rw
              (step_waits id dc pc codec flags ts shards lens sized counted rs frame_bytes gives ps
                r i now w lt part)
              (fills ms (set ps i true)
                (stored id dc pc codec flags ts shards lens sized counted rs frame_bytes gives ps r
                  i now w lt)
                (stored-IsWaiting id dc pc codec flags ts shards lens sized counted rs frame_bytes
                  gives ps r i now w lt part)
                (subst AllPending
                  (ap (λ t. t.0)
                    (step_waits id dc pc codec flags ts shards lens sized counted rs frame_bytes
                      gives ps r i now w lt part))
                  (receive_video-AllPending rs now r pending
                    (header_at id dc pc codec flags ts shards lens sized counted i)
                    (get_or shards i [])))
                (stored-Young ps r i now w lt late y) b enough)
      ]
    where
      a : FrameAssembly
      a = added id dc pc codec flags ts shards lens sized counted rs frame_bytes gives r i now

      rest : Receiver
      rest = record r { video_frames = remove id r.video_frames }

      done : Receiver × List Event
      done = complete (frame_bytes (set ps i true)) id codec flags ts now rest

      done-AllPending : AllPending done.0
      done-AllPending =
          subst (All (λ e. IsPending e.1))
            (sym (complete-frames (frame_bytes (set ps i true)) id codec flags ts now rest))
            (remove-Entries IsPending id r.video_frames pending)
