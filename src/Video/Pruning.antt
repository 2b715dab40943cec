-- ===== src/Video/Pruning.antt =====
-- What the pruning at the end of a batch leaves of one frame, when no assembly in the map could be put
-- together.
use screx_v.Prelude.{
  ℕ, ◌+◌, ◌-◌, ◌≤◌, ◌≡◌, ◌≢◌, ◌∙◌, ap, sym, subst, refl, Bool, true, false, Option, none, some,
  List, [], ◌∷◌, arith, All, inl, inr, if-preserves, if◌then◌else◌, leb, ltb, ◌==◌, Bool-cases,
}
use screx_v.Video.{ReedSolomon}
use screx_v.Video.Assembly.{FrameAssembly}
use screx_v.Video.Receiver.{
  Receiver, Event, lookup, remove, or_new, is_stale, is_expired, expire_all, prune, request_pli,
  prune_interval, frame_timeout, after_batch,
}
use screx_v.Video.Pending.{IsPending, AllPending, Entries, expire_lost, prune_only_asks}
use screx_v.Video.Delivery.{decoded}

same_number : (m n : ℕ) → (m == n) ≡ true → m ≡ n
same_number m n h = ground arith

too_old :
    (start now created : ℕ)
    → now ≤ start + frame_timeout
    → start ≤ created
    → ltb frame_timeout (now - created) ≡ true
    → ⊥
too_old start now created soon le old = ground arith

branch_true :
    {A : Type 0} {x z : A} (y : A) {c : Bool} → c ≡ true → (if c then x else y) ≡ z → x ≡ z
branch_true {x = x} {z = z} y h e = subst (λ b. (if b then x else y) ≡ z) h e

branch_false :
    {A : Type 0} {y z : A} (x : A) {c : Bool} → c ≡ false → (if c then x else y) ≡ z → y ≡ z
branch_false {y = y} {z = z} x h e = subst (λ b. (if b then x else y) ≡ z) h e

module _ (id start : ℕ) where
  -- The entries of the frame were begun at the time `start` or later.
  abbrev pub Young : List (ℕ × FrameAssembly) → Type 0
  Young entries = All (λ e. e.0 ≡ id → start ≤ e.1.created_at) entries

  pub remove-Young :
      (k : ℕ) (entries : List (ℕ × FrameAssembly)) → Young entries → Young (remove k entries)
  unfolding remove
  remove-Young k [] y = tt
  remove-Young k ((j, a) ∷ entries) (y, ys) =
      if-preserves Young (k == j) (remove-Young k entries ys) (y, remove-Young k entries ys)

  pub lookup-Young :
      (entries : List (ℕ × FrameAssembly)) (a : FrameAssembly)
      → Young entries
      → lookup id entries ≡ some a
      → start ≤ a.created_at
  unfolding lookup
  lookup-Young [] a y e = absurd cc
  lookup-Young ((k, b) ∷ entries) a (y, ys) e = elim (Bool-cases (id == k)) [
    | inl same ↦ begun b a (y (sym (same_number id k same))) (branch_true _ same e)
    | inr other ↦ lookup-Young entries a ys (branch_false _ other e)
  ]
    where
      begun :
          (b a : FrameAssembly)
          → start ≤ b.created_at
          → Path (Option FrameAssembly) (some b) (some a)
          → start ≤ a.created_at
      begun b a le same = subst (λ c. start ≤ c.created_at) (ap (or_new b) same) le

  pub absent-Young : (entries : List (ℕ × FrameAssembly)) → lookup id entries ≡ none → Young entries
  unfolding lookup
  absent-Young [] e = tt
  absent-Young ((k, b) ∷ entries) e = elim (Bool-cases (id == k)) [
    | inl same ↦ absurd (taken b (branch_true _ same e))
    | inr other ↦ (
      λ here. absurd (differ id k other (sym here)),
      absent-Young entries (branch_false _ other e),
    )
  ]
    where
      taken : (b : FrameAssembly) → Path (Option FrameAssembly) (some b) none → ⊥
      taken b e = cc

      differ : (m n : ℕ) → (m == n) ≡ false → m ≡ n → ⊥
      differ m n h e = ground arith

  pub lookup-remove :
      (k : ℕ) (entries : List (ℕ × FrameAssembly))
      → k ≢ id
      → lookup id (remove k entries) ≡ lookup id entries
  unfolding lookup remove
  lookup-remove k [] ne = refl
  lookup-remove k ((j, a) ∷ entries) ne = elim (Bool-cases (k == j)) [
    | inl same ↦ rw (same, other_key id k j ne (same_number k j same)) (lookup-remove k entries ne)
    | inr other ↦ rw other (ap (λ o. if id == j then some a else o) (lookup-remove k entries ne))
  ]
    where
      other_key : (id k j : ℕ) → k ≢ id → k ≡ j → (id == j) ≡ false
      other_key id k j ne e = ground arith

  -- The frame's entry is as it was.
  abbrev pub IsKept : Receiver → Receiver → Type 0
  IsKept r t = (lookup id t.video_frames ≡ lookup id r.video_frames) × Young t.video_frames

  expire_all-stale :
      (rs : ReedSolomon) (entries : List (ℕ × FrameAssembly)) (now : ℕ) (r : Receiver)
      → Entries IsPending entries
      → is_stale id (expire_all rs entries now r).0 ≡ is_stale id r
  unfolding expire_all is_stale
  expire_all-stale rs [] now r hs = refl
  expire_all-stale rs ((k, a) ∷ entries) now r (p, ps) =
      if-preserves (λ (t : Receiver × List Event × Bool). is_stale id t.0 ≡ is_stale id r)
        (is_expired now a.created_at)
        (rw (expire_lost rs k a now (record r { video_frames = remove k r.video_frames }) p) (
          expire_all-stale rs entries now (record r { video_frames = remove k r.video_frames }) ps))
        (expire_all-stale rs entries now r ps)

  expire_all-IsKept :
      (rs : ReedSolomon) (entries : List (ℕ × FrameAssembly)) (now : ℕ) (r : Receiver)
      → now ≤ start + frame_timeout
      → Entries IsPending entries
      → Young entries
      → Young r.video_frames
      → IsKept r (expire_all rs entries now r).0
  unfolding expire_all is_expired
  expire_all-IsKept rs [] now r soon hs ys y = (refl, y)
  expire_all-IsKept rs ((k, a) ∷ entries) now r soon (p, ps) (ye, ys) y =
      elim (Bool-cases (ltb frame_timeout (now - a.created_at))) [
        | inl old ↦
            rw (old, expire_lost rs k a now (record r { video_frames = remove k r.video_frames }) p)
              (without
                (expire_all rs entries now (record r { video_frames = remove k r.video_frames })).0
                old
                (expire_all-IsKept rs entries now
                  (record r { video_frames = remove k r.video_frames }) soon ps ys
                  (remove-Young k r.video_frames y)))
        | inr new ↦ rw new (expire_all-IsKept rs entries now r soon ps ys y)
      ]
    where
      is_other : ltb frame_timeout (now - a.created_at) ≡ true → k ≢ id
      is_other old same = too_old start now a.created_at soon (ye same) old

      without :
          (t : Receiver)
          → ltb frame_timeout (now - a.created_at) ≡ true
          → IsKept (record r { video_frames = remove k r.video_frames }) t
          → IsKept r t
      without t old (entry, young) = (entry ∙ lookup-remove k r.video_frames (is_other old), young)

  pub after_batch-stale :
      (rs : ReedSolomon) (now : ℕ) (r : Receiver)
      → AllPending r
      → is_stale id (after_batch rs now r).0 ≡ is_stale id r
  unfolding after_batch prune request_pli is_stale
  after_batch-stale rs now r h =
      if-preserves (λ (t : Receiver × List Event). is_stale id t.0 ≡ is_stale id r)
        (leb prune_interval (now - r.last_prune))
        (if-preserves (λ (t : Receiver × List Event). is_stale id t.0 ≡ is_stale id r)
          (expire_all rs r.video_frames now r).2 (expire_all-stale rs r.video_frames now r h)
          (expire_all-stale rs r.video_frames now r h))
        refl

  pub after_batch-IsKept :
      (rs : ReedSolomon) (now : ℕ) (r : Receiver)
      → now ≤ start + frame_timeout
      → AllPending r
      → Young r.video_frames
      → IsKept r (after_batch rs now r).0
  unfolding after_batch prune request_pli
  after_batch-IsKept rs now r soon h y =
      if-preserves (λ (t : Receiver × List Event). IsKept r t.0)
        (leb prune_interval (now - r.last_prune))
        (if-preserves (λ (t : Receiver × List Event). IsKept r t.0)
          (expire_all rs r.video_frames now r).2 kept kept)
        (refl, y)
    where
      kept : IsKept r (expire_all rs r.video_frames now r).0
      kept = expire_all-IsKept rs r.video_frames now r soon h y y

pub after_batch-silent :
    (rs : ReedSolomon) (now : ℕ) (r : Receiver)
    → AllPending r
    → decoded (after_batch rs now r).1 ≡ []
unfolding after_batch
after_batch-silent rs now r h =
    if-preserves (λ (t : Receiver × List Event). decoded t.1 ≡ [])
      (leb prune_interval (now - r.last_prune))
      (elim (prune_only_asks rs now r h) [
        | inl none_sent ↦ ap decoded none_sent
        | inr one_sent ↦ ap decoded one_sent
      ])
      refl
