-- ===== src/Camera/Frame.antt =====
-- What `CamReassembler` holds of the frames that were sent.
use screx_v.Prelude.{
  ℕ, ◌+◌, ◌≤◌, ◌≡◌, ◌∙◌, ap, ap₂, sym, subst, inl, inr, refl, zero, suc, true, ◌&&◌, ◌||◌, Option,
  none, some, List, [], ◌∷◌, ◌++◌, length, ltb, arith, ◌==◌, if-preserves, replicate, get_elem?,
  set, concat, Bool-cases,
}
use screx_v.Camera.{
  CamReassembler, restart, store, deliver, is_free, joined, feed_fields, max_cam_chunks,
}

-- How many slots are filled.
abbrev pub filled : List (Option (List ℕ)) → ℕ
filled [] = 0
filled (none ∷ slots) = filled slots
filled (some _ ∷ slots) = suc (filled slots)

-- The slots hold chunks of a frame, each at its place.
abbrev pub IsPart : List (Option (List ℕ)) → List (List ℕ) → Type 0
IsPart [] cs = Unit {0}
IsPart (_ ∷ _) [] = ⊥
IsPart (none ∷ slots) (c ∷ cs) = IsPart slots cs
IsPart (some d ∷ slots) (c ∷ cs) = (d ≡ c) × IsPart slots cs

filled_le :
    (slots : List (Option (List ℕ))) (cs : List (List ℕ))
    → IsPart slots cs
    → filled slots ≤ length cs
filled_le [] cs h = omega arith
filled_le (_ ∷ _) [] h = absurd h
filled_le (none ∷ slots) (c ∷ cs) h = omega (arith, filled_le slots cs h)
filled_le (some d ∷ slots) (c ∷ cs) (_, h) = omega (arith, filled_le slots cs h)

pub joined_full :
    (slots : List (Option (List ℕ))) (cs : List (List ℕ))
    → IsPart slots cs
    → filled slots ≡ length cs
    → joined slots ≡ concat cs
joined_full [] [] h n = refl
joined_full [] (c ∷ cs) h n = absurd (omega arith)
joined_full (_ ∷ _) [] h n = absurd h
joined_full (none ∷ slots) (c ∷ cs) h n = absurd (omega (arith, filled_le slots cs h))
joined_full (some d ∷ slots) (c ∷ cs) (e, h) n =
    ap₂ (λ (x y : List ℕ). x ++ y) e (joined_full slots cs h (omega arith))

pub replicate-IsPart : (n : ℕ) (cs : List (List ℕ)) → n ≤ length cs → IsPart (replicate n none) cs
replicate-IsPart zero cs h = tt
replicate-IsPart (suc n) [] h = absurd (omega arith)
replicate-IsPart (suc n) (c ∷ cs) h = replicate-IsPart n cs (omega arith)

pub filled-replicate : (n : ℕ) → filled (replicate n none) ≡ 0
filled-replicate zero = refl
filled-replicate (suc n) = filled-replicate n

pub set-IsPart :
    (slots : List (Option (List ℕ))) (cs : List (List ℕ)) (i : ℕ) (c : List ℕ)
    → IsPart slots cs
    → get_elem? cs i ≡ some c
    → IsPart (set slots i (some c)) cs
set-IsPart [] cs i c h e = tt
set-IsPart (_ ∷ _) [] i c h e = absurd h
set-IsPart (none ∷ slots) (d ∷ cs) zero c h e = (cc, h)
set-IsPart (some _ ∷ slots) (d ∷ cs) zero c (_, h) e = (cc, h)
set-IsPart (none ∷ slots) (d ∷ cs) (suc i) c h e = set-IsPart slots cs i c h e
set-IsPart (some _ ∷ slots) (d ∷ cs) (suc i) c (x, h) e = (x, set-IsPart slots cs i c h e)

pub filled-set :
    (slots : List (Option (List ℕ))) (i : ℕ) (c : List ℕ)
    → is_free slots i ≡ true
    → filled (set slots i (some c)) ≡ filled slots + 1
filled-set [] i c h = absurd cc
filled-set (none ∷ slots) zero c h = omega arith
filled-set (some _ ∷ slots) zero c h = absurd cc
filled-set (none ∷ slots) (suc i) c h = filled-set slots i c h
filled-set (some _ ∷ slots) (suc i) c h = omega (arith, filled-set slots i c h)

-- What the daemon holds of the frames that were sent: chunks of the current one, and their count.
abbrev pub Tracks : (ℕ → List (List ℕ)) → CamReassembler → Type 0
Tracks sent r = (r.received_count ≡ filled r.received) × IsPart r.received (sent r.current_frame_id)

restart-Tracks :
    (sent : ℕ → List (List ℕ)) (r : CamReassembler) (id : ℕ)
    → Tracks sent r
    → Tracks sent (restart id (length (sent id)) r)
unfolding restart
restart-Tracks sent r id h =
    if-preserves (Tracks sent) ((id == r.current_frame_id) && (length (sent id) == r.total_chunks))
      h
      (
        sym (filled-replicate (length (sent id))),
        replicate-IsPart (length (sent id)) (sent id) (omega arith),
      )

restart_current :
    (r : CamReassembler) (id total : ℕ)
    → ((restart id total r).current_frame_id ≡ id) × ((restart id total r).total_chunks ≡ total)
unfolding restart
restart_current r id total = ground arith

store-Tracks :
    (sent : ℕ → List (List ℕ)) (r : CamReassembler) (i : ℕ) (c : List ℕ)
    → Tracks sent r
    → get_elem? (sent r.current_frame_id) i ≡ some c
    → Tracks sent (store i c r)
unfolding store
store-Tracks sent r i c (n, h) e = elim (Bool-cases (is_free r.received i)) [
  | inl free ↦ rw free (
    rw (filled-set r.received i c free, n) refl,
    set-IsPart r.received (sent r.current_frame_id) i c h e,
  )
  | inr taken ↦ rw taken (n, h)
]

store_same :
    (r : CamReassembler) (i : ℕ) (c : List ℕ)
    → ((store i c r).current_frame_id ≡ r.current_frame_id)
      × ((store i c r).total_chunks ≡ r.total_chunks)
unfolding store
store_same r i c = ground arith

-- What a step may emit: nothing, or the frame of that number.
abbrev pub IsOf : List (List ℕ) → Option (List ℕ) → Type 0
IsOf cs none = Unit {0}
IsOf cs (some jpeg) = jpeg ≡ concat cs

deliver_sound :
    (sent : ℕ → List (List ℕ)) (r : CamReassembler)
    → Tracks sent r
    → r.total_chunks ≡ length (sent r.current_frame_id)
    → Tracks sent (deliver r).0 × IsOf (sent r.current_frame_id) (deliver r).1
unfolding deliver
deliver_sound sent r (n, h) t = elim (Bool-cases (r.received_count == r.total_chunks)) [
  | inl e ↦ rw e ((refl, tt), joined_full r.received (sent r.current_frame_id) h (ground arith))
  | inr e ↦ rw e ((n, h), tt)
]

pub feed_fields_sound :
    (sent : ℕ → List (List ℕ)) (r : CamReassembler) (id i : ℕ) (c : List ℕ)
    → Tracks sent r
    → get_elem? (sent id) i ≡ some c
    → Tracks sent (feed_fields id i (length (sent id)) c r).0
      × IsOf (sent id) (feed_fields id i (length (sent id)) c r).1
unfolding feed_fields
feed_fields_sound sent r id i c h e =
    if-preserves (λ (p : CamReassembler × Option (List ℕ)). Tracks sent p.0 × IsOf (sent id) p.1)
      ((length (sent id) == 0) || ltb max_cam_chunks (length (sent id))) (h, tt)
      (delivered.0, subst (λ (k : ℕ). IsOf (sent k) (deliver stored).1) current delivered.1)
  where
    fresh : CamReassembler
    fresh = restart id (length (sent id)) r

    stored : CamReassembler
    stored = store i c fresh

    current : stored.current_frame_id ≡ id
    current = (store_same fresh i c).0 ∙ (restart_current r id (length (sent id))).0

    total : stored.total_chunks ≡ length (sent stored.current_frame_id)
    total =
        (store_same fresh i c).1
        ∙ (restart_current r id (length (sent id))).1
        ∙ sym (ap (λ k. length (sent k)) current)

    chunk : get_elem? (sent fresh.current_frame_id) i ≡ some c
    chunk = rw ((restart_current r id (length (sent id))).0) e

    delivered :
        Tracks sent (deliver stored).0 × IsOf (sent stored.current_frame_id) (deliver stored).1
    delivered =
        deliver_sound sent stored (store-Tracks sent fresh i c (restart-Tracks sent r id h) chunk)
          total
