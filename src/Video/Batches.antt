-- ===== src/Video/Batches.antt =====
-- UdpSender::send_frame_batch and what a frame leaves in the sender.
use screx_v.Prelude.{
  ℕ, ◌+◌, ◌-◌, ◌%◌, ◌^◌, ◌<◌, ◌≤◌, ◌≡◌, ◌∙◌, ap, sym, subst, refl, zero, suc, min, Bool, true,
  false, Option, none, some, List, [], ◌∷◌, ◌++◌, length, take, drop, get_or, arith, lt_or_le,
  not_leb, le→leb, inl, inr, ◌⊎◌, Bool-cases, if◌then◌else◌, drop-drop, take_all,
}
use screx_v.Adaptive.{StreamTuning}
use screx_v.Video.{
  Sockets, send_each, send_batches, batch_result, after_frame, send_frame_batch,
  sendmmsg_batch_size, UdpSender, send_frame, frame_packets, parity_percent, Frame, ReedSolomon,
}

take_add : (m k : ℕ) (xs : List (List ℕ)) → take (m + k) xs ≡ take m xs ++ take k (drop m xs)
take_add zero k xs = ap (λ n. take n xs) (omega arith)
take_add (suc m) k [] = take_all (suc m + k) [] (omega arith) ∙ sym (take_all k [] (omega arith))
take_add (suc m) k (x ∷ xs) =
    ap (λ n. take n (x ∷ xs)) {y = suc (m + k)} (omega arith) ∙ ap (λ ys. x ∷ ys) (take_add m k xs)

drop_cons :
    (i : ℕ) (xs : List (List ℕ)) → i < length xs → drop i xs ≡ get_or xs i [] ∷ drop (i + 1) xs
drop_cons i [] h = absurd (omega arith)
drop_cons zero (x ∷ xs) h = refl
drop_cons (suc i) (x ∷ xs) h =
    drop_cons i xs (omega arith)
    ∙ ap (λ k. get_or xs i [] ∷ drop k (x ∷ xs)) {x = suc (i + 1)} (omega arith)

module _ (s : Sockets) (ps : List (List ℕ)) where
  -- The packets sent are the next ones, as many as asked for when it succeeds.
  abbrev Next : (count idx : ℕ) → List (List ℕ) × Bool → Type 0
  Next count idx r =
      (k : ℕ) × (r.0 ≡ take k (drop idx ps)) × ((r.1 ≡ false) ⊎ ((r.1 ≡ true) × (k ≡ count)))

  send_each-Next :
      (count idx : ℕ) → idx + count ≤ length ps → Next count idx (send_each s count idx ps)
  unfolding send_each
  send_each-Next zero idx h = (0, refl, inr (refl, refl))
  send_each-Next (suc count) idx h = elim (Bool-cases (s.send_to idx)) [
    | inl ok ↦ rw ok (one_more (send_each-Next count (idx + 1) (omega arith)))
    | inr failed ↦ rw failed (0, refl, inl refl)
  ]
    where
      rest : List (List ℕ) × Bool
      rest = send_each s count (idx + 1) ps

      one_more :
          Next count (idx + 1) rest → Next (suc count) idx (get_or ps idx [] ∷ rest.0, rest.1)
      one_more (k, e, o) = (
        suc k,
        ap (λ ys. get_or ps idx [] ∷ ys) e
            ∙ ap (take (suc k)) (sym (drop_cons idx ps (omega arith))),
        elim o [ inl f ↦ inl f | inr (t, q) ↦ inr (t, omega (arith, q)) ],
      )

  -- The packets sent are the next ones, and all that are left when it succeeds.
  abbrev Rest : (sent : ℕ) → List (List ℕ) × Bool → Type 0
  Rest sent r =
      (k : ℕ) × (r.0 ≡ take k (drop sent ps))
      × ((r.1 ≡ false) ⊎ ((r.1 ≡ true) × (length ps ≤ sent + k)))

  then-Rest :
      (m sent : ℕ) (r : List (List ℕ) × Bool)
      → Rest (sent + m) r
      → Rest sent (take m (drop sent ps) ++ r.0, r.1)
  then-Rest m sent r (k, e, o) = (
    m + k,
    ap (λ ys. take m (drop sent ps) ++ ys) (e ∙ ap (take k) (sym (drop-drop m sent ps)))
        ∙ sym (take_add m k (drop sent ps)),
    elim o [ inl f ↦ inl f | inr (t, le) ↦ inr (t, omega (arith, le)) ],
  )

  batch_result-Rest :
      (outcome : Option ℕ) (each : List (List ℕ) × Bool) (size sent : ℕ)
      (later : ℕ → List (List ℕ) × Bool)
      → Next size sent each
      → ((n : ℕ) → 0 < n → Rest (sent + n) (later n))
      → 0 < size
      → Rest sent (batch_result outcome each size (drop sent ps) later)
  unfolding batch_result
  batch_result-Rest none each size sent later (k, e, inl f) rest p = rw f (k, e, inl refl)
  batch_result-Rest none each size sent later (k, e, inr (t, q)) rest p = rw t (
      subst (λ ys. Rest sent (ys ++ (later size).0, (later size).1))
        (sym (e ∙ ap (λ m. take m (drop sent ps)) q))
        (then-Rest size sent (later size) (rest size p)))
  batch_result-Rest (some zero) each size sent later next rest p = (0, refl, inl refl)
  batch_result-Rest (some (suc n)) each size sent later next rest p =
      then-Rest (suc n) sent (later (suc n)) (rest (suc n) (omega arith))

  send_batches-Rest :
      (fuel sent : ℕ) → length ps ≤ sent + fuel → Rest sent (send_batches fuel s sent ps)
  unfolding send_batches
  send_batches-Rest zero sent h = (0, refl, inr (le→leb (omega arith), omega arith))
  send_batches-Rest (suc fuel) sent h = elim (lt_or_le sent (length ps)) [
    | inr done ↦ rw (le→leb done) (0, refl, inr (refl, omega (arith, done)))
    | inl more ↦ rw (not_leb more) (
        batch_result-Rest (s.sendmmsg sent size) (send_each s size sent ps) size sent
          (λ n. send_batches fuel s (sent + n) ps) (send_each-Next size sent (omega (arith, more)))
          (λ n p. send_batches-Rest fuel (sent + n) (omega (arith, p))) (omega (arith, more)))
  ]
    where
      size : ℕ
      size = min (sent + sendmmsg_batch_size) (length ps) - sent

-- The packets of a frame, whatever `sendmmsg` and `send_to` do: those that leave are the first ones,
-- in order. Either the call succeeds, all have left, and the next frame has the next identifier
-- modulo 2 ^ 32 and the same cipher; or it fails and leaves the sender as it was.
pub send_frame_sends :
    (rs : ReedSolomon) (s : Sockets) (frame : Frame) (tuning : StreamTuning) (sender : UdpSender)
    (ps : List (List ℕ))
    → frame_packets rs sender.cipher sender.frame_id (parity_percent frame.is_idr tuning) frame
      ≡ some ps
    → (k : ℕ) × ((send_frame rs s frame tuning sender).1.0 ≡ take k ps)
      × ((((send_frame rs s frame tuning sender).1.1 ≡ false)
            × ((send_frame rs s frame tuning sender).0 ≡ sender))
          ⊎ (((send_frame rs s frame tuning sender).1.1 ≡ true)
              × ((send_frame rs s frame tuning sender).1.0 ≡ ps)
              × ((send_frame rs s frame tuning sender).0
                  ≡ record sender { frame_id = (sender.frame_id + 1) % 2 ^ 32 })))
unfolding send_frame after_frame send_frame_batch
send_frame_sends rs s frame tuning sender ps e =
    rw e (by_result (send_batches-Rest s ps (length ps) 0 (omega arith)))
  where
    result : List (List ℕ) × Bool
    result = send_batches (length ps) s 0 ps

    moved : UdpSender
    moved = record sender { frame_id = (sender.frame_id + 1) % 2 ^ 32 }

    after : UdpSender × (List (List ℕ) × Bool)
    after = if result.1 then (moved, result) else (sender, result)

    by_result :
        Rest s ps 0 result
        → (k : ℕ) × (after.1.0 ≡ take k ps)
          × (((after.1.1 ≡ false) × (after.0 ≡ sender))
              ⊎ ((after.1.1 ≡ true) × (after.1.0 ≡ ps) × (after.0 ≡ moved)))
    by_result (k, q, inl f) = rw f (k, q, inl (f, refl))
    by_result (k, q, inr (t, le)) = rw t (k, q, inr (t, q ∙ take_all k ps (omega arith), refl))
