-- ===== src/Video/Delivery.antt =====
-- What the media loop hands to the decoder.
use screx_v.Prelude.{ℕ, ◌≡◌, ap, refl, true, List, [], ◌∷◌, ◌++◌, arith, if-preserves}
use screx_v.Video.Receiver.{
  Receiver, Event, decodes, enqueues, sends_pli, is_stale, has_gap, should_send_pli, request_pli,
  complete,
}

-- The frames that are handed to the decoder.
abbrev pub decoded : List Event → List Event
decoded [] = []
decoded (decodes annex_b id codec flags ts ∷ es) = decodes annex_b id codec flags ts ∷ decoded es
decoded (enqueues pcm ts ∷ es) = decoded es
decoded (sends_pli ∷ es) = decoded es

pub decoded-append : (xs ys : List Event) → decoded (xs ++ ys) ≡ decoded xs ++ decoded ys
decoded-append [] ys = refl
decoded-append (decodes b id codec flags ts ∷ xs) ys =
    ap (λ (es : List Event). decodes b id codec flags ts ∷ es) (decoded-append xs ys)
decoded-append (enqueues pcm ts ∷ xs) ys = decoded-append xs ys
decoded-append (sends_pli ∷ xs) ys = decoded-append xs ys

module _ (b : List ℕ) (id codec flags ts now : ℕ) (r : Receiver) where
  pub complete_decodes :
      decoded (complete b id codec flags ts now r).1 ≡ decodes b id codec flags ts ∷ []
  unfolding complete request_pli
  complete_decodes =
      if-preserves
        (λ (p : Receiver × List Event).
          decoded (p.1 ++ decodes b id codec flags ts ∷ []) ≡ decodes b id codec flags ts ∷ [])
        (has_gap id r)
        (if-preserves
          (λ (es : List Event).
            decoded (es ++ decodes b id codec flags ts ∷ []) ≡ decodes b id codec flags ts ∷ [])
          (should_send_pli now r.last_pli_at).0 refl refl)
        refl

  pub complete_stale : is_stale id (complete b id codec flags ts now r).0 ≡ true
  unfolding complete is_stale
  complete_stale = ground arith
