-- ===== src/Camera/Complete.antt =====
-- `CamReassembler::feed` on the packets of one frame.
use screx_v.Prelude.{
  ℕ, ◌+◌, ◌<◌, ◌≤◌, ◌≡◌, ◌≢◌, ◌∙◌, ap, sym, refl, true, false, Option, none, some, List, [], ◌∷◌,
  length, arith, get_or, set, chunks, concat, concat-chunks, map, ◌==◌, Bool-cases, inl, inr,
  replicate, length-replicate, length-set,
}
use screx_v.Bytes.{IsU32}
use screx_v.Camera.{
  CamReassembler, deliver, is_free, feed_fields, feed, feed_all, emit, max_cam_chunks, chunk_size,
}
use screx_v.Camera.Frame.{
  filled, IsPart, set-IsPart, filled-set, replicate-IsPart, filled-replicate, joined_full,
}
use screx_v.Camera.Wire.{body, feed-chunk_packet}
use screx_v.Camera.Steps.{
  IsFilling, IsIndexed, IsSpent, contains, deliver-none, deliver-some, feed_fields_fresh,
  feed_fields_same, free_before, free_lt, free_slot, get_elem?-get_or, packet_of, spent_step,
  store_free, store_taken, true_ne_false,
}

module _ (id : ℕ) (cs : List (List ℕ)) (hid : IsU32 id) (positive : 0 < length cs)
    (bounded : length cs ≤ max_cam_chunks) where
  feed-packet_of :
      (i : ℕ) (r : CamReassembler)
      → i < length cs
      → feed (body (packet_of id cs i)) r ≡ feed_fields id i (length cs) (get_or cs i []) r
  feed-packet_of i r h =
      feed-chunk_packet id (length cs) i (get_or cs i []) r hid (omega arith) (omega arith)

  -- A step of the sequence whose result is known.
  feed_all_step :
      (i : ℕ) (is : List ℕ) (r r' : CamReassembler) (o : Option (List ℕ))
      → i < length cs
      → feed_fields id i (length cs) (get_or cs i []) r ≡ (r', o)
      → feed_all (map body (map (packet_of id cs) (i ∷ is))) r
        ≡ emit o (feed_all (map body (map (packet_of id cs) is)) r')
  unfolding feed_all
  feed_all_step i is r r' o h e = rw (feed-packet_of i r h ∙ e) refl

  spent_silent :
      (is : List ℕ) (r : CamReassembler)
      → IsIndexed cs is
      → IsSpent id cs r
      → feed_all (map body (map (packet_of id cs) is)) r ≡ []
  unfolding feed_all
  spent_silent [] r b h = refl
  spent_silent (i ∷ is) r (lt, b) h =
      feed_all_step i is r r none lt (spent_step id cs r i (get_or cs i []) h bounded)
      ∙ spent_silent is r b h

  abbrev after_chunk : CamReassembler → ℕ → CamReassembler
  after_chunk r i = record r {
    received = set r.received i (some (get_or cs i []));
    received_count = r.received_count + 1;
  }

  spent : CamReassembler → CamReassembler
  spent r = record r { received = []; received_count = 0 }

  chunk-IsPart :
      (r : CamReassembler) (i : ℕ)
      → IsFilling id cs r
      → i < length cs
      → IsPart (after_chunk r i).received cs
  chunk-IsPart r i h lt = set-IsPart r.received cs i _ h.part (get_elem?-get_or cs i lt)

  chunk_count :
      (r : CamReassembler) (i : ℕ)
      → IsFilling id cs r
      → is_free r.received i ≡ true
      → filled (after_chunk r i).received ≡ filled r.received + 1
  chunk_count r i h free = filled-set r.received i _ free

  feed_free :
      (r : CamReassembler) (i : ℕ)
      → IsFilling id cs r
      → is_free r.received i ≡ true
      → feed_fields id i (length cs) (get_or cs i []) r ≡ deliver (after_chunk r i)
  feed_free r i h free =
      feed_fields_same r id (length cs) i _ h.current h.total positive bounded
      ∙ ap deliver (store_free i _ r free)

  last_chunk :
      (r : CamReassembler) (i : ℕ)
      → IsFilling id cs r
      → i < length cs
      → is_free r.received i ≡ true
      → filled r.received + 1 ≡ length cs
      → feed_fields id i (length cs) (get_or cs i []) r
        ≡ (spent (after_chunk r i), some (concat cs))
  unfolding spent
  last_chunk r i h lt free e =
      feed_free r i h free
      ∙ deliver-some (after_chunk r i) (omega (arith, e, h.count, h.total))
      ∙ ap (λ jpeg. (spent (after_chunk r i), some jpeg))
          (joined_full (after_chunk r i).received cs (chunk-IsPart r i h lt)
            (chunk_count r i h free ∙ e))

  other_chunk :
      (r : CamReassembler) (i : ℕ)
      → IsFilling id cs r
      → is_free r.received i ≡ true
      → filled r.received + 1 ≢ length cs
      → feed_fields id i (length cs) (get_or cs i []) r ≡ (after_chunk r i, none)
  other_chunk r i h free n =
      feed_free r i h free
      ∙ deliver-none (after_chunk r i) (λ e. n (omega (arith, e, h.count, h.total)))

  again_chunk :
      (r : CamReassembler) (i : ℕ)
      → IsFilling id cs r
      → is_free r.received i ≡ false
      → feed_fields id i (length cs) (get_or cs i []) r ≡ (r, none)
  again_chunk r i h taken =
      feed_fields_same r id (length cs) i _ h.current h.total positive bounded
      ∙ ap deliver (store_taken i _ r taken)
      ∙ deliver-none r (λ e. absurd (omega (arith, e, h.count, h.total, h.more)))

  after_chunk-IsFilling :
      (r : CamReassembler) (i : ℕ)
      → IsFilling id cs r
      → i < length cs
      → is_free r.received i ≡ true
      → filled r.received + 1 ≢ length cs
      → IsFilling id cs (after_chunk r i)
  after_chunk-IsFilling r i h lt free n = record {
    current = h.current;
    total = h.total;
    slots = length-set r.received i _ ∙ h.slots;
    count = omega (arith, h.count, chunk_count r i h free);
    part = chunk-IsPart r i h lt;
    more = omega (arith, h.more, n, chunk_count r i h free);
  }

  spent-IsSpent :
      (r : CamReassembler) (i : ℕ) → IsFilling id cs r → IsSpent id cs (spent (after_chunk r i))
  unfolding spent
  spent-IsSpent r i h = record {
    current = h.current;
    total = h.total;
    empty = refl;
    count = refl;
    some_chunks = positive;
  }

  contains_other :
      (i j : ℕ) (is : List ℕ) → contains j (i ∷ is) ≡ true → j ≢ i → contains j is ≡ true
  contains_other i j is h n = ground arith

  -- Every free slot is for a chunk still to come.
  Covers : CamReassembler → List ℕ → Type 0
  Covers r is = (j : ℕ) → is_free r.received j ≡ true → contains j is ≡ true

  filling_emits :
      (is : List ℕ) (r : CamReassembler)
      → IsFilling id cs r
      → IsIndexed cs is
      → Covers r is
      → feed_all (map body (map (packet_of id cs) is)) r ≡ concat cs ∷ []
  unfolding Covers
  filling_emits [] r h b covers =
      absurd (none_left (free_slot r.received (omega (arith, h.more, h.slots))))
    where
      none_left : (i : ℕ) × (i < length r.received) × (is_free r.received i ≡ true) → ⊥
      none_left (i, lt, free) = true_ne_false (covers i free)
  filling_emits (i ∷ is) r h (lt, b) covers = elim (Bool-cases (is_free r.received i)) [
    | inr taken ↦
        feed_all_step i is r r none lt (again_chunk r i h taken)
        ∙ filling_emits is r h b (λ j free.
          contains_other i j is (covers j free)
            (λ e. true_ne_false (sym (ap (is_free r.received) e ∙ taken) ∙ free)))
    | inl free ↦ elim (Bool-cases (filled r.received + 1 == length cs)) [
      | inl last ↦
          feed_all_step i is r (spent (after_chunk r i)) (some (concat cs)) lt
            (last_chunk r i h lt free (ground arith))
          ∙ ap (λ later. concat cs ∷ later)
              (spent_silent is (spent (after_chunk r i)) b (spent-IsSpent r i h))
      | inr other ↦
          feed_all_step i is r (after_chunk r i) none lt (other_chunk r i h free (ground arith))
          ∙ filling_emits is (after_chunk r i) (after_chunk-IsFilling r i h lt free (ground arith))
              b
              (λ j free'.
                contains_other i j is (covers j (free_before r.received i j _ free').0)
                  (free_before r.received i j _ free').1)
    ]
  ]

  restarted : CamReassembler
  restarted = record {
    current_frame_id = id;
    total_chunks = length cs;
    received = replicate (length cs) none;
    received_count = 0;
  }

  restarted-IsFilling : IsFilling id cs restarted
  unfolding restarted
  restarted-IsFilling = record {
    current = refl;
    total = refl;
    slots = length-replicate (length cs) none;
    count = sym (filled-replicate (length cs));
    part = replicate-IsPart (length cs) cs (omega arith);
    more = omega (arith, filled-replicate (length cs));
  }

  restarted_first :
      (r : CamReassembler) (i : ℕ) (c : List ℕ)
      → r.current_frame_id ≢ id
      → feed_fields id i (length cs) c r ≡ feed_fields id i (length cs) c restarted
  unfolding restarted
  restarted_first r i c n =
      feed_fields_fresh r id (length cs) i c n positive bounded
      ∙ sym (
          feed_fields_same restarted id (length cs) i c restarted-IsFilling.current
            restarted-IsFilling.total positive bounded)

  -- From a state of another frame, packets of a frame that are for each of its chunks at least
  -- once give that frame, once, whatever their order.
  chunks_emitted :
      (is : List ℕ) (r : CamReassembler)
      → r.current_frame_id ≢ id
      → IsIndexed cs is
      → ((j : ℕ) → j < length cs → contains j is ≡ true)
      → feed_all (map body (map (packet_of id cs) is)) r ≡ concat cs ∷ []
  unfolding restarted Covers feed_all
  chunks_emitted [] r n b all = absurd (true_ne_false (all 0 positive))
  chunks_emitted (i ∷ is) r n (lt, b) all =
      ap
        (λ (p : CamReassembler × Option (List ℕ)).
          emit p.1 (feed_all (map body (map (packet_of id cs) is)) p.0))
        (feed-packet_of i r lt
          ∙ restarted_first r i (get_or cs i []) n
          ∙ sym (feed-packet_of i restarted lt))
      ∙ filling_emits (i ∷ is) restarted restarted-IsFilling (lt, b)
          (λ j free. all j (free_lt (length cs) j free))

-- A frame of one to 4096 chunks is delivered once, and whole: packets of it that are for each of
-- its chunks at least once, in any order, given to a daemon whose current frame has another
-- number, complete exactly one frame, the JPEG that was sent.
pub feed_all-packet_of :
    (id : ℕ) (jpeg is : List ℕ) (r : CamReassembler)
    → IsU32 id
    → 0 < length (chunks chunk_size jpeg)
    → length (chunks chunk_size jpeg) ≤ max_cam_chunks
    → r.current_frame_id ≢ id
    → IsIndexed (chunks chunk_size jpeg) is
    → ((j : ℕ) → j < length (chunks chunk_size jpeg) → contains j is ≡ true)
    → feed_all (map body (map (packet_of id (chunks chunk_size jpeg)) is)) r ≡ jpeg ∷ []
feed_all-packet_of id jpeg is r hid positive bounded n b all =
    chunks_emitted id (chunks chunk_size jpeg) hid positive bounded is r n b all
    ∙ ap (λ f. f ∷ []) (concat-chunks chunk_size jpeg (omega arith))
