-- ===== src/Video/Pending.antt =====
-- The assemblies that the media loop keeps: each waits for more shards than it has.
use screx_v.Prelude.{
  ℕ, ◌+◌, ◌-◌, ◌/◌, ◌%◌, ◌^◌, ◌<◌, ◌≡◌, ◌∙◌, ap, sym, subst, refl, Bool, true, false, ◌&&◌, Option,
  none, some, List, [], ◌∷◌, length, get_or, arith, All, ◌⊎◌, if-preserves, if◌then◌else◌, leb,
  ◌==◌, Bool-cases, not_leb, inl, inr, length-replicate, length-set,
}
use screx_v.Crypto.{Cipher, nonce_server}
use screx_v.Video.{ReedSolomon}
use screx_v.Video.Assembly.{
  FrameAssembly, new, add_chunk, place_chunk, all_present, is_complete, can_recover, reassemble,
}
use screx_v.Video.Shards.{count_present, count_present-replicate, count_present-set}
use screx_v.Video.Code.{not_all_present}
use screx_v.Video.Receiver.{
  Header, Event, sends_pli, Receiver, prune_interval, Input, arrives, batch_ends, lookup, remove,
  or_new, is_stale, has_gap, request_pli, should_send_pli, complete, finish, assembly_for,
  receive_video, receive_audio, receive_plain, receive_parsed, receive, parse_header, is_expired,
  expire, expire_all, prune, after_batch, step, run,
}

-- The counter agrees with the slots.
pub record IsCounted (a : FrameAssembly) : Type 0 where
  pub slots : length a.present ≡ a.total_data + a.total_parity
  pub count : a.received_count ≡ count_present a.present

pub record IsPending (a : FrameAssembly) : Type 0 where
  pub counted : IsCounted a
  pub more : a.received_count < a.total_data

new-IsCounted : (dc pc codec flags ts now : ℕ) → IsCounted (new dc pc codec flags ts now)
unfolding new
new-IsCounted dc pc codec flags ts now = record {
  slots = length-replicate (dc + pc) false;
  count = sym (count_present-replicate (dc + pc));
}

place_chunk-IsCounted :
    (i : ℕ) (payload : List ℕ) (len : ℕ) (a : FrameAssembly)
    → IsCounted a
    → i < a.total_data + a.total_parity
    → get_or a.present i false ≡ false
    → IsCounted (place_chunk i payload len a)
unfolding place_chunk
place_chunk-IsCounted i payload len a h lt free = record {
  slots = length-set a.present i true ∙ h.slots;
  count = omega (arith, h.count, count_present-set a.present i (omega (arith, h.slots)) free);
}

add_chunk-IsCounted :
    (i : ℕ) (payload : List ℕ) (len : ℕ) (a : FrameAssembly)
    → IsCounted a
    → IsCounted (add_chunk i payload len a)
unfolding add_chunk
add_chunk-IsCounted i payload len a h = elim (Bool-cases (leb (a.total_data + a.total_parity) i)) [
  | inl out ↦ rw out (record { slots = h.slots; count = h.count })
  | inr inside ↦ rw inside (elim (Bool-cases (get_or a.present i false)) [
    | inl there ↦ rw there (record { slots = h.slots; count = h.count })
    | inr free ↦ rw free (place_chunk-IsCounted i payload len a h (ground (arith, inside)) free)
  ])
]

pub incomplete-IsPending : (a : FrameAssembly) → IsCounted a → is_complete a ≡ false → IsPending a
unfolding is_complete
incomplete-IsPending a h e = record {
  counted = h;
  more = by_parity (Bool-cases (a.total_parity == 0));
}
  where
    by_parity :
        ((a.total_parity == 0) ≡ true) ⊎ ((a.total_parity == 0) ≡ false)
        → a.received_count < a.total_data
    by_parity (inl without) = omega (
      arith,
      h.slots,
      h.count,
      not_all_present a.total_data a.present
          (sym (
              ap
                (λ b.
                  if b
                  then all_present a.total_data a.present
                  else leb a.total_data a.received_count)
                without)
            ∙ e)
          (omega (arith, h.slots)),
      zero_parity,
    )
      where
        zero_parity : a.total_parity ≡ 0
        zero_parity = ground (arith, without)
    by_parity (inr with) = ground (
      arith,
      sym (
            ap
              (λ b.
                if b then all_present a.total_data a.present else leb a.total_data a.received_count)
              with)
          ∙ e,
    )

module _ (P : FrameAssembly → Type 0) where
  abbrev pub Entries : List (ℕ × FrameAssembly) → Type 0
  Entries entries = All (λ e. P e.1) entries

  pub remove-Entries :
      (id : ℕ) (entries : List (ℕ × FrameAssembly)) → Entries entries → Entries (remove id entries)
  unfolding remove
  remove-Entries id [] h = tt
  remove-Entries id ((k, a) ∷ entries) (h, hs) =
      if-preserves Entries (id == k) (remove-Entries id entries hs)
        (h, remove-Entries id entries hs)

  or_new-Entries :
      (id : ℕ) (b : FrameAssembly) (entries : List (ℕ × FrameAssembly))
      → P b
      → Entries entries
      → P (or_new b (lookup id entries))
  unfolding lookup
  or_new-Entries id b [] h hs = h
  or_new-Entries id b ((k, a) ∷ entries) h (p, hs) =
      if-preserves (λ (o : Option FrameAssembly). P (or_new b o)) (id == k) p
        (or_new-Entries id b entries h hs)

abbrev pub AllPending : Receiver → Type 0
AllPending r = All (λ e. IsPending e.1) r.video_frames

request_pli-frames : (now : ℕ) (r : Receiver) → (request_pli now r).0.video_frames ≡ r.video_frames
unfolding request_pli
request_pli-frames now r = refl

pub complete-frames :
    (annex_b : List ℕ) (id codec flags ts now : ℕ) (r : Receiver)
    → (complete annex_b id codec flags ts now r).0.video_frames ≡ r.video_frames
unfolding complete
complete-frames annex_b id codec flags ts now r =
    if-preserves (λ (p : Receiver × List Event). p.0.video_frames ≡ r.video_frames) (has_gap id r)
      (request_pli-frames now r) refl

module _ (rs : ReedSolomon) (now : ℕ) (r : Receiver) (h : AllPending r) where
  finish-AllPending : (o : Option (List ℕ)) (hd : Header) → AllPending (finish o hd now r).0
  unfolding finish
  finish-AllPending none hd = remove-Entries IsPending hd.frame_id r.video_frames h
  finish-AllPending (some annex_b) hd =
      subst (All (λ e. IsPending e.1))
        (sym (
          complete-frames annex_b hd.frame_id hd.codec_id hd.flags hd.timestamp_ms now
            (record r { video_frames = remove hd.frame_id r.video_frames })))
        (remove-Entries IsPending hd.frame_id r.video_frames h)

  All-IsCounted :
      (entries : List (ℕ × FrameAssembly))
      → All (λ e. IsPending e.1) entries
      → All (λ e. IsCounted e.1) entries
  All-IsCounted [] k = tt
  All-IsCounted (e ∷ es) (k, ks) = (k.counted, All-IsCounted es ks)

  pub receive_video-AllPending :
      (hd : Header) (plaintext : List ℕ) → AllPending (receive_video rs hd plaintext now r).0
  unfolding receive_video assembly_for
  receive_video-AllPending hd plaintext =
      if-preserves (λ (p : Receiver × List Event). AllPending p.0) (is_stale hd.frame_id r) h
        (elim (Bool-cases (is_complete a)) [
          | inl full ↦ rw full (finish-AllPending (reassemble rs a) hd)
          | inr part ↦ rw part (
            incomplete-IsPending a counted part,
            remove-Entries IsPending hd.frame_id r.video_frames h,
          )
        ])
    where
      a : FrameAssembly
      a = add_chunk hd.chunk_idx plaintext hd.payload_len (assembly_for hd now r)

      counted : IsCounted a
      counted = add_chunk-IsCounted hd.chunk_idx plaintext hd.payload_len (assembly_for hd now r) (
          or_new-Entries IsCounted hd.frame_id
            (new hd.total_data hd.total_parity hd.codec_id hd.flags hd.timestamp_ms now)
            r.video_frames
            (new-IsCounted hd.total_data hd.total_parity hd.codec_id hd.flags hd.timestamp_ms now)
            (All-IsCounted r.video_frames h))

  receive_plain-AllPending :
      (hd : Header) (o : Option (List ℕ)) → AllPending (receive_plain rs hd o now r).0
  unfolding receive_plain receive_audio
  receive_plain-AllPending hd none = h
  receive_plain-AllPending hd (some plaintext) =
      if-preserves (λ (p : Receiver × List Event). AllPending p.0) (hd.flags / 2 % 2 == 1)
        (if-preserves (λ (p : Receiver × List Event). AllPending p.0) _ h h)
        (receive_video-AllPending hd plaintext)

  receive_parsed-AllPending :
      (c : Cipher) (parsed : Option (Header × List ℕ × List ℕ))
      → AllPending (receive_parsed rs c parsed now r).0
  unfolding receive_parsed
  receive_parsed-AllPending c none = h
  receive_parsed-AllPending c (some (hd, header, payload)) =
      if-preserves (λ (p : Receiver × List Event). AllPending p.0)
        ((hd.frame_id == 2 ^ 32 - 1) && (hd.total_data == 0)) h
        (receive_plain-AllPending hd
          (c.unseal (nonce_server hd.frame_id hd.chunk_idx hd.flags) header payload))

pub receive-AllPending :
    (rs : ReedSolomon) (c : Cipher) (packet : List ℕ) (now : ℕ) (r : Receiver)
    → AllPending r
    → AllPending (receive rs c packet now r).0
unfolding receive
receive-AllPending rs c packet now r h =
    receive_parsed-AllPending rs now r h c (parse_header packet)

-- A pending assembly expires as a lost frame, and nothing is decoded.
pub expire_lost :
    (rs : ReedSolomon) (id : ℕ) (a : FrameAssembly) (now : ℕ) (r : Receiver)
    → IsPending a
    → expire rs id a now r ≡ (r, [], true)
unfolding expire can_recover
expire_lost rs id a now r h = rw (not_leb h.more) refl

module _ (rs : ReedSolomon) (now : ℕ) where
  expire_all-silent :
      (entries : List (ℕ × FrameAssembly)) (r : Receiver)
      → Entries IsPending entries
      → AllPending r
      → AllPending (expire_all rs entries now r).0 × ((expire_all rs entries now r).1 ≡ [])
  unfolding expire_all
  expire_all-silent [] r hs h = (h, refl)
  expire_all-silent ((id, a) ∷ entries) r (p, ps) h =
      if-preserves (λ (t : Receiver × List Event × Bool). AllPending t.0 × (t.1 ≡ []))
        (is_expired now a.created_at)
        (rw (expire_lost rs id a now (record r { video_frames = remove id r.video_frames }) p) (
          expire_all-silent entries (record r { video_frames = remove id r.video_frames }) ps
            (remove-Entries IsPending id r.video_frames h)))
        (expire_all-silent entries r ps h)

  -- When every assembly waits for more shards than it has, the pruning of expired assemblies hands
  -- no frame to the decoder: it does nothing, or sends one request for a key frame.
  pub prune_only_asks :
      (r : Receiver)
      → AllPending r
      → ((prune rs now r).1 ≡ []) ⊎ ((prune rs now r).1 ≡ sends_pli ∷ [])
  unfolding prune request_pli
  prune_only_asks r h = rw (expire_all-silent r.video_frames r h h).1 (
      if-preserves (λ (p : Receiver × List Event). (p.1 ≡ []) ⊎ (p.1 ≡ sends_pli ∷ []))
        (expire_all rs r.video_frames now r).2
        (if-preserves (λ (es : List Event). (es ≡ []) ⊎ (es ≡ sends_pli ∷ []))
          (should_send_pli now (expire_all rs r.video_frames now r).0.last_pli_at).0 (inr refl)
          (inl refl))
        (inl refl))

  pub after_batch-AllPending : (r : Receiver) → AllPending r → AllPending (after_batch rs now r).0
  unfolding after_batch prune request_pli
  after_batch-AllPending r h =
      if-preserves (λ (p : Receiver × List Event). AllPending p.0)
        (leb prune_interval (now - r.last_prune))
        (if-preserves (λ (p : Receiver × List Event). AllPending p.0)
          (expire_all rs r.video_frames now r).2 expired expired)
        h
    where
      expired : AllPending (expire_all rs r.video_frames now r).0
      expired = (expire_all-silent r.video_frames r h h).0

-- When every assembly in the map waits for more shards than it has, this stays so over any sequence
-- of packets, whatever their bytes and times, and of pruning rounds: no assembly that could be put
-- together is ever left in the map.
run-AllPending :
    (rs : ReedSolomon) (c : Cipher) (is : List Input) (r : Receiver)
    → AllPending r
    → AllPending (run rs c is r).0
unfolding run step
run-AllPending rs c [] r h = h
run-AllPending rs c (arrives packet now ∷ is) r h =
    run-AllPending rs c is (receive rs c packet now r).0 (receive-AllPending rs c packet now r h)
run-AllPending rs c (batch_ends now ∷ is) r h =
    run-AllPending rs c is (after_batch rs now r).0 (after_batch-AllPending rs now r h)
