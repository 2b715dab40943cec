-- ===== src/Video/Throttle.antt =====
-- How often the media loop asks for a key frame.
use screx_v.Prelude.{
  ℕ, ◌+◌, ◌-◌, ◌/◌, ◌%◌, ◌^◌, ◌≤◌, ◌≡◌, ◌∙◌, sym, suc, subst, refl, Bool, ◌&&◌, Option, none, some,
  List, [], ◌∷◌, ◌++◌, arith, if-preserves, if◌then◌else◌, leb, ◌==◌, ◌⊎◌, inl, inr, Bool-cases,
}
use screx_v.Crypto.{Cipher, nonce_server}
use screx_v.Video.{ReedSolomon}
use screx_v.Video.Assembly.{FrameAssembly, add_chunk, is_complete, can_recover, reassemble}
use screx_v.Video.Receiver.{
  Header, Event, decodes, enqueues, sends_pli, Receiver, prune_interval, pli_min_interval, Input,
  arrives, batch_ends, remove, is_stale, has_gap, request_pli, should_send_pli, complete, finish,
  assembly_for, receive_video, receive_audio, receive_plain, receive_parsed, receive, parse_header,
  is_expired, expire_with, expire, expire_all, prune, after_batch, enqueue_event, step,
}

abbrev pub plis : List Event → ℕ
plis [] = 0
plis (sends_pli ∷ es) = suc (plis es)
plis (decodes b id codec flags ts ∷ es) = plis es
plis (enqueues pcm ts ∷ es) = plis es

plis-append : (xs ys : List Event) → plis (xs ++ ys) ≡ plis xs + plis ys
plis-append [] ys = omega arith
plis-append (sends_pli ∷ xs) ys = omega (arith, plis-append xs ys)
plis-append (decodes b id codec flags ts ∷ xs) ys = plis-append xs ys
plis-append (enqueues pcm ts ∷ xs) ys = plis-append xs ys

-- The interval since the last request has passed.
abbrev pub Waited : (now : ℕ) → Option ℕ → Type 0
Waited now none = Unit {0}
Waited now (some at) = at + pli_min_interval ≤ now

-- No request, and the time of the last one as it was; or one, after the interval, and its time noted.
abbrev pub Throttled : (now : ℕ) → (before after : Option ℕ) → (requests : ℕ) → Type 0
Throttled now before after requests =
    ((requests ≡ 0) × (after ≡ before)) ⊎ ((requests ≡ 1) × (after ≡ some now) × Waited now before)

two_requests :
    (now : ℕ) (o1 o2 o3 : Option ℕ) (m n : ℕ)
    → Throttled now o1 o2 m
    → Throttled now o2 o3 n
    → Throttled now o1 o3 (m + n)
two_requests now o1 o2 o3 m n (inl (a, b)) (inl (c, d)) = inl (omega arith, d ∙ b)
two_requests now o1 o2 o3 m n (inl (a, b)) (inr (c, d, w)) =
    inr (omega arith, d, subst (Waited now) b w)
two_requests now o1 o2 o3 m n (inr (a, b, w)) (inl (c, d)) = inr (omega arith, d ∙ b, w)
two_requests now o1 o2 o3 m n (inr (a, b, w)) (inr (c, d, v)) =
    absurd (too_soon (subst (Waited now) b v))
  where
    too_soon : now + pli_min_interval ≤ now → ⊥
    too_soon h = omega arith

abbrev pub Obeys : (now : ℕ) → Receiver → Receiver × List Event → Type 0
Obeys now r p = Throttled now r.last_pli_at p.0.last_pli_at (plis p.1)

request_pli-Obeys : (now : ℕ) (r : Receiver) → Obeys now r (request_pli now r)
unfolding request_pli
request_pli-Obeys now r = by_last r.last_pli_at
  where
    by_last :
        (o : Option ℕ)
        → Throttled now o
            (should_send_pli now o).1
            (plis (if (should_send_pli now o).0 then sends_pli ∷ [] else []))
    by_last none = inr (refl, refl, tt)
    by_last (some at) = elim (Bool-cases (leb pli_min_interval (now - at))) [
      | inl e ↦ rw e (inr (refl, refl, ground (arith, e)))
      | inr e ↦ rw e (inl (refl, refl))
    ]

quiet : (now : ℕ) (o : Option ℕ) → Throttled now o o 0
quiet now o = inl (refl, refl)

complete-Obeys :
    (b : List ℕ) (id codec flags ts now : ℕ) (r : Receiver)
    → Obeys now r (complete b id codec flags ts now r)
unfolding complete
complete-Obeys b id codec flags ts now r =
    if-preserves
      (λ (p : Receiver × List Event).
        Throttled now r.last_pli_at p.0.last_pli_at
          (plis (p.1 ++ decodes b id codec flags ts ∷ [])))
      (has_gap id r)
      (subst (Throttled now r.last_pli_at (request_pli now r).0.last_pli_at)
        (omega (arith, plis-append (request_pli now r).1 (decodes b id codec flags ts ∷ [])))
        (request_pli-Obeys now r))
      (quiet now r.last_pli_at)

module _ (rs : ReedSolomon) (now : ℕ) (r : Receiver) where
  finish-Obeys : (o : Option (List ℕ)) (hd : Header) → Obeys now r (finish o hd now r)
  unfolding finish
  finish-Obeys none hd = quiet now r.last_pli_at
  finish-Obeys (some b) hd =
      complete-Obeys b hd.frame_id hd.codec_id hd.flags hd.timestamp_ms now
        (record r { video_frames = remove hd.frame_id r.video_frames })

  receive_video-Obeys :
      (hd : Header) (plaintext : List ℕ) → Obeys now r (receive_video rs hd plaintext now r)
  unfolding receive_video
  receive_video-Obeys hd plaintext =
      if-preserves (Obeys now r) (is_stale hd.frame_id r) (quiet now r.last_pli_at) (
        if-preserves (Obeys now r) (is_complete a) (finish-Obeys (reassemble rs a) hd)
          (quiet now r.last_pli_at))
    where
      a : FrameAssembly
      a = add_chunk hd.chunk_idx plaintext hd.payload_len (assembly_for hd now r)

  no_request : (o : Option (List ℕ)) (ts : ℕ) → plis (enqueue_event o ts) ≡ 0
  unfolding enqueue_event
  no_request none ts = refl
  no_request (some pcm) ts = refl

  receive_audio-Obeys :
      (hd : Header) (plaintext : List ℕ) → Obeys now r (receive_audio hd plaintext now r)
  unfolding receive_audio
  receive_audio-Obeys hd plaintext =
      if-preserves (Obeys now r) _ (inl (no_request _ hd.timestamp_ms, refl))
        (quiet now r.last_pli_at)

  receive_plain-Obeys :
      (hd : Header) (o : Option (List ℕ)) → Obeys now r (receive_plain rs hd o now r)
  unfolding receive_plain
  receive_plain-Obeys hd none = quiet now r.last_pli_at
  receive_plain-Obeys hd (some plaintext) =
      if-preserves (Obeys now r) (hd.flags / 2 % 2 == 1) (receive_audio-Obeys hd plaintext)
        (receive_video-Obeys hd plaintext)

  receive_parsed-Obeys :
      (c : Cipher) (parsed : Option (Header × List ℕ × List ℕ))
      → Obeys now r (receive_parsed rs c parsed now r)
  unfolding receive_parsed
  receive_parsed-Obeys c none = quiet now r.last_pli_at
  receive_parsed-Obeys c (some (hd, header, payload)) =
      if-preserves (Obeys now r) ((hd.frame_id == 2 ^ 32 - 1) && (hd.total_data == 0))
        (quiet now r.last_pli_at)
        (receive_plain-Obeys hd
          (c.unseal (nonce_server hd.frame_id hd.chunk_idx hd.flags) header payload))

module _ (rs : ReedSolomon) (now : ℕ) where
  abbrev Obeys3 : Receiver → Receiver × List Event × Bool → Type 0
  Obeys3 r p = Throttled now r.last_pli_at p.0.last_pli_at (plis p.1)

  expire_with-Obeys :
      (o : Option (List ℕ)) (id : ℕ) (a : FrameAssembly) (r : Receiver)
      → Obeys3 r (expire_with o id a now r)
  unfolding expire_with
  expire_with-Obeys none id a r = quiet now r.last_pli_at
  expire_with-Obeys (some b) id a r = complete-Obeys b id a.codec_id a.flags a.timestamp_ms now r

  expire-Obeys : (id : ℕ) (a : FrameAssembly) (r : Receiver) → Obeys3 r (expire rs id a now r)
  unfolding expire
  expire-Obeys id a r =
      if-preserves (Obeys3 r) (can_recover a) (expire_with-Obeys (reassemble rs a) id a r)
        (quiet now r.last_pli_at)

  expire_all-Obeys :
      (entries : List (ℕ × FrameAssembly)) (r : Receiver) → Obeys3 r (expire_all rs entries now r)
  unfolding expire_all
  expire_all-Obeys [] r = quiet now r.last_pli_at
  expire_all-Obeys ((id, a) ∷ entries) r =
      if-preserves (Obeys3 r) (is_expired now a.created_at)
        (subst (Throttled now r.last_pli_at after_one.0.last_pli_at)
          (sym (plis-append one.1 after_one.1))
          (two_requests now r.last_pli_at one.0.last_pli_at after_one.0.last_pli_at (plis one.1)
            (plis after_one.1) (expire-Obeys id a out) (expire_all-Obeys entries one.0)))
        (expire_all-Obeys entries r)
    where
      out : Receiver
      out = record r { video_frames = remove id r.video_frames }

      one : Receiver × List Event × Bool
      one = expire rs id a now out

      after_one : Receiver × List Event × Bool
      after_one = expire_all rs entries now one.0

  prune-Obeys : (r : Receiver) → Obeys now r (prune rs now r)
  unfolding prune
  prune-Obeys r =
      subst (Throttled now r.last_pli_at asked.0.last_pli_at) (sym (plis-append expired.1 asked.1))
        (two_requests now r.last_pli_at expired.0.last_pli_at asked.0.last_pli_at (plis expired.1)
          (plis asked.1) (expire_all-Obeys r.video_frames r)
          (if-preserves (Obeys now expired.0) expired.2 (request_pli-Obeys now expired.0)
            (quiet now expired.0.last_pli_at)))
    where
      expired : Receiver × List Event × Bool
      expired = expire_all rs r.video_frames now r

      asked : Receiver × List Event
      asked = if expired.2 then request_pli now expired.0 else (expired.0, [])

-- The time of an input.
abbrev pub time_of : Input → ℕ
time_of (arrives packet now) = now
time_of (batch_ends now) = now

-- A packet, whatever its bytes, or the end of a batch, in whatever state: the client sends no request
-- for a key frame and keeps the time of the last one, or it sends exactly one, at least a second
-- after the last one, and notes its time.
pub step-Throttled :
    (rs : ReedSolomon) (c : Cipher) (i : Input) (r : Receiver)
    → Throttled (time_of i) r.last_pli_at (step rs c i r).0.last_pli_at (plis (step rs c i r).1)
unfolding step receive after_batch
step-Throttled rs c (arrives packet now) r = receive_parsed-Obeys rs now r c (parse_header packet)
step-Throttled rs c (batch_ends now) r =
    if-preserves (Obeys now r) (leb prune_interval (now - r.last_prune)) (prune-Obeys rs now r)
      (quiet now r.last_pli_at)
