-- ===== src/Pairing/Answers.antt =====
-- A pairing request and the answer to the challenge, as the client sent them.
use screx_v.Prelude.{
  subst, ℕ, ◌≡◌, ◌⊎◌, inl, inr, refl, ap, sym, ◌∙◌, Option, none, some, List, ◌++◌, take, drop,
  if◌then◌else◌, Bool-cases, length,
}
use mathlib.Core.List.{append_assoc}
use screx_v.Control.Stream.{
  Signal, Read, got, timed_out, closed, read_exact, sent, Took, read_exact-Took,
}
use screx_v.History.{same_bytes}
use screx_v.History.Normal.{same_bytes_eq}
use screx_v.Pairing.{
  Primitives, magic_reject, magic_pair, magic_answer, verify_aad, pin_key, pairing_key,
  pin_challenge,
}
use screx_v.Pairing.Devices.{PairingState, PairedDevice, store_device}
use screx_v.Pairing.Daemon.{
  Drawn, Handled, wrong_pin, not_an_answer, drawn_pin, failing, show_prompt, clear_pending,
  accept_device, check_pin, read_sealed_pin, read_answer, challenge_device, handle_pair_request,
}

-- In the attempt `left`, the bytes that the client sent hold, one after the other, a PAIR header of
-- 12 bytes, the 46 bytes of the request, the answer's header and the answer's 34 bytes. The request's
-- public key gives a secret with the daemon's key, under which the answer opens to the PIN that the
-- daemon drew; the devices are then as they were, with the device of that request stored.
pub record SentPin (p : Primitives) (draw : ℕ → Drawn) (ip : List ℕ) (ps : PairingState)
    (s : List Signal) (devices : List (List ℕ × PairedDevice)) : Type 0 where
  pub left : ℕ
  pub before : List ℕ
  pub header : List ℕ
  pub request : List ℕ
  pub answer : List ℕ
  pub after : List ℕ
  pub secret : List ℕ
  pub in_order : sent s ≡ before ++ header ++ request ++ magic_answer ++ answer ++ after
  pub lengths : (length header ≡ 12) × (length request ≡ 46) × (length answer ≡ 34)
  pub asks : take 10 header ≡ magic_pair
  pub agreed : p.agree (draw left).private (drop 14 request) ≡ some secret
  pub opened :
      (p.session_cipher (pin_key p secret)).unseal (take 12 answer) verify_aad (drop 12 answer)
      ≡ some (drawn_pin (draw left).pin)
  pub stored :
      devices
      ≡ (store_device
          (drop 10 header ++ take 14 request)
          (pairing_key p secret (drawn_pin (draw left).pin))
          ip
          (draw left).now
          ps).paired_devices

-- What is read next stands behind what was read before.
pub next :
    (whole done bs : List ℕ) (s rest : List Signal)
    → whole ≡ done ++ sent s
    → sent s ≡ bs ++ sent rest
    → whole ≡ done ++ bs ++ sent rest
next whole done bs s rest at here =
    at ∙ ap (λ l. done ++ l) here ∙ sym (append_assoc done bs (sent rest))

module _ (p : Primitives) (draw : ℕ → Drawn) (ip : List ℕ) (ps : PairingState)
    (whole : List Signal) where
  abbrev pub IsGuarded : Handled → Type 0
  IsGuarded h =
      (h.pairing.paired_devices ≡ ps.paired_devices)
      ⊎ SentPin p draw ip ps whole h.pairing.paired_devices

  abbrev pub IsSame : PairingState → Type 0
  IsSame st = st.paired_devices ≡ ps.paired_devices

  -- What is left to read is the end of what was sent.
  abbrev pub IsSuffix : List Signal → Type 0
  IsSuffix s = (before : List ℕ) × (sent whole ≡ before ++ sent s)

  module _ (left : ℕ) (before header request secret : List ℕ) (header_length : length header ≡ 12)
      (request_length : length request ≡ 46) (asks : take 10 header ≡ magic_pair)
      (agreed : p.agree (draw left).private (drop 14 request) ≡ some secret) where
    abbrev device_id : List ℕ
    device_id = drop 10 header ++ take 14 request

    abbrev pin : List ℕ
    pin = drawn_pin (draw left).pin

    check_pin-Guarded :
        (st : PairingState) (s : List Signal) (answer : List ℕ) (o : Option (List ℕ))
        → IsSame st
        → length answer ≡ 34
        → sent whole ≡ before ++ header ++ request ++ magic_answer ++ answer ++ sent s
        → (p.session_cipher (pin_key p secret)).unseal (take 12 answer) verify_aad (drop 12 answer)
          ≡ o
        → IsGuarded (check_pin p (draw left) ip device_id secret pin st s o)
    unfolding check_pin accept_device failing clear_pending store_device
    check_pin-Guarded st s answer none same len at opens = inl same
    check_pin-Guarded st s answer (some received) same len at opens =
        elim (Bool-cases (same_bytes received pin)) [
          | inl e ↦
              subst
                (λ b.
                  IsGuarded (
                    if b
                    then accept_device p (draw left) ip device_id secret pin st s
                    else refused))
                (sym e)
                (inr (record {
                  left = left;
                  before = before;
                  header = header;
                  request = request;
                  answer = answer;
                  after = sent s;
                  secret = secret;
                  in_order = at;
                  lengths = (header_length, request_length, len);
                  asks = asks;
                  agreed = agreed;
                  opened = opens ∙ ap some (same_bytes_eq received pin e);
                  stored =
                      ap
                        (λ devices.
                          (store_device device_id (pairing_key p secret pin) ip (draw left).now
                            (record ps { paired_devices = devices })).paired_devices)
                        same;
                }))
          | inr e ↦
              subst
                (λ b.
                  IsGuarded (
                    if b
                    then accept_device p (draw left) ip device_id secret pin st s
                    else refused))
                (sym e) (inl same)
        ]
      where
        refused : Handled
        refused =
            failing st (pin_challenge (p.compute_public_key (draw left).private) ++ magic_reject) s
              wrong_pin

    read_sealed_pin-Guarded :
        (st : PairingState) (s : List Signal) (read : Read)
        → IsSame st
        → sent whole ≡ before ++ header ++ request ++ magic_answer ++ sent s
        → Took 34 s read
        → IsGuarded (read_sealed_pin p (draw left) ip device_id secret pin st read)
    unfolding read_sealed_pin failing Took
    read_sealed_pin-Guarded st s (got sealed rest) same at (len, here) =
        check_pin-Guarded st rest sealed _ same len
          (next (sent whole) (before ++ header ++ request ++ magic_answer) sealed s rest at here)
          refl
    read_sealed_pin-Guarded st s (timed_out rest) same at took = inl same
    read_sealed_pin-Guarded st s closed same at took = inl same

    read_answer-Guarded :
        (st : PairingState) (s : List Signal) (read : Read)
        → IsSame st
        → sent whole ≡ before ++ header ++ request ++ sent s
        → Took 12 s read
        → IsGuarded (read_answer p (draw left) ip device_id secret pin st read)
    unfolding read_answer failing Took
    read_answer-Guarded st s (got magic rest) same at (len, here) =
        elim (Bool-cases (same_bytes magic magic_answer)) [
          | inl e ↦
              subst (λ b. IsGuarded (if b then answered else refused)) (sym e)
                (read_sealed_pin-Guarded st rest (read_exact 34 rest) same
                  (subst (λ m. sent whole ≡ before ++ header ++ request ++ m ++ sent rest)
                    (same_bytes_eq magic magic_answer e)
                    (next (sent whole) (before ++ header ++ request) magic s rest at here))
                  (read_exact-Took 34 rest))
          | inr e ↦ subst (λ b. IsGuarded (if b then answered else refused)) (sym e) (inl same)
        ]
      where
        answered : Handled
        answered = read_sealed_pin p (draw left) ip device_id secret pin st (read_exact 34 rest)

        refused : Handled
        refused =
            failing st (pin_challenge (p.compute_public_key (draw left).private)) rest not_an_answer
    read_answer-Guarded st s (timed_out rest) same at took = inl same
    read_answer-Guarded st s closed same at took = inl same

  challenge_device-Guarded :
      (left : ℕ) (before header request : List ℕ) (st : PairingState) (s : List Signal)
      (o : Option (List ℕ))
      → length header ≡ 12
      → length request ≡ 46
      → take 10 header ≡ magic_pair
      → IsSame st
      → sent whole ≡ before ++ header ++ request ++ sent s
      → p.agree (draw left).private (drop 14 request) ≡ o
      → IsGuarded (challenge_device p (draw left) ip (drop 10 header ++ take 14 request) st s o)
  unfolding challenge_device failing show_prompt
  challenge_device-Guarded left before header request st s none hl rl asks same at agreed = inl same
  challenge_device-Guarded left before header request st s (some secret) hl rl asks same at agreed =
      read_answer-Guarded left before header request secret hl rl asks agreed _ s (read_exact 12 s)
        same at (read_exact-Took 12 s)

  pub handle_pair_request-Guarded :
      (left : ℕ) (before header : List ℕ) (st : PairingState) (s : List Signal) (read : Read)
      → length header ≡ 12
      → take 10 header ≡ magic_pair
      → IsSame st
      → sent whole ≡ before ++ header ++ sent s
      → Took 46 s read
      → IsGuarded (handle_pair_request p (draw left) ip header st read)
  unfolding handle_pair_request failing Took
  handle_pair_request-Guarded left before header st s (got request rest) hl asks same at
        (rl, here) =
      challenge_device-Guarded left before header request st rest _ hl rl asks same
        (next (sent whole) (before ++ header) request s rest at here) refl
  handle_pair_request-Guarded left before header st s (timed_out rest) hl asks same at took =
      inl same
  handle_pair_request-Guarded left before header st s closed hl asks same at took = inl same
