-- ===== src/Pairing/Messages.antt =====
-- Each message of the handshake as its receiver reads it.
use screx_v.Prelude.{
  ℕ, zero, suc, ◌≤◌, ◌≡◌, refl, ap, ap₂, ◌∙◌, none, some, List, [], ◌∷◌, ◌++◌, length, take, drop,
  arith, length-append, length-drop, take-append-drop, take-append_length, drop-append_length, ◌==◌,
  if◌then◌else◌,
}
use mathlib.Core.List.{append_assoc}
use screx_v.Control.Stream.{Signal, got, bytes, read_exact, read_exact-bytes}
use screx_v.History.{same_bytes, encode_hex}
use screx_v.Pairing.{
  Primitives, IsRing, magic_reject, verify_aad, server_verify, pin_key, hmac_sha256, pair_packet,
  answer_packet, hello_packet, pin_challenge, ok_message,
}
use screx_v.Pairing.Devices.{PairingState, get_pairing_key}
use screx_v.Pairing.Daemon.{
  Drawn, handle_pair_request, handle_hello_request, handle_header, attempts, hide_prompt,
  challenge_device, greet_device, retry_after, read_answer, read_sealed_pin, check_pin,
}
use screx_v.Pairing.Client.{
  pin, ok, reject, read_handshake_response, response_of, read_pin_body, read_ok_body, probe,
  parse_ok_body,
}

-- A part of what is there is read, and the rest stays.
read_exact-part :
    (n : ℕ) (bs : List ℕ) (s : List Signal)
    → n ≤ length bs
    → read_exact n (bytes bs ++ s) ≡ got (take n bs) (bytes (drop n bs) ++ s)
unfolding read_exact
read_exact-part zero bs s h = refl
read_exact-part (suc n) [] s h = absurd (omega arith)
read_exact-part (suc n) (b ∷ bs) s h = rw (read_exact-part n bs s (omega arith))

module _ (p : Primitives) (draw : ℕ → Drawn) (ip : List ℕ) (left : ℕ) (ps : PairingState)
    (s : List Signal) where
  pub attempts-pair_packet :
      (device_id public : List ℕ)
      → length device_id ≡ 16
      → length public ≡ 32
      → attempts p draw ip (suc left) ps (bytes (pair_packet device_id public) ++ s)
        ≡ hide_prompt
            (challenge_device p (draw left) ip device_id ps s (p.agree (draw left).private public))
  unfolding attempts handle_header handle_pair_request pair_packet read_exact
  attempts-pair_packet [] public h k = absurd (omega arith)
  attempts-pair_packet (a ∷ []) public h k = absurd (omega arith)
  attempts-pair_packet (a ∷ b ∷ id) public h k = rw (
    read_exact-bytes 46 (id ++ public) s (omega (arith, length-append id public)),
    take-append_length 14 id public (omega arith),
    drop-append_length 14 id public (omega arith),
  )

  pub attempts-hello_packet :
      (device_id nonce : List ℕ)
      → length device_id ≡ 16
      → length nonce ≡ 32
      → attempts p draw ip (suc left) ps (bytes (hello_packet device_id nonce) ++ s) ≡ (
          let h =
            greet_device p (draw left) nonce ps s (get_pairing_key (encode_hex device_id) ps) in
          retry_after (attempts p draw ip left) h h.outcome)
  unfolding attempts handle_header handle_hello_request hello_packet read_exact
  attempts-hello_packet [] nonce h k = absurd (omega arith)
  attempts-hello_packet (a ∷ id) nonce h k = rw (
    read_exact-bytes 47 (id ++ nonce) s (omega (arith, length-append id nonce)),
    take-append_length 15 id nonce (omega arith),
    drop-append_length 15 id nonce (omega arith),
  )

module _ (p : Primitives) (ring : IsRing p) (s : List Signal) where
  pub read_answer-answer_packet :
      (r : Drawn) (ip device_id secret shown nonce typed : List ℕ) (ps : PairingState)
      → length nonce ≡ 12
      → length typed ≡ 6
      → read_answer p r ip device_id secret shown ps
          (read_exact 12 (bytes (answer_packet p secret nonce typed) ++ s))
        ≡ check_pin p r ip device_id secret shown ps s (some typed)
  unfolding read_answer read_sealed_pin answer_packet read_exact
  read_answer-answer_packet r ip device_id secret shown nonce typed ps h k = rw (
    read_exact-bytes 34 (nonce ++ sealed) s (
        omega (
          arith,
          length-append nonce sealed,
          length-append pair.0 pair.1,
          (ring.is_aead (pin_key p secret)).same_length nonce verify_aad typed,
          (ring.is_aead (pin_key p secret)).tag_length nonce verify_aad typed,
        )),
    take-append_length 12 nonce sealed h,
    drop-append_length 12 nonce sealed h,
    (ring.is_aead (pin_key p secret)).opens nonce verify_aad typed,
  )
    where
      pair : List ℕ × List ℕ
      pair = (p.session_cipher (pin_key p secret)).seal nonce verify_aad typed

      sealed : List ℕ
      sealed = pair.0 ++ pair.1

  pub read-pin_challenge :
      (public : List ℕ)
      → length public ≡ 32
      → read_handshake_response (bytes (pin_challenge public) ++ s) ≡ pin public s
  unfolding read_handshake_response response_of read_pin_body pin_challenge read_exact same_bytes
  read-pin_challenge [] h = absurd (omega arith)
  read-pin_challenge (a ∷ []) h = absurd (omega arith)
  read-pin_challenge (a ∷ b ∷ key) h = rw (read_exact-bytes 30 key s (omega arith))

  pub read-magic_reject : read_handshake_response (bytes magic_reject ++ s) ≡ reject
  unfolding read_handshake_response response_of read_exact same_bytes
  read-magic_reject = refl

  pub read-ok_message :
      (daemon_id salt key : List ℕ)
      → length daemon_id ≡ 16
      → length salt ≡ 32
      → read_handshake_response (bytes (ok_message p daemon_id salt key) ++ s)
        ≡ ok (daemon_id ++ salt ++ hmac_sha256 p key server_verify) s
  unfolding read_handshake_response response_of read_ok_body probe ok_message read_exact same_bytes
      hmac_sha256
  read-ok_message [] salt key h k = absurd (omega arith)
  read-ok_message (a ∷ []) salt key h k = absurd (omega arith)
  read-ok_message (a ∷ b ∷ id) salt key h k = rw (
    read_exact-part 62 rest s (omega (arith, size)),
    read_exact-bytes 16 (drop 62 rest) s (omega (arith, size, length-drop 62 rest)),
    take-append-drop 62 rest,
  )
    where
      rest : List ℕ
      rest = id ++ salt ++ p.sign key server_verify

      size : length rest ≡ 78
      size = omega (
        arith,
        length-append (id ++ salt) (p.sign key server_verify),
        length-append id salt,
        ring.mac_length key server_verify,
      )

pub parse_ok_body-parts :
    (daemon_id salt mac : List ℕ)
    → length daemon_id ≡ 16
    → length salt ≡ 32
    → length mac ≡ 32
    → parse_ok_body (daemon_id ++ salt ++ mac) ≡ some (salt, mac)
unfolding parse_ok_body
parse_ok_body-parts daemon_id salt mac h k l =
    ap
      (λ n.
        if n == 64
        then some (take 32 body, drop 32 body)
        else if n == 80
        then some (take 32 (drop 16 body), drop 48 body)
        else none)
      {y = 80} size
    ∙ ap₂ (λ x y. some (take 32 x, y)) tail (drop-append_length 48 (daemon_id ++ salt) mac both)
    ∙ ap (λ x. some (x, mac)) (take-append_length 32 salt mac k)
  where
    body : List ℕ
    body = daemon_id ++ salt ++ mac

    both : length (daemon_id ++ salt) ≡ 48
    both = omega (arith, length-append daemon_id salt)

    size : length body ≡ 80
    size = omega (arith, both, length-append (daemon_id ++ salt) mac)

    tail : drop 16 body ≡ salt ++ mac
    tail =
        ap (drop 16) (append_assoc daemon_id salt mac)
        ∙ drop-append_length 16 daemon_id (salt ++ mac) h
