-- ===== src/Pairing/Refused.antt =====
-- Pairings and hellos that do not go as meant: a wrong PIN, a device that is not known, a daemon that
-- proves nothing, and somebody between the two ends.
use screx_v.Prelude.{
  ℕ, suc, ◌≡◌, ap, Option, ◌∙◌, false, none, some, List, ◌++◌, length, take, drop,
  take-append_length, drop-append_length,
}
use screx_v.Control.Stream.{Signal, bytes}
use screx_v.History
use screx_v.History.Keys.{get-set_pairing_key_self}
use screx_v.History.{StoredState, same_bytes, encode_hex, set_pairing_key}
use screx_v.Pairing.{
  Primitives, IsRing, magic_reject, verify_aad, server_verify, pin_key, pairing_key, session_key,
  hmac_sha256, answer_packet, pair_packet, pin_challenge,
}
use screx_v.Pairing.Devices.{PairingState, get_pairing_key}
use screx_v.Pairing.Daemon.{
  Drawn, failed, wrong_pin, drawn_pin, failing, hide_prompt, show_prompt, check_pin, greet_device,
  retry_after, after_output, attempts, handle_handshake,
}
use screx_v.Pairing.Client.{
  bailed, was_rejected, not_verified, pin_required, complete_pairing, after_answer, store_pairing,
  verified, hello_flow, after_hello, read_handshake_response, ok, parse_ok_body, pair_flow,
  establish_session, get_or_create_device_id, choose_flow, device_id_of,
}
use screx_v.Pairing.Messages.{attempts-hello_packet, read-magic_reject}
use screx_v.Pairing.Ends.{attempts-pairing}
use screx_v.Pairing.Agreement.{waiting, pair_flow-challenge, pairing_key-Key}

-- A pairing in which the user types six digits that are not the PIN on display, under primitives
-- that do what `ring` documents. The daemon answers its challenge with a rejection and fails; its
-- devices are as before, and the PIN is on display no more. The client, on the rejection, says that
-- the pairing was rejected, and stores nothing.
pub wrong_pin_stores_nothing :
    (p : Primitives) (draw : ℕ → Drawn) (ip : List ℕ) (ps : PairingState) (storage : StoredState)
    (private device_id endpoint nonce secret typed : List ℕ) (later after : List Signal)
    → IsRing p
    → length device_id ≡ 16
    → length nonce ≡ 12
    → length typed ≡ 6
    → p.agree private (p.compute_public_key (draw 2).private) ≡ some secret
    → same_bytes typed (drawn_pin (draw 2).pin) ≡ false
    → (let pending = waiting (bytes magic_reject ++ after) endpoint secret in
        let answered = complete_pairing p nonce pending typed storage in
        let request = pair_packet device_id (p.compute_public_key private) in
        let daemon = handle_handshake p draw ip ps (bytes request ++ (bytes answered.0 ++ later)) in
        (daemon.outcome ≡ failed wrong_pin)
        × (daemon.output ≡ pin_challenge (p.compute_public_key (draw 2).private) ++ magic_reject)
        × (daemon.pairing.paired_devices ≡ ps.paired_devices)
        × (daemon.pairing.pairing_prompt ≡ none)
        × (answered.1 ≡ storage)
        × (answered.2 ≡ bailed was_rejected))
unfolding handle_handshake complete_pairing check_pin failing hide_prompt show_prompt after_answer
wrong_pin_stores_nothing p draw ip ps storage private device_id endpoint nonce secret typed later
      after ring hid hn ht agreed differs =
    (
      ap (λ h. h.outcome) daemon_end,
      ap (λ h. h.output) daemon_end,
      ap (λ h. h.pairing.paired_devices) daemon_end,
      ap (λ h. h.pairing.pairing_prompt) daemon_end,
      ap
          (λ r.
            (after_answer p (waiting (bytes magic_reject ++ after) endpoint secret) typed storage
              r).0)
          (read-magic_reject p ring after),
      ap
          (λ r.
            (after_answer p (waiting (bytes magic_reject ++ after) endpoint secret) typed storage
              r).1)
          (read-magic_reject p ring after),
    )
  where
    shown : PairingState
    shown = record (show_prompt ip (drawn_pin (draw 2).pin) ps) {
      pending_pin =
          some
            (record { pin = drawn_pin (draw 2).pin; device_id = device_id; ecdh_secret = secret });
    }

    daemon_end :
        attempts p draw ip 3 ps (
          bytes (pair_packet device_id (p.compute_public_key private))
          ++ (bytes (answer_packet p secret nonce typed) ++ later))
        ≡ hide_prompt (
            failing shown
              (pin_challenge (p.compute_public_key (draw 2).private) ++ magic_reject)
              later
              wrong_pin)
    daemon_end =
        attempts-pairing p ring draw ip 2 ps later private device_id nonce secret typed hid hn ht
          agreed
        ∙ rw differs

-- A hello from a device without a key at the daemon, with an identifier and a nonce of their
-- lengths. The daemon writes a rejection and goes on with the next attempt on the same connection,
-- its state as it was; the client's flow ends with the rejection, under primitives that do what
-- `ring` documents.
unknown_hello_retries :
    (p : Primitives) (draw : ℕ → Drawn) (ip : List ℕ) (left : ℕ) (ps : PairingState)
    (device_id client_nonce key : List ℕ) (later after : List Signal)
    → IsRing p
    → length device_id ≡ 16
    → length client_nonce ≡ 32
    → get_pairing_key (encode_hex device_id) ps ≡ none
    → (let client = hello_flow p client_nonce device_id key (bytes magic_reject ++ after) in
        (attempts p draw ip (suc left) ps (bytes client.0 ++ later)
          ≡ after_output magic_reject (attempts p draw ip left ps later))
        × (client.1 ≡ bailed was_rejected))
unfolding hello_flow after_hello greet_device retry_after
unknown_hello_retries p draw ip left ps device_id client_nonce key later after ring hid hn unknown =
    (
      attempts-hello_packet p draw ip left ps later device_id client_nonce hid hn
          ∙ ap
              (λ o.
                let h = greet_device p (draw left) client_nonce ps later o in
                retry_after (attempts p draw ip left) h h.outcome)
              unknown,
      ap (after_hello p key client_nonce) (read-magic_reject p ring after),
    )

module _ (p : Primitives) (endpoint secret typed : List ℕ) (storage : StoredState)
    (ring : IsRing p) where
  -- The endpoint's key after a pairing, whatever the device's identifier is.
  key_stored :
      (id : Option (List ℕ))
      → History.get_pairing_key endpoint
          (record (set_pairing_key endpoint (pairing_key p secret typed) storage) {
            device_id = id;
          })
        ≡ some (pairing_key p secret typed)
  unfolding History.get_pairing_key set_pairing_key
  key_stored id =
      get-set_pairing_key_self endpoint (pairing_key p secret typed) storage
        (pairing_key-Key p secret typed ring).0 (pairing_key-Key p secret typed ring).1

  hello_with_stored :
      (fresh drawn : List ℕ) (later : List Signal)
      → (let again =
            establish_session p fresh drawn endpoint
              (set_pairing_key endpoint (pairing_key p secret typed) storage)
              later in
          (again.1, again.2)
          ≡ hello_flow p drawn
              (device_id_of storage.device_id fresh)
              (pairing_key p secret typed)
              later)
  unfolding establish_session get_or_create_device_id choose_flow set_pairing_key
  hello_with_stored fresh drawn later =
      ap (choose_flow p drawn endpoint (device_id_of storage.device_id fresh) later)
        (key_stored (some (device_id_of storage.device_id fresh)))

-- An acceptance that reads as one, but whose HMAC is not that of the session key that the client
-- derives, ends the pairing: the daemon was not verified. Yet the next time the client connects to
-- this endpoint it says hello with the key of that pairing, whatever key it had before and whatever
-- it then reads, under primitives that do what `ring` documents.
pub unverified_key_used :
    (p : Primitives) (nonce endpoint secret typed body salt mac fresh drawn : List ℕ)
    (storage : StoredState) (s after later : List Signal)
    → IsRing p
    → read_handshake_response s ≡ ok body after
    → parse_ok_body body ≡ some (salt, mac)
    → same_bytes (hmac_sha256 p (session_key p (pairing_key p secret typed) salt) server_verify) mac
      ≡ false
    → (let done = complete_pairing p nonce (waiting s endpoint secret) typed storage in
        let again = establish_session p fresh drawn endpoint done.1 later in
        (done.2 ≡ bailed not_verified)
        × ((again.1, again.2)
            ≡ hello_flow p drawn
                (device_id_of storage.device_id fresh)
                (pairing_key p secret typed)
                later))
unfolding complete_pairing after_answer store_pairing verified
unverified_key_used p nonce endpoint secret typed body salt mac fresh drawn storage s after later
      ring read parsed fake =
    (
      rw (read, parsed, fake),
      ap (λ st. let again = establish_session p fresh drawn endpoint st later in (again.1, again.2))
            stored
          ∙ hello_with_stored p endpoint secret typed storage ring fresh drawn later,
    )
  where
    stored :
        (complete_pairing p nonce (waiting s endpoint secret) typed storage).1
        ≡ set_pairing_key endpoint (pairing_key p secret typed) storage
    stored = rw (read, parsed)

-- Whoever answers a request with a challenge of their own, from a private key that they hold, gets
-- the PIN: the client asks its user for it, and the answer that it then sends opens under the
-- secret of the two. This is so under primitives that do what `ring` documents, with a nonce of its
-- length, where the agreement succeeds.
pub middle_reads_pin :
    (p : Primitives) (private middle device_id endpoint nonce secret typed : List ℕ)
    (storage : StoredState) (s : List Signal)
    → IsRing p
    → length nonce ≡ 12
    → p.agree private (p.compute_public_key middle) ≡ some secret
    → (let asked =
          pair_flow p private endpoint device_id
            (bytes (pin_challenge (p.compute_public_key middle)) ++ s) in
        let answer = (complete_pairing p nonce (waiting s endpoint secret) typed storage).0 in
        (asked.1 ≡ pin_required (waiting s endpoint secret))
        × (p.agree middle (p.compute_public_key private) ≡ some secret)
        × ((p.session_cipher (pin_key p secret)).unseal
              (take 12 (drop 12 answer))
              verify_aad
              (drop 12 (drop 12 answer))
            ≡ some typed))
unfolding complete_pairing answer_packet
middle_reads_pin p private middle device_id endpoint nonce secret typed storage s ring hn agreed = (
  pair_flow-challenge p private endpoint device_id (p.compute_public_key middle) secret s
      (ring.public_length middle) ring agreed,
  ring.agrees middle private ∙ agreed,
  rw (take-append_length 12 nonce sealed hn, drop-append_length 12 nonce sealed hn)
      ((ring.is_aead (pin_key p secret)).opens nonce verify_aad typed),
)
  where
    pair : List ℕ × List ℕ
    pair = (p.session_cipher (pin_key p secret)).seal nonce verify_aad typed

    sealed : List ℕ
    sealed = pair.0 ++ pair.1
