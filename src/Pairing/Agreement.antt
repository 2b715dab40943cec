-- ===== src/Pairing/Agreement.antt =====
-- A pairing and a hello, with both ends of the connection.
use screx_v.Prelude.{ℕ, ◌≡◌, ap, ◌∙◌, none, some, All, List, ◌++◌, length}
use screx_v.Bytes.{IsByte}
use screx_v.Control.Stream.{Signal, bytes}
use screx_v.History
use screx_v.History.{StoredState, encode_hex, set_pairing_key, same_bytes}
use screx_v.History.Keys.{get-set_pairing_key_self}
use screx_v.Pairing.{
  pair_packet, answer_packet, hello_packet, Primitives, IsRing, pairing_key, session_key,
  hkdf_sha256, pin_challenge, ok_message,
}
use screx_v.Pairing.Devices.{PairingState, get_pairing_key}
use screx_v.Pairing.Daemon.{
  greet_device, retry_after, attempts, Drawn, session, drawn_pin, hide_prompt, show_prompt,
  clear_pending, accept_device, handle_handshake,
}
use screx_v.Pairing.Client.{
  establish_session, PendingPairing, established, ConnectResult, pin_required, pair_flow,
  after_pair, await_pin, complete_pairing, establish_session,
}
use screx_v.Pairing.Messages.{read-pin_challenge, attempts-hello_packet}
use screx_v.Pairing.Ends.{
  length-drawn_pin, get_pairing_key-store_device, establish_session-known, attempts-pairing,
  check_pin-shown, complete_pairing-ok_message, hello_flow-ok_message,
}

-- A pairing that waits for the user, with what will still come from the daemon.
abbrev pub waiting : List Signal → (endpoint secret : List ℕ) → PendingPairing
waiting s endpoint secret = record { tcp = s; endpoint_key = endpoint; ecdh_secret = secret }

-- The daemon's state while it waits for the answer.
abbrev displaying : (ip device_id secret typed : List ℕ) → PairingState → PairingState
displaying ip device_id secret typed ps = record (show_prompt ip typed ps) {
  pending_pin = some (record { pin = typed; device_id = device_id; ecdh_secret = secret });
}

handle_handshake-pairing :
    (p : Primitives) (draw : ℕ → Drawn) (ip : List ℕ) (ps : PairingState)
    (private device_id nonce secret : List ℕ) (later : List Signal)
    → IsRing p
    → length device_id ≡ 16
    → length nonce ≡ 12
    → length (draw 2).pin ≡ 4
    → p.agree private (p.compute_public_key (draw 2).private) ≡ some secret
    → (let typed = drawn_pin (draw 2).pin in
        handle_handshake p draw ip ps (
          bytes (pair_packet device_id (p.compute_public_key private))
          ++ (bytes (answer_packet p secret nonce typed) ++ later))
        ≡ hide_prompt (
            accept_device p
              (draw 2)
              ip
              device_id
              secret
              typed
              (displaying ip device_id secret typed ps)
              later))
unfolding handle_handshake
handle_handshake-pairing p draw ip ps private device_id nonce secret later ring hid hn hp agreed =
    let typed = drawn_pin (draw 2).pin in
    attempts-pairing p ring draw ip 2 ps later private device_id nonce secret typed hid hn
      (length-drawn_pin (draw 2).pin hp) agreed
    ∙ ap hide_prompt (
        check_pin-shown p (draw 2) ip device_id secret typed
          (displaying ip device_id secret typed ps) later)

pub pair_flow-challenge :
    (p : Primitives) (private endpoint device_id public secret : List ℕ) (s : List Signal)
    → length public ≡ 32
    → IsRing p
    → p.agree private public ≡ some secret
    → (pair_flow p private endpoint device_id (bytes (pin_challenge public) ++ s)).1
      ≡ pin_required (waiting s endpoint secret)
unfolding pair_flow after_pair await_pin
pair_flow-challenge p private endpoint device_id public secret s h ring agreed =
    rw (read-pin_challenge p ring s public h, h, agreed)

pub pairing_key-Key :
    (p : Primitives) (secret pin : List ℕ)
    → IsRing p
    → (length (pairing_key p secret pin) ≡ 32) × All IsByte (pairing_key p secret pin)
unfolding pairing_key hkdf_sha256
pairing_key-Key p secret pin ring = (ring.key_length _ _, ring.key_bytes _ _)

-- A pairing in which the user types the PIN on display, under primitives that do what `ring`
-- documents, with identifiers, nonces and salts of their lengths, and where the client's agreement
-- with the daemon's public key gives a secret. The client, on the daemon's challenge, asks for the
-- PIN; on the client's request and answer the daemon writes the challenge and the acceptance; both
-- ends then have the same session key, and the same pairing key is found under the device's
-- identifier at the daemon and under the endpoint at the client. No PIN is on display any more.
pub pairing_agrees :
    (p : Primitives) (draw : ℕ → Drawn) (ip : List ℕ) (ps : PairingState) (storage : StoredState)
    (private device_id endpoint nonce secret : List ℕ) (later after : List Signal)
    → IsRing p
    → length device_id ≡ 16
    → length nonce ≡ 12
    → length ps.daemon_device_id ≡ 16
    → length (draw 2).pin ≡ 4
    → length (draw 2).salt ≡ 32
    → p.agree private (p.compute_public_key (draw 2).private) ≡ some secret
    → (let typed = drawn_pin (draw 2).pin in
        let key = pairing_key p secret typed in
        let proved = session_key p key (draw 2).salt in
        let challenge = pin_challenge (p.compute_public_key (draw 2).private) in
        let acceptance = ok_message p ps.daemon_device_id (draw 2).salt proved in
        let asked =
          pair_flow p private endpoint device_id (bytes challenge ++ (bytes acceptance ++ after)) in
        let pending = waiting (bytes acceptance ++ after) endpoint secret in
        let answered = complete_pairing p nonce pending typed storage in
        let daemon = handle_handshake p draw ip ps (bytes asked.0 ++ (bytes answered.0 ++ later)) in
        (asked.1 ≡ pin_required pending)
        × (daemon.output ≡ challenge ++ acceptance)
        × (daemon.outcome ≡ session proved)
        × (answered.2 ≡ established after proved)
        × (get_pairing_key (encode_hex device_id) daemon.pairing ≡ some key)
        × (History.get_pairing_key endpoint answered.1 ≡ some key)
        × (daemon.pairing.pairing_prompt ≡ none))
unfolding accept_device hide_prompt clear_pending pair_flow complete_pairing show_prompt
    get_pairing_key
pairing_agrees p draw ip ps storage private device_id endpoint nonce secret later after ring hid hn
      hd hp hs agreed =
    (
      pair_flow-challenge p private endpoint device_id (p.compute_public_key (draw 2).private)
          secret (bytes acceptance ++ after) (ring.public_length (draw 2).private) ring agreed,
      ap (λ h. h.output) daemon_end,
      ap (λ h. h.outcome) daemon_end,
      ap (λ c. c.2) client_end,
      ap (λ h. get_pairing_key (encode_hex device_id) h.pairing) daemon_end
          ∙ get_pairing_key-store_device device_id key ip (draw 2).now
              (displaying ip device_id secret typed ps) (pairing_key-Key p secret typed ring).0
              (pairing_key-Key p secret typed ring).1,
      ap (λ c. History.get_pairing_key endpoint c.1) client_end
          ∙ get-set_pairing_key_self endpoint key storage (pairing_key-Key p secret typed ring).0
              (pairing_key-Key p secret typed ring).1,
      ap (λ h. h.pairing.pairing_prompt) daemon_end,
    )
  where
    typed : List ℕ
    typed = drawn_pin (draw 2).pin

    key : List ℕ
    key = pairing_key p secret typed

    acceptance : List ℕ
    acceptance = ok_message p ps.daemon_device_id (draw 2).salt (session_key p key (draw 2).salt)

    daemon_end :
        handle_handshake p draw ip ps (
          bytes (pair_packet device_id (p.compute_public_key private))
          ++ (bytes (answer_packet p secret nonce typed) ++ later))
        ≡ hide_prompt (
            accept_device p
              (draw 2)
              ip
              device_id
              secret
              typed
              (displaying ip device_id secret typed ps)
              later)
    daemon_end =
        handle_handshake-pairing p draw ip ps private device_id nonce secret later ring hid hn hp
          agreed

    client_end :
        complete_pairing p nonce (waiting (bytes acceptance ++ after) endpoint secret) typed storage
        ≡ (
          answer_packet p secret nonce typed,
          set_pairing_key endpoint key storage,
          established after (session_key p key (draw 2).salt),
        )
    client_end =
        complete_pairing-ok_message p ring ps.daemon_device_id (draw 2).salt after hd hs nonce
          endpoint secret typed storage

-- A device that is stored at both ends says hello, under primitives that do what `ring` documents,
-- with identifiers, nonces and salts of their lengths. The client, which has a key for the endpoint,
-- chooses to say hello; the daemon answers with the acceptance and keeps its devices and what comes
-- later on the connection; both ends have the same session key, from the pairing key and both
-- nonces, and the client's storage is as before.
pub hello_agrees :
    (p : Primitives) (draw : ℕ → Drawn) (ip : List ℕ) (ps : PairingState) (storage : StoredState)
    (fresh client_nonce device_id endpoint key : List ℕ) (later after : List Signal)
    → IsRing p
    → length device_id ≡ 16
    → length client_nonce ≡ 32
    → length ps.daemon_device_id ≡ 16
    → length (draw 2).salt ≡ 32
    → storage.device_id ≡ some device_id
    → History.get_pairing_key endpoint storage ≡ some key
    → get_pairing_key (encode_hex device_id) ps ≡ some key
    → (let proved = session_key p key (client_nonce ++ (draw 2).salt) in
        let acceptance = ok_message p ps.daemon_device_id (draw 2).salt proved in
        let client =
          establish_session p fresh client_nonce endpoint storage (bytes acceptance ++ after) in
        let daemon = handle_handshake p draw ip ps (bytes client.1 ++ later) in
        (client.2 ≡ established after proved)
        × (client.0 ≡ storage)
        × (daemon.outcome ≡ session proved)
        × (daemon.output ≡ acceptance)
        × (daemon.pairing ≡ ps)
        × (daemon.input ≡ later))
unfolding handle_handshake greet_device retry_after
hello_agrees p draw ip ps storage fresh client_nonce device_id endpoint key later after ring hid hn
      hd hs has_id at_client at_daemon =
    (
      ap (λ c. c.2) client_end,
      ap (λ c. c.0) client_end,
      ap (λ h. h.outcome) daemon_end,
      ap (λ h. h.output) daemon_end,
      ap (λ h. h.pairing) daemon_end,
      ap (λ h. h.input) daemon_end,
    )
  where
    proved : List ℕ
    proved = session_key p key (client_nonce ++ (draw 2).salt)

    client_end :
        establish_session p fresh client_nonce endpoint storage
          (bytes (ok_message p ps.daemon_device_id (draw 2).salt proved) ++ after)
        ≡ (storage, hello_packet device_id client_nonce, established after proved)
    client_end =
        establish_session-known p fresh client_nonce endpoint device_id key storage _ has_id
          at_client
        ∙ ap (λ (f : List ℕ × ConnectResult). (storage, f.0, f.1))
            (hello_flow-ok_message p ring ps.daemon_device_id (draw 2).salt after hd hs client_nonce
              device_id key)

    daemon_end :
        handle_handshake p draw ip ps (
          bytes
            (establish_session p fresh client_nonce endpoint storage
              (bytes (ok_message p ps.daemon_device_id (draw 2).salt proved) ++ after)).1
          ++ later)
        ≡ greet_device p (draw 2) client_nonce ps later (some key)
    daemon_end =
        ap (λ c. handle_handshake p draw ip ps (bytes c.1 ++ later)) client_end
        ∙ attempts-hello_packet p draw ip 2 ps later device_id client_nonce hid hn
        ∙ ap
            (λ o.
              let h = greet_device p (draw 2) client_nonce ps later o in
              retry_after (attempts p draw ip 2) h h.outcome)
            at_daemon
