-- ===== src/Pairing/Ends.antt =====
-- Each end of a pairing and of a hello, on what the other end sends.
use screx_v.Prelude.{
  ap₂, ℕ, zero, suc, ◌+◌, ◌%◌, ◌/◌, ◌≡◌, refl, ap, sym, ◌∙◌, none, some, List, [], ◌∷◌, ◌++◌,
  length, arith, length-append, ◌==◌, if◌then◌else◌, All,
}
use screx_v.Bytes.{IsByte, from_be32}
use screx_v.Control.Stream.{Signal, bytes}
use screx_v.History
use screx_v.History.{StoredState, same_bytes, encode_hex, decode_pairs, set_pairing_key}
use screx_v.History.Keys.{same_bytes_self, decode_pairs-encode_hex, length-encode_hex}
use screx_v.Pairing.{
  Primitives, IsRing, server_verify, pairing_key, session_key, hmac_sha256, answer_packet,
  pair_packet, hello_packet, ok_message,
}
use screx_v.Pairing.Devices.{
  PairingState, hex_decode, of_length, find_device, key_of_device, get_pairing_key, store_device,
  padded, generate_pin,
}
use screx_v.Pairing.Daemon.{
  Drawn, drawn_pin, show_prompt, hide_prompt, accept_device, check_pin, challenge_device, attempts,
}
use screx_v.Pairing.Client.{
  established, verified, complete_pairing, after_answer, store_pairing, hello_flow,
  establish_session, get_or_create_device_id, device_id_of, choose_flow, parse_ok_body, after_hello,
  verify_hello,
}
use screx_v.Pairing.Messages.{
  attempts-pair_packet, read_answer-answer_packet, read-ok_message, parse_ok_body-parts,
}

length-padded : (digits n : ℕ) → length (padded digits n) ≡ digits
unfolding padded
length-padded zero n = refl
length-padded (suc digits) n = omega (
  arith,
  length-padded digits (n / 10),
  length-append (padded digits (n / 10)) ((48 + n % 10) ∷ []),
)

pub length-drawn_pin : (drawn : List ℕ) → length drawn ≡ 4 → length (drawn_pin drawn) ≡ 6
unfolding drawn_pin generate_pin
length-drawn_pin [] h = absurd (omega arith)
length-drawn_pin (a ∷ []) h = absurd (omega arith)
length-drawn_pin (a ∷ b ∷ []) h = absurd (omega arith)
length-drawn_pin (a ∷ b ∷ c ∷ []) h = absurd (omega arith)
length-drawn_pin (a ∷ b ∷ c ∷ d ∷ more) h = length-padded 6 (from_be32 a b c d % 1000000)

pub hex_decode-encode_hex : (bs : List ℕ) → All IsByte bs → hex_decode (encode_hex bs) ≡ some bs
unfolding hex_decode
hex_decode-encode_hex bs h =
    ap (λ n. if n == 0 then decode_pairs (encode_hex bs) else none) {y = 0}
      (omega (arith, length-encode_hex bs))
    ∙ decode_pairs-encode_hex bs h

pub get_pairing_key-store_device :
    (device_id key name now : List ℕ) (ps : PairingState)
    → length key ≡ 32
    → All IsByte key
    → get_pairing_key (encode_hex device_id) (store_device device_id key name now ps) ≡ some key
unfolding get_pairing_key store_device find_device key_of_device of_length
get_pairing_key-store_device device_id key name now ps h k =
    rw (same_bytes_self (encode_hex device_id), hex_decode-encode_hex key k, h)

module _ (p : Primitives) (ring : IsRing p) (draw : ℕ → Drawn) (ip : List ℕ) (left : ℕ)
    (ps : PairingState) (later : List Signal) (private device_id nonce secret typed : List ℕ)
    (id_length : length device_id ≡ 16) (nonce_length : length nonce ≡ 12)
    (typed_length : length typed ≡ 6)
    (agreed : p.agree private (p.compute_public_key (draw left).private) ≡ some secret) where
  -- What the daemon does with a request and the answer to its challenge.
  pub attempts-pairing :
      attempts p draw ip (suc left) ps (
        bytes (pair_packet device_id (p.compute_public_key private))
        ++ (bytes (answer_packet p secret nonce typed) ++ later))
      ≡ hide_prompt (
          check_pin p
            (draw left)
            ip
            device_id
            secret
            (drawn_pin (draw left).pin)
            (record (show_prompt ip (drawn_pin (draw left).pin) ps) {
              pending_pin = some (record {
                pin = drawn_pin (draw left).pin;
                device_id = device_id;
                ecdh_secret = secret;
              });
            })
            later
            (some typed))
  unfolding challenge_device
  attempts-pairing =
      attempts-pair_packet p draw ip left ps (bytes (answer_packet p secret nonce typed) ++ later)
        device_id (p.compute_public_key private) id_length (ring.public_length private)
      ∙ rw (ring.agrees (draw left).private private ∙ agreed) (
          ap hide_prompt (
            read_answer-answer_packet p ring later (draw left) ip device_id secret
              (drawn_pin (draw left).pin) nonce typed _ nonce_length typed_length))

module _ (p : Primitives) (ring : IsRing p) (daemon_id salt : List ℕ) (after : List Signal)
    (id_length : length daemon_id ≡ 16) (salt_length : length salt ≡ 32) where
  parsed :
      (key : List ℕ)
      → parse_ok_body (daemon_id ++ salt ++ hmac_sha256 p key server_verify)
        ≡ some (salt, hmac_sha256 p key server_verify)
  unfolding hmac_sha256
  parsed key =
      parse_ok_body-parts daemon_id salt (p.sign key server_verify) id_length salt_length
        (ring.mac_length key server_verify)

  verified-hmac :
      (key : List ℕ)
      → verified p key (hmac_sha256 p key server_verify) after ≡ established after key
  unfolding verified
  verified-hmac key = rw (same_bytes_self (hmac_sha256 p key server_verify))

  -- The client's end when the acceptance proves the key that it derives itself.
  pub complete_pairing-ok_message :
      (nonce endpoint secret typed : List ℕ) (storage : StoredState)
      → (let key = pairing_key p secret typed in
          complete_pairing p nonce
            (record {
              tcp = bytes (ok_message p daemon_id salt (session_key p key salt)) ++ after;
              endpoint_key = endpoint;
              ecdh_secret = secret;
            })
            typed
            storage
          ≡ (
            answer_packet p secret nonce typed,
            set_pairing_key endpoint key storage,
            established after (session_key p key salt),
          ))
  unfolding complete_pairing after_answer store_pairing
  complete_pairing-ok_message nonce endpoint secret typed storage =
      let proved = session_key p (pairing_key p secret typed) salt in
      rw (
        read-ok_message p ring after daemon_id salt proved id_length salt_length,
        parsed proved,
        verified-hmac proved,
      )

  pub hello_flow-ok_message :
      (client_nonce device_id key : List ℕ)
      → (let proved = session_key p key (client_nonce ++ salt) in
          hello_flow p client_nonce device_id key
            (bytes (ok_message p daemon_id salt proved) ++ after)
          ≡ (hello_packet device_id client_nonce, established after proved))
  unfolding hello_flow after_hello verify_hello
  hello_flow-ok_message client_nonce device_id key =
      let proved = session_key p key (client_nonce ++ salt) in
      rw (
        read-ok_message p ring after daemon_id salt proved id_length salt_length,
        parsed proved,
        verified-hmac proved,
      )

-- The PIN that the user reads off is the one the daemon drew.
pub check_pin-shown :
    (p : Primitives) (r : Drawn) (ip device_id secret shown : List ℕ) (ps : PairingState)
    (s : List Signal)
    → check_pin p r ip device_id secret shown ps s (some shown)
      ≡ accept_device p r ip device_id secret shown ps s
unfolding check_pin
check_pin-shown p r ip device_id secret shown ps s = rw (same_bytes_self shown)

-- The client has an identifier, and a key for the endpoint.
pub establish_session-known :
    (p : Primitives) (fresh drawn endpoint device_id key : List ℕ) (storage : StoredState)
    (s : List Signal)
    → storage.device_id ≡ some device_id
    → History.get_pairing_key endpoint storage ≡ some key
    → establish_session p fresh drawn endpoint storage s
      ≡ (storage, (hello_flow p drawn device_id key s).0, (hello_flow p drawn device_id key s).1)
unfolding establish_session get_or_create_device_id choose_flow device_id_of
establish_session-known p fresh drawn endpoint device_id key storage s has_id at_client =
    ap₂
      (λ (st : StoredState) (id : List ℕ).
        let flow = choose_flow p drawn endpoint id s (History.get_pairing_key endpoint st) in
        (st, flow.0, flow.1))
      same known
    ∙ ap (λ o. let flow = choose_flow p drawn endpoint device_id s o in (storage, flow.0, flow.1))
        at_client
  where
    known : device_id_of storage.device_id fresh ≡ device_id
    known = ap (λ o. device_id_of o fresh) has_id

    same : record storage { device_id = some (device_id_of storage.device_id fresh) } ≡ storage
    same = λ i. record storage { device_id = (ap some known ∙ sym has_id) i }
