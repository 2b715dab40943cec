-- ===== src/Pairing/Tests.antt =====
-- The pairing theorems on one pair of devices, with a toy in place of the cryptography.
use screx_v.Prelude.{
  zero, suc, take, drop, ℕ, ◌+◌, ◌%◌, ◌≡◌, refl, ap, some, none, List, [], ◌∷◌, ◌++◌, replicate,
  arith, All, ◌⊎◌,
}
use screx_v.Bytes.{IsByte}
use screx_v.Crypto.Plain.{plain, plain-IsAead}
use screx_v.Control.Stream.{Signal, bytes, pause}
use screx_v.History
use screx_v.History.{StoredState, default_state, same_bytes, encode_hex, set_pairing_key}
use screx_v.Pairing.{
  magic_ok, Primitives, IsRing, magic_reject, verify_aad, pin_key, pairing_key, session_key,
  hmac_sha256, pair_packet, pin_challenge, ok_message,
}
use screx_v.Pairing.Devices.{PairingState, get_pairing_key}
use screx_v.Pairing.Daemon.{Drawn, session, failed, wrong_pin, drawn_pin, handle_handshake}
use screx_v.Pairing.Client.{
  established, pin_required, bailed, was_rejected, not_verified, pair_flow, complete_pairing,
  establish_session, hello_flow, device_id_of, read_handshake_response, parse_ok_body,
}
use screx_v.Pairing.Agreement.{waiting, pairing_agrees, hello_agrees}
use screx_v.Pairing.Safety.{devices_guarded}
use screx_v.Pairing.Answers.{SentPin}
use screx_v.Pairing.Refused.{wrong_pin_stores_nothing, unverified_key_used, middle_reads_pin}

-- 32 bytes that depend on all the bytes given.
sum : List ℕ → ℕ
sum [] = 0
sum (x ∷ xs) = x + sum xs

abbrev digest : List ℕ → List ℕ
digest xs = sum xs % 256 ∷ replicate 31 0

first : List ℕ → ℕ
first [] = 0
first (x ∷ xs) = x

zeros-All : (n : ℕ) → All IsByte (replicate n 0)
zeros-All zero = tt
zeros-All (suc n) = (omega arith, zeros-All n)

abbrev toy : Primitives
toy = record {
  compute_public_key = λ private. first private ∷ replicate 31 0;
  agree = λ private public. some ((first private + first public) ∷ []);
  extract = λ salt ikm. salt ++ ikm;
  expand = λ prk info. digest (prk ++ info);
  sign = λ key payload. digest (key ++ payload);
  session_cipher = λ key. plain;
}

toy-IsRing : IsRing toy
unfolding first
toy-IsRing = record {
  public_length = λ private. refl;
  agrees = λ a b. ap (λ n. some (n ∷ [])) (omega arith);
  key_length = λ prk info. refl;
  key_bytes = λ prk info. (omega arith, zeros-All 31);
  mac_length = λ key payload. refl;
  is_aead = λ key. plain-IsAead;
}

abbrev draw : ℕ → Drawn
draw left = record {
  private = 5 ∷ [];
  pin = 0 ∷ 1 ∷ 226 ∷ 64 ∷ [];
  salt = replicate 32 left;
  now = 49 ∷ [];
}

abbrev daemon : PairingState
daemon = record {
  paired_devices = [];
  daemon_device_id = replicate 16 8;
  pending_pin = none;
  pairing_prompt = none;
}

abbrev ip : List ℕ
ip = 49 ∷ 46 ∷ 49 ∷ []

abbrev device : List ℕ
device = replicate 16 1

abbrev endpoint : List ℕ
endpoint = 104 ∷ 58 ∷ 49 ∷ []

abbrev nonce : List ℕ
nonce = replicate 12 3

abbrev secret : List ℕ
secret = 9 ∷ []

abbrev typed : List ℕ
typed = drawn_pin (draw 2).pin

abbrev key : List ℕ
key = pairing_key toy secret typed

abbrev challenge : List ℕ
challenge = pin_challenge (5 ∷ replicate 31 0)

abbrev acceptance : List ℕ
acceptance = ok_message toy (replicate 16 8) (replicate 32 2) (session_key toy key (replicate 32 2))

pairing_agrees_example :
    (let asked =
        pair_flow toy (4 ∷ []) endpoint device (bytes challenge ++ (bytes acceptance ++ [])) in
      let pending = waiting (bytes acceptance ++ []) endpoint secret in
      let answered = complete_pairing toy nonce pending typed default_state in
      let done =
        handle_handshake toy draw ip daemon (bytes asked.0 ++ (bytes answered.0 ++ (pause ∷ []))) in
      (asked.1 ≡ pin_required pending)
      × (done.output ≡ challenge ++ acceptance)
      × (done.outcome ≡ session (session_key toy key (replicate 32 2)))
      × (answered.2 ≡ established [] (session_key toy key (replicate 32 2)))
      × (get_pairing_key (encode_hex device) done.pairing ≡ some key)
      × (History.get_pairing_key endpoint answered.1 ≡ some key)
      × (done.pairing.pairing_prompt ≡ none))
unfolding first
pairing_agrees_example =
    pairing_agrees toy draw ip daemon default_state (4 ∷ []) device endpoint nonce secret
      (pause ∷ []) [] toy-IsRing refl refl refl refl refl refl

abbrev paired : PairingState
paired = record daemon {
  paired_devices =
      (
        encode_hex device,
        record { pairing_key = encode_hex (replicate 32 7); name = ip; paired_at = [] },
      )
      ∷ [];
}

abbrev stored : StoredState
stored = record {
  device_id = some device;
  pairings = (endpoint, encode_hex (replicate 32 7)) ∷ [];
  recent_connections = [];
}

hello_agrees_example :
    (let proved = session_key toy (replicate 32 7) (replicate 32 6 ++ replicate 32 2) in
      let answer = ok_message toy (replicate 16 8) (replicate 32 2) proved in
      let client =
        establish_session toy [] (replicate 32 6) endpoint stored (bytes answer ++ (pause ∷ [])) in
      let done = handle_handshake toy draw ip paired (bytes client.1 ++ []) in
      (client.2 ≡ established (pause ∷ []) proved)
      × (client.0 ≡ stored)
      × (done.outcome ≡ session proved)
      × (done.output ≡ answer)
      × (done.pairing ≡ paired)
      × (done.input ≡ []))
unfolding get_pairing_key History.get_pairing_key encode_hex
hello_agrees_example =
    hello_agrees toy draw ip paired stored [] (replicate 32 6) device endpoint (replicate 32 7) []
      (pause ∷ []) toy-IsRing refl refl refl refl refl refl refl

-- What the client sends when its user types the PIN.
abbrev typed_pin : List Signal
typed_pin =
    let asked =
      pair_flow toy (4 ∷ []) endpoint device (bytes challenge ++ (bytes acceptance ++ [])) in
    let pending = waiting (bytes acceptance ++ []) endpoint secret in
    let answered = complete_pairing toy nonce pending typed default_state in
    bytes asked.0 ++ (bytes answered.0 ++ [])

devices_guarded_example :
    ((handle_handshake toy draw ip paired typed_pin).pairing.paired_devices ≡ paired.paired_devices)
    ⊎ SentPin toy draw ip paired typed_pin
        (handle_handshake toy draw ip paired typed_pin).pairing.paired_devices
devices_guarded_example = devices_guarded toy draw ip paired typed_pin

wrong_pin_stores_nothing_example :
    (let pending = waiting (bytes magic_reject ++ []) endpoint secret in
      let answered = complete_pairing toy nonce pending (replicate 6 48) default_state in
      let request = pair_packet device (4 ∷ replicate 31 0) in
      let done = handle_handshake toy draw ip paired (bytes request ++ (bytes answered.0 ++ [])) in
      (done.outcome ≡ failed wrong_pin)
      × (done.output ≡ challenge ++ magic_reject)
      × (done.pairing.paired_devices ≡ paired.paired_devices)
      × (done.pairing.pairing_prompt ≡ none)
      × (answered.1 ≡ default_state)
      × (answered.2 ≡ bailed was_rejected))
unfolding first drawn_pin same_bytes
wrong_pin_stores_nothing_example =
    wrong_pin_stores_nothing toy draw ip paired default_state (4 ∷ []) device endpoint nonce secret
      (replicate 6 48) [] [] toy-IsRing refl refl refl refl refl

-- An acceptance whose HMAC is all zeros.
abbrev forged : List ℕ
forged = magic_ok ++ (replicate 16 8 ++ replicate 32 2 ++ replicate 32 0)

unverified_key_used_example :
    (let done = complete_pairing toy nonce (waiting (bytes forged) endpoint secret) typed stored in
      let again = establish_session toy [] (replicate 32 6) endpoint done.1 (pause ∷ []) in
      (done.2 ≡ bailed not_verified)
      × ((again.1, again.2)
          ≡ hello_flow toy (replicate 32 6) device (pairing_key toy secret typed) (pause ∷ [])))
unfolding read_handshake_response parse_ok_body same_bytes hmac_sha256 session_key pairing_key
    drawn_pin sum device_id_of
unverified_key_used_example =
    unverified_key_used toy nonce endpoint secret typed
      (replicate 16 8 ++ replicate 32 2 ++ replicate 32 0) (replicate 32 2) (replicate 32 0) []
      (replicate 32 6) stored (bytes forged) [] (pause ∷ []) toy-IsRing refl refl refl

middle_reads_pin_example :
    (let asked = pair_flow toy (4 ∷ []) endpoint device (bytes challenge ++ []) in
      let answer = (complete_pairing toy nonce (waiting [] endpoint secret) typed stored).0 in
      (asked.1 ≡ pin_required (waiting [] endpoint secret))
      × (toy.agree (5 ∷ []) (4 ∷ replicate 31 0) ≡ some secret)
      × ((toy.session_cipher (pin_key toy secret)).unseal
            (take 12 (drop 12 answer))
            verify_aad
            (drop 12 (drop 12 answer))
          ≡ some typed))
unfolding first
middle_reads_pin_example =
    middle_reads_pin toy (4 ∷ []) (5 ∷ []) device endpoint nonce secret typed stored [] toy-IsRing
      refl refl
