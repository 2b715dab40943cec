-- ===== src/Pairing/Daemon.antt =====
-- The daemon's side of the handshake: handle_handshake, handle_pair_request and
-- handle_hello_request of daemon/src/pairing.rs. The socket is what it hands to `read_exact` and the
-- bytes written to it; a write succeeds. A pause is 30 seconds of silence, the socket's timeout.
use screx_v.Prelude.{
  ℕ, zero, suc, Option, none, some, List, [], ◌∷◌, ◌++◌, take, drop, if◌then◌else◌,
}
use screx_v.Control.Stream.{Signal, Read, got, timed_out, closed, read_exact}
use screx_v.History.{same_bytes, encode_hex}
use screx_v.Pairing.{
  Primitives, magic_pair, magic_hello, magic_answer, magic_reject, verify_aad, pin_key, pairing_key,
  session_key, pin_challenge, ok_message,
}
use screx_v.Pairing.Devices.{PairingState, get_pairing_key, store_device, generate_pin}

-- What the random generator and the clock give to one attempt: a private key, the four bytes of
-- the PIN, the salt or nonce of the answer, and the time.
pub record Drawn : Type 0 where
  pub private : List ℕ
  pub pin : List ℕ
  pub salt : List ℕ
  pub now : List ℕ

pub data Failure : Type 0 where
  too_many_attempts : Failure
  read_failed : Failure
  unknown_magic : Failure
  agreement_failed : Failure
  not_an_answer : Failure
  wrong_pin : Failure
  pin_decryption_failed : Failure

-- `Ok` with the session's key, an error, or a hello that was rejected.
pub data Outcome : Type 0 where
  session : (key : List ℕ) → Outcome
  failed : Failure → Outcome
  rejected : Outcome

-- What a handler leaves behind: the state, what it wrote, what it did not read, and its result.
pub record Handled : Type 0 where
  pub pairing : PairingState
  pub output : List ℕ
  pub input : List Signal
  pub outcome : Outcome

unfoldable pub failing : PairingState → List ℕ → List Signal → Failure → Handled
failing ps out s why = record { pairing = ps; output = out; input = s; outcome = failed why }

unfoldable pub show_prompt : (ip pin : List ℕ) → PairingState → PairingState
show_prompt ip pin ps = record ps { pairing_prompt = some (ip, pin) }

unfoldable pub hide_prompt : Handled → Handled
hide_prompt h = record h { pairing = record h.pairing { pairing_prompt = none } }

unfoldable pub clear_pending : PairingState → PairingState
clear_pending ps = record ps { pending_pin = none }

-- The PIN was right: the device is stored and the acceptance sent.
unfoldable pub accept_device :
    Primitives → Drawn → (ip device_id secret pin : List ℕ) → PairingState → List Signal → Handled
unfolding store_device pairing_key session_key ok_message pin_challenge clear_pending
accept_device p r ip device_id secret pin ps s =
    let key = pairing_key p secret pin in
    let established = session_key p key r.salt in
    record {
      pairing = clear_pending (store_device device_id key ip r.now ps);
      output =
          pin_challenge (p.compute_public_key r.private)
          ++ ok_message p ps.daemon_device_id r.salt established;
      input = s;
      outcome = session established;
    }

-- The PIN in the answer, if the answer could be opened, is compared with the one on display. Bytes
-- that are not UTF-8 count as no PIN, so that a comparison of bytes says the same.
unfoldable pub check_pin :
    Primitives
    → Drawn
    → (ip device_id secret pin : List ℕ) → PairingState
    → List Signal
    → Option (List ℕ)
    → Handled
unfolding failing accept_device pin_challenge same_bytes
check_pin p r ip device_id secret pin ps s none =
    failing ps (pin_challenge (p.compute_public_key r.private) ++ magic_reject) s
      pin_decryption_failed
check_pin p r ip device_id secret pin ps s (some received) =
    if same_bytes received pin
    then accept_device p r ip device_id secret pin ps s
    else failing ps (pin_challenge (p.compute_public_key r.private) ++ magic_reject) s wrong_pin

-- The 34 bytes of the answer: nonce, ciphertext and tag.
unfoldable pub read_sealed_pin :
    Primitives → Drawn → (ip device_id secret pin : List ℕ) → PairingState → Read → Handled
unfolding check_pin failing pin_challenge pin_key
read_sealed_pin p r ip device_id secret pin ps (got sealed rest) =
    check_pin p r ip device_id secret pin ps rest
      ((p.session_cipher (pin_key p secret)).unseal (take 12 sealed) verify_aad (drop 12 sealed))
read_sealed_pin p r ip device_id secret pin ps (timed_out rest) =
    failing ps (pin_challenge (p.compute_public_key r.private)) rest read_failed
read_sealed_pin p r ip device_id secret pin ps closed =
    failing ps (pin_challenge (p.compute_public_key r.private)) [] read_failed

-- The 12 bytes before them.
unfoldable pub read_answer :
    Primitives → Drawn → (ip device_id secret pin : List ℕ) → PairingState → Read → Handled
unfolding read_sealed_pin failing pin_challenge same_bytes read_exact
read_answer p r ip device_id secret pin ps (got header rest) =
    if same_bytes header magic_answer
    then read_sealed_pin p r ip device_id secret pin ps (read_exact 34 rest)
    else failing ps (pin_challenge (p.compute_public_key r.private)) rest not_an_answer
read_answer p r ip device_id secret pin ps (timed_out rest) =
    failing ps (pin_challenge (p.compute_public_key r.private)) rest read_failed
read_answer p r ip device_id secret pin ps closed =
    failing ps (pin_challenge (p.compute_public_key r.private)) [] read_failed

-- `generate_pin` on the four bytes that were drawn.
unfoldable pub drawn_pin : List ℕ → List ℕ
unfolding generate_pin
drawn_pin (a ∷ b ∷ c ∷ d ∷ _) = generate_pin a b c d
drawn_pin _ = []

-- The challenge is sent, with the PIN on display and the pairing noted as pending.
unfoldable pub challenge_device :
    Primitives
    → Drawn
    → (ip device_id : List ℕ) → PairingState
    → List Signal
    → (secret : Option (List ℕ)) → Handled
unfolding read_answer failing drawn_pin show_prompt read_exact
challenge_device p r ip device_id ps s none = failing ps [] s agreement_failed
challenge_device p r ip device_id ps s (some secret) =
    let pin = drawn_pin r.pin in
    read_answer p r ip device_id secret pin
      (record (show_prompt ip pin ps) {
        pending_pin = some (record { pin = pin; device_id = device_id; ecdh_secret = secret });
      })
      (read_exact 12 s)

-- The 46 bytes that follow a PAIR header: the rest of the device's identifier, its public key.
unfoldable pub handle_pair_request :
    Primitives → Drawn → (ip header : List ℕ) → PairingState → Read → Handled
unfolding challenge_device failing
handle_pair_request p r ip header ps (got rest s) =
    challenge_device p r ip (drop 10 header ++ take 14 rest) ps s (p.agree r.private (drop 14 rest))
handle_pair_request p r ip header ps (timed_out s) = failing ps [] s read_failed
handle_pair_request p r ip header ps closed = failing ps [] [] read_failed

-- A device that is known gets the acceptance, another a rejection.
unfoldable pub greet_device :
    Primitives
    → Drawn
    → (client_nonce : List ℕ) → PairingState
    → List Signal
    → (key : Option (List ℕ)) → Handled
unfolding session_key ok_message
greet_device p r client_nonce ps s none = record {
  pairing = ps;
  output = magic_reject;
  input = s;
  outcome = rejected;
}
greet_device p r client_nonce ps s (some key) =
    let established = session_key p key (client_nonce ++ r.salt) in
    record {
      pairing = ps;
      output = ok_message p ps.daemon_device_id r.salt established;
      input = s;
      outcome = session established;
    }

-- The 47 bytes that follow a HELLO header: the rest of the identifier, the client's nonce.
unfoldable pub handle_hello_request :
    Primitives → Drawn → (header : List ℕ) → PairingState → Read → Handled
unfolding greet_device failing get_pairing_key encode_hex
handle_hello_request p r header ps (got rest s) =
    greet_device p r (drop 15 rest) ps s
      (get_pairing_key (encode_hex (drop 11 header ++ take 15 rest)) ps)
handle_hello_request p r header ps (timed_out s) = failing ps [] s read_failed
handle_hello_request p r header ps closed = failing ps [] [] read_failed

unfoldable pub after_output : List ℕ → Handled → Handled
after_output out h = record h { output = out ++ h.output }

-- A rejected hello is followed by another attempt on the same socket.
unfoldable pub retry_after :
    (retry : PairingState → List Signal → Handled) → Handled → Outcome → Handled
unfolding after_output
retry_after retry h rejected = after_output h.output (retry h.pairing h.input)
retry_after retry h (session key) = h
retry_after retry h (failed why) = h

unfoldable pub handle_header :
    Primitives
    → Drawn
    → (ip : List ℕ) → PairingState
    → (retry : PairingState → List Signal → Handled) → Read
    → Handled
unfolding handle_pair_request handle_hello_request hide_prompt retry_after failing same_bytes
    read_exact
handle_header p r ip ps retry (got header s) =
    if same_bytes (take 10 header) magic_pair
    then hide_prompt (handle_pair_request p r ip header ps (read_exact 46 s))
    else if same_bytes (take 11 header) magic_hello
    then (let h = handle_hello_request p r header ps (read_exact 47 s) in
        retry_after retry h h.outcome)
    else failing ps [] s unknown_magic
handle_header p r ip ps retry (timed_out s) = failing ps [] s read_failed
handle_header p r ip ps retry closed = failing ps [] [] read_failed

-- With `left` attempts left; `draw` gives what is drawn in the attempt after which so many are left.
unfoldable pub attempts :
    Primitives
    → (draw : ℕ → Drawn) → (ip : List ℕ) → (left : ℕ) → PairingState
    → List Signal
    → Handled
unfolding handle_header failing read_exact
attempts p draw ip zero ps s = failing ps [] s too_many_attempts
attempts p draw ip (suc left) ps s =
    handle_header p (draw left) ip ps (attempts p draw ip left) (read_exact 12 s)

unfoldable pub handle_handshake :
    Primitives → (draw : ℕ → Drawn) → (ip : List ℕ) → PairingState → List Signal → Handled
unfolding attempts
handle_handshake p draw ip ps s = attempts p draw ip 3 ps s
