-- ===== src/Pairing/Client.antt =====
-- The client's side of the handshake: establish_session, pair_flow, complete_pairing, hello_flow,
-- read_handshake_response and parse_ok_body of client/desktop/src/backend.rs. The socket is what it
-- hands to `read_exact` and the bytes written to it; connecting to it and writing succeed.
use screx_v.Prelude.{
  ℕ, ◌||◌, Option, none, some, List, [], ◌++◌, length, take, drop, ◌==◌, if◌then◌else◌,
}
use screx_v.Control.Stream.{Signal, Read, got, timed_out, closed, read_exact}
use screx_v.History.{StoredState, same_bytes, get_pairing_key, set_pairing_key}
use screx_v.Pairing.{
  Primitives, magic_busy, magic_reject, magic_pin, magic_ok, server_verify, pairing_key,
  session_key, hmac_sha256, pair_packet, answer_packet, hello_packet,
}

-- HandshakeKind with the body that comes with it, and the error.
pub data Response : Type 0 where
  pin : (body : List ℕ) → List Signal → Response
  ok : (body : List ℕ) → List Signal → Response
  busy : Response
  reject : Response
  unreadable : Response

unfoldable pub read_pin_body : (start : List ℕ) → Read → Response
read_pin_body start (got rest s) = pin (start ++ rest) s
read_pin_body start (timed_out s) = unreadable
read_pin_body start closed = unreadable

-- 16 bytes more, when they are there before the probe's timeout.
unfoldable pub probe : (body : List ℕ) → Read → Response
probe body (got extra s) = ok (body ++ extra) s
probe body (timed_out s) = ok body s
probe body closed = ok body []

unfoldable pub read_ok_body : (start : List ℕ) → Read → Response
unfolding probe read_exact
read_ok_body start (got rest s) = probe (start ++ rest) (read_exact 16 s)
read_ok_body start (timed_out s) = unreadable
read_ok_body start closed = unreadable

unfoldable pub response_of : Read → Response
unfolding read_pin_body read_ok_body same_bytes read_exact
response_of (got header s) =
    if same_bytes header magic_busy
    then busy
    else if same_bytes header magic_reject
    then reject
    else if same_bytes (take 10 header) magic_pin
    then read_pin_body (drop 10 header) (read_exact 30 s)
    else if same_bytes (take 10 header) magic_ok
    then read_ok_body (drop 10 header) (read_exact 62 s)
    else unreadable
response_of (timed_out s) = unreadable
response_of closed = unreadable

unfoldable pub read_handshake_response : List Signal → Response
unfolding response_of read_exact
read_handshake_response s = response_of (read_exact 12 s)

-- The salt or nonce, and the daemon's HMAC, in the layout with the daemon's identifier or without.
unfoldable pub parse_ok_body : List ℕ → Option (List ℕ × List ℕ)
parse_ok_body body =
    if length body == 64
    then some (take 32 body, drop 32 body)
    else if length body == 80
    then some (take 32 (drop 16 body), drop 48 body)
    else none

pub record PendingPairing : Type 0 where
  pub tcp : List Signal
  pub endpoint_key : List ℕ
  pub ecdh_secret : List ℕ

pub data Trouble : Type 0 where
  is_busy : Trouble
  was_rejected : Trouble
  bad_response : Trouble
  ecdh_failed : Trouble
  already_paired : Trouble
  unexpected_pin : Trouble
  not_verified : Trouble

-- SessionBootstrap, whose addresses are left out: the control stream and the session key.
pub data ConnectResult : Type 0 where
  established : (control_stream : List Signal) (session_key : List ℕ) → ConnectResult
  pin_required : PendingPairing → ConnectResult
  bailed : Trouble → ConnectResult

unfoldable pub await_pin :
    (endpoint_key : List ℕ) → List Signal → (secret : Option (List ℕ)) → ConnectResult
await_pin endpoint_key s none = bailed ecdh_failed
await_pin endpoint_key s (some secret) =
    pin_required (record { tcp = s; endpoint_key = endpoint_key; ecdh_secret = secret })

unfoldable pub after_pair : Primitives → (private endpoint_key : List ℕ) → Response → ConnectResult
unfolding await_pin
after_pair p private endpoint_key busy = bailed is_busy
after_pair p private endpoint_key reject = bailed was_rejected
after_pair p private endpoint_key (pin body s) =
    if length body == 32
    then await_pin endpoint_key s (p.agree private body)
    else bailed bad_response
after_pair p private endpoint_key (ok body s) =
    if length body == 64 || length body == 80 then bailed already_paired else bailed bad_response
after_pair p private endpoint_key unreadable = bailed bad_response

-- A flow gives what it sends and how it ends.
unfoldable pub pair_flow :
    Primitives → (private endpoint_key device_id : List ℕ) → List Signal → List ℕ × ConnectResult
unfolding pair_packet after_pair read_handshake_response
pair_flow p private endpoint_key device_id s = (
  pair_packet device_id (p.compute_public_key private),
  after_pair p private endpoint_key (read_handshake_response s),
)

-- The daemon has proved the session key, or not.
unfoldable pub verified : Primitives → (key server_hmac : List ℕ) → List Signal → ConnectResult
unfolding hmac_sha256 same_bytes
verified p key server_hmac s =
    if same_bytes (hmac_sha256 p key server_verify) server_hmac
    then established s key
    else bailed not_verified

-- The pairing key is stored, and after that the daemon's HMAC is checked.
unfoldable pub store_pairing :
    Primitives
    → PendingPairing
    → (pin_text : List ℕ) → StoredState
    → List Signal
    → Option (List ℕ × List ℕ)
    → StoredState × ConnectResult
unfolding pairing_key session_key set_pairing_key verified
store_pairing p pending pin_text storage s none = (storage, bailed bad_response)
store_pairing p pending pin_text storage s (some (salt, server_hmac)) =
    let key = pairing_key p pending.ecdh_secret pin_text in
    (
      set_pairing_key pending.endpoint_key key storage,
      verified p (session_key p key salt) server_hmac s,
    )

unfoldable pub after_answer :
    Primitives
    → PendingPairing
    → (pin_text : List ℕ) → StoredState
    → Response
    → StoredState × ConnectResult
unfolding store_pairing parse_ok_body
after_answer p pending pin_text storage reject = (storage, bailed was_rejected)
after_answer p pending pin_text storage busy = (storage, bailed is_busy)
after_answer p pending pin_text storage (pin body s) = (storage, bailed unexpected_pin)
after_answer p pending pin_text storage (ok body s) =
    store_pairing p pending pin_text storage s (parse_ok_body body)
after_answer p pending pin_text storage unreadable = (storage, bailed bad_response)

-- What is sent, the storage afterwards, and the result.
unfoldable pub complete_pairing :
    Primitives
    → (nonce : List ℕ) → PendingPairing
    → (pin_text : List ℕ) → StoredState
    → List ℕ × StoredState × ConnectResult
unfolding answer_packet after_answer read_handshake_response
complete_pairing p nonce pending pin_text storage =
    let final = after_answer p pending pin_text storage (read_handshake_response pending.tcp) in
    (answer_packet p pending.ecdh_secret nonce pin_text, final.0, final.1)

unfoldable pub verify_hello :
    Primitives
    → (pairing_key client_nonce : List ℕ) → List Signal
    → Option (List ℕ × List ℕ)
    → ConnectResult
unfolding session_key verified
verify_hello p key client_nonce s none = bailed bad_response
verify_hello p key client_nonce s (some (server_nonce, server_hmac)) =
    verified p (session_key p key (client_nonce ++ server_nonce)) server_hmac s

unfoldable pub after_hello :
    Primitives → (pairing_key client_nonce : List ℕ) → Response → ConnectResult
unfolding verify_hello parse_ok_body
after_hello p key client_nonce busy = bailed is_busy
after_hello p key client_nonce reject = bailed was_rejected
after_hello p key client_nonce (pin body s) = bailed unexpected_pin
after_hello p key client_nonce (ok body s) = verify_hello p key client_nonce s (parse_ok_body body)
after_hello p key client_nonce unreadable = bailed bad_response

unfoldable pub hello_flow :
    Primitives
    → (client_nonce device_id pairing_key : List ℕ) → List Signal
    → List ℕ × ConnectResult
unfolding hello_packet after_hello read_handshake_response
hello_flow p client_nonce device_id key s = (
  hello_packet device_id client_nonce,
  after_hello p key client_nonce (read_handshake_response s),
)

unfoldable pub device_id_of : Option (List ℕ) → (fresh : List ℕ) → List ℕ
device_id_of none fresh = fresh
device_id_of (some id) fresh = id

-- The device's identifier: what is stored already, or 16 new bytes, which are stored.
unfoldable pub get_or_create_device_id : (fresh : List ℕ) → StoredState → StoredState × List ℕ
unfolding device_id_of
get_or_create_device_id fresh storage =
    let id = device_id_of storage.device_id fresh in (record storage { device_id = some id }, id)

-- With a key for the endpoint a hello, without one a pairing. `drawn` are the random bytes of the
-- flow: the client's nonce, or its private key.
unfoldable pub choose_flow :
    Primitives
    → (drawn endpoint_key device_id : List ℕ) → List Signal
    → (key : Option (List ℕ)) → List ℕ × ConnectResult
unfolding hello_flow pair_flow
choose_flow p drawn endpoint_key device_id s (some key) = hello_flow p drawn device_id key s
choose_flow p drawn endpoint_key device_id s none = pair_flow p drawn endpoint_key device_id s

unfoldable pub establish_session :
    Primitives
    → (fresh drawn endpoint_key : List ℕ) → StoredState
    → List Signal
    → StoredState × List ℕ × ConnectResult
unfolding get_or_create_device_id choose_flow get_pairing_key
establish_session p fresh drawn endpoint_key storage s =
    let made = get_or_create_device_id fresh storage in
    let flow = choose_flow p drawn endpoint_key made.1 s (get_pairing_key endpoint_key made.0) in
    (made.0, flow.0, flow.1)
