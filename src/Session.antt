-- ===== src/Session.antt =====
-- Who the daemon's client is: the session fields of SharedState, run_client_manager and
-- drop_network_client of daemon/src/stream_server.rs, and the switch to USB and back of
-- daemon/src/usb.rs. Each operation is one step; timers are told whether they have run out.
pub mod Invariant
pub mod Run
pub mod Packets
pub mod Delivery
mod Tests
use screx_v.Prelude.{
  ℕ, ◌+◌, ◌-◌, ◌%◌, ◌^◌, ◌<◌, Bool, true, false, ◌&&◌, ◌||◌, not, Option, none, some, List, [], ◌∷◌,
  length, take, drop, ltb, ◌==◌, if◌then◌else◌,
}
use screx_v.Bytes.{from_be32}
use screx_v.Crypto.{Cipher, nonce_client, tag_len}

-- A socket address. Of an IP only equality is used.
pub record SocketAddr : Type 0 where
  ip : ℕ
  port : ℕ

-- The fields of SharedState that the session is made of. `connects` and `disconnects` count the
-- lifecycle callbacks.
pub record SharedState : Type 0 where
  client_addr : Option SocketAddr
  usb_active : Bool
  has_active_client : Bool
  network_session_busy : Bool
  network_session_pending : Bool
  network_session_id : ℕ
  session_key : Option (List ℕ)
  expected_client_ip : Option ℕ
  connects : ℕ
  disconnects : ℕ

unfoldable pub new : SharedState
new = record {
  client_addr = none;
  usb_active = false;
  has_active_client = false;
  network_session_busy = false;
  network_session_pending = false;
  network_session_id = 0;
  session_key = none;
  expected_client_ip = none;
  connects = 0;
  disconnects = 0;
}

-- One session at a time: the number of the new one, where none is busy.
unfoldable pub reserve_network_session : SharedState → SharedState × Option ℕ
reserve_network_session s = if s.network_session_busy then (s, none) else (
  record s {
    network_session_busy = true;
    network_session_pending = true;
    network_session_id = (s.network_session_id + 1) % 2 ^ 64;
  },
  some ((s.network_session_id + 1) % 2 ^ 64),
)

-- A connection that is accepted is refused while a client is active, and else reserves a session.
unfoldable pub accept_connection : SharedState → SharedState × Option ℕ
unfolding reserve_network_session
accept_connection s = if s.has_active_client then (s, none) else reserve_network_session s

unfoldable pub is_current_network_session : SharedState → ℕ → Bool
is_current_network_session s session_id =
    s.network_session_busy && (s.network_session_id == session_id)

unfoldable pub mark_network_session_active : ℕ → SharedState → SharedState
unfolding is_current_network_session
mark_network_session_active session_id s =
    if is_current_network_session s session_id
    then record s { network_session_pending = false }
    else s

-- The client becomes active, or stops being so; the callback runs when this is a change.
unfoldable pub connect : SharedState → SharedState
connect s =
    if s.has_active_client
    then s
    else record s { has_active_client = true; connects = s.connects + 1 }

unfoldable pub disconnect : SharedState → SharedState
disconnect s =
    if s.has_active_client
    then record s { has_active_client = false; disconnects = s.disconnects + 1 }
    else s

unfoldable pub drop_network_client : ℕ → SharedState → SharedState
unfolding is_current_network_session disconnect
drop_network_client session_id s =
    if is_current_network_session s session_id
    then (let cleared = record s {
      client_addr = none;
      session_key = none;
      expected_client_ip = none;
      network_session_pending = false;
      network_session_busy = false;
    } in
        if s.usb_active then cleared else disconnect cleared)
    else s

unfoldable pub activate_usb_transport : SharedState → SharedState
unfolding connect
activate_usb_transport s = connect (record s { usb_active = true })

abbrev pub is_none {ℓ} : {A : Type ℓ} → Option A → Bool
is_none none = true
is_none (some _) = false

unfoldable pub deactivate_usb_transport : SharedState → SharedState
unfolding disconnect
deactivate_usb_transport s =
    if is_none s.client_addr
    then disconnect (record s { usb_active = false })
    else record s { usb_active = false }

-- A write to USB has failed, of audio or of a frame: USB is no longer in use, and nothing else is
-- said of the client.
unfoldable pub fail_usb_transport : SharedState → SharedState
fail_usb_transport s = record s { usb_active = false }

-- The client manager's own state, less its counters and logs.
pub record Manager : Type 0 where
  local_cipher : Option Cipher
  input_seq_expected : ℕ
  input_seq_initialized : Bool
  current_session_id : ℕ
  is_pending : Bool

-- The state of the manager and what it shares.
pub record Daemon : Type 0 where
  shared : SharedState
  manager : Manager

pub record SessionInfo : Type 0 where
  session_id : ℕ
  session_key : List ℕ
  client_ip : ℕ

-- A session from the handshake, with the cipher of its key. One that is no longer current is
-- ignored.
unfoldable pub take_session : Cipher → SessionInfo → Daemon → Daemon
unfolding is_current_network_session
take_session cipher info d =
    if is_current_network_session d.shared info.session_id
    then record {
      shared = record (d.shared) {
        session_key = some info.session_key;
        expected_client_ip = some info.client_ip;
      };
      manager = record {
        local_cipher = some cipher;
        input_seq_expected = 0;
        input_seq_initialized = false;
        current_session_id = info.session_id;
        is_pending = true;
      };
    }
    else d

unfoldable pub seq_is_stale : ℕ → ℕ → Bool
seq_is_stale seq_num expected_seq = ltb 0x80000000 ((seq_num + 2 ^ 32 - expected_seq) % 2 ^ 32)

-- Whether an address is of the host a client is registered or expected from.
unfoldable pub is_from : Option SocketAddr → ℕ → Bool
is_from none ip = false
is_from (some registered) ip = registered.ip == ip

unfoldable pub is_expected : Option ℕ → ℕ → Bool
is_expected none ip = false
is_expected (some expected) ip = expected == ip

-- The registered address follows the packet's; with none registered, nothing is registered yet.
unfoldable pub follow : SocketAddr → SharedState → SharedState
follow addr s = if is_none s.client_addr then s else record s { client_addr = some addr }

-- An authenticated packet registers its address; the first one makes the client active.
unfoldable pub register : SocketAddr → Daemon → Daemon
unfolding mark_network_session_active connect
register addr d =
    if is_none d.shared.client_addr
    then record {
      shared = connect (
          mark_network_session_active d.manager.current_session_id
            (record (d.shared) { client_addr = some addr; expected_client_ip = none }));
      manager = record (d.manager) { is_pending = false };
    }
    else record d { shared = record (d.shared) { client_addr = some addr } }

-- A packet that has been opened: dropped if it is stale, else the plaintext is handed on.
unfoldable pub accept_plaintext :
    SocketAddr → ℕ → Option (List ℕ) → Daemon → Daemon × Option (List ℕ)
unfolding seq_is_stale register
accept_plaintext addr seq_num none d = (d, none)
accept_plaintext addr seq_num (some plaintext) d =
    if d.manager.input_seq_initialized && seq_is_stale seq_num d.manager.input_seq_expected
    then (d, none)
    else (
      register addr (record d {
        manager = record (d.manager) {
          input_seq_expected = (seq_num + 1) % 2 ^ 32;
          input_seq_initialized = true;
        };
      }),
      some plaintext,
    )

unfoldable pub open_packet :
    Option Cipher → SocketAddr → (aad sealed : List ℕ) → ℕ → Daemon → Daemon × Option (List ℕ)
unfolding accept_plaintext
open_packet none addr aad sealed seq_num d = (d, none)
open_packet (some cipher) addr aad sealed seq_num d =
    accept_plaintext addr seq_num (cipher.unseal (nonce_client seq_num) aad sealed) d

-- A packet from an address: the state after it, and its plaintext if it is accepted.
unfoldable pub receive_packet : SocketAddr → List ℕ → Daemon → Daemon × Option (List ℕ)
unfolding is_from is_expected follow open_packet from_be32
receive_packet addr (a ∷ b ∷ c ∷ e ∷ sealed) d =
    if ltb (length sealed) tag_len
    then (d, none)
    else if is_from d.shared.client_addr addr.ip || is_expected d.shared.expected_client_ip addr.ip
    then open_packet d.manager.local_cipher addr (a ∷ b ∷ c ∷ e ∷ []) sealed (from_be32 a b c e)
        (record d { shared = follow addr d.shared })
    else (d, none)
receive_packet addr _ d = (d, none)

-- The manager gives its session up.
unfoldable pub abandon : Daemon → Daemon
unfolding drop_network_client
abandon d = record {
  shared = drop_network_client d.manager.current_session_id d.shared;
  manager = record (d.manager) { local_cipher = none; current_session_id = 0; is_pending = false };
}

-- The two timeouts: three seconds for the first packet, five between packets.
unfoldable pub check_pending : (elapsed : Bool) → Daemon → Daemon
unfolding abandon
check_pending elapsed d =
    if not (d.manager.current_session_id == 0)
      && (d.shared.network_session_pending && (d.manager.is_pending && elapsed))
    then abandon d
    else d

unfoldable pub check_keepalive : (elapsed : Bool) → Daemon → Daemon
unfolding abandon
check_keepalive elapsed d = if not (is_none d.shared.client_addr) && elapsed then abandon d else d
