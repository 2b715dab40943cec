-- ===== src/Session/Tests.antt =====
-- A session of the daemon from its start, and the theorems' runs on it.
use screx_v.Prelude.{
  Bool, inl, false, ℕ, ◌≡◌, refl, none, some, true, List, [], ◌∷◌, ◌++◌, replicate, arith,
}
use screx_v.Crypto.{Cipher}
use screx_v.Crypto.Plain.{plain, plain-IsAead}
use screx_v.Session.Delivery.{IsReady, arrivals, receive_all, receive_all-arrivals}
use screx_v.Session.{
  SocketAddr, SessionInfo, Daemon, reserve_network_session, accept_connection, take_session,
  is_current_network_session, receive_packet, open_packet, accept_plaintext, register,
  mark_network_session_active, connect, follow, is_from, is_expected, new,
}
use screx_v.Session.Invariant.{IsConsistent}
use screx_v.Session.Run.{
  Event, connection, handshake, packet, control_ended, usb_attached, usb_detached, usb_write_failed,
  usb_failed, run, start, step, run-IsConsistent,
}
use screx_v.Session.Packets.{
  no_replay, Datagram, receive_datagrams, last_sender, last_sender_registered,
}
use screx_v.Bytes.{from_be32}

abbrev host : SocketAddr
host = record { ip = 10; port = 5000 }

abbrev info : SessionInfo
info = record { session_id = 1; session_key = 3 ∷ []; client_ip = 10 }

-- The packet `SCREX` under a number.
abbrev sealed : List ℕ
sealed = (83 ∷ 67 ∷ 82 ∷ 69 ∷ 88 ∷ []) ++ replicate 16 0

abbrev hello : List ℕ
hello = 0 ∷ 0 ∷ 0 ∷ 7 ∷ sealed

abbrev history : List Event
history =
    connection
    ∷ handshake plain info
    ∷ packet host hello
    ∷ usb_attached
    ∷ control_ended 1
    ∷ connection
    ∷ usb_write_failed
    ∷ usb_detached
    ∷ usb_attached
    ∷ usb_write_failed
    ∷ []

run-IsConsistent_example : IsConsistent true (run history start).shared
unfolding usb_failed
run-IsConsistent_example = run-IsConsistent history

abbrev ready : Daemon
ready = run (connection ∷ handshake plain info ∷ []) start

accepted : (receive_packet host hello ready).1 ≡ some (83 ∷ 67 ∷ 82 ∷ 69 ∷ 88 ∷ [])
unfolding run start step new accept_connection reserve_network_session take_session
    is_current_network_session receive_packet open_packet accept_plaintext from_be32 is_from
    is_expected follow
accepted = refl

no_replay_example : (receive_packet host hello (receive_packet host hello ready).0).1 ≡ none
unfolding from_be32
no_replay_example =
    no_replay host host 0 0 0 7 0 0 0 7 sealed sealed ready (83 ∷ 67 ∷ 82 ∷ 69 ∷ 88 ∷ [])
      (
        omega arith,
        (
          omega arith,
          (
            omega arith,
            (omega arith, (omega arith, (omega arith, (omega arith, (omega arith, tt))))),
          ),
        ),
      )
      accepted (omega arith)

abbrev joined : Daemon
joined = (receive_packet host hello ready).0

joined-current : is_current_network_session joined.shared 1 ≡ true
unfolding run start step new accept_connection reserve_network_session take_session
    is_current_network_session receive_packet open_packet accept_plaintext from_be32 is_from
    is_expected follow register mark_network_session_active connect
joined-current = refl

-- A cipher that opens nothing.
abbrev closed_cipher : Cipher
closed_cipher = record { seal = λ n a p. (p, replicate 16 0); unseal = λ n a s. none }

abbrev elsewhere : SocketAddr
elsewhere = record { ip = 10; port = 6666 }

abbrev busy : Daemon
busy = record {
  shared = record new { client_addr = some host; network_session_busy = true };
  manager = record {
    local_cipher = some closed_cipher;
    input_seq_expected = 8;
    input_seq_initialized = true;
    current_session_id = 0;
    is_pending = false;
  };
}

-- Two datagrams under a key that opens none of them.
abbrev forged : List Datagram
forged =
    record { from = elsewhere; number = (0, 0, 0, 7); sealed = sealed }
    ∷ record { from = elsewhere; number = (0, 0, 0, 3); sealed = sealed }
    ∷ []

last_sender_registered_example : (receive_datagrams forged busy).shared.client_addr ≡ some elsewhere
unfolding last_sender
last_sender_registered_example =
    last_sender_registered forged host busy refl ((refl, omega arith), ((refl, omega arith), tt))

ready-IsReady : IsReady plain host 0 0 ready
unfolding run start step new accept_connection reserve_network_session take_session
    is_current_network_session is_from is_expected
ready-IsReady = record { cipher = refl; host = refl; number = inl refl }

-- Three packets, the second of which is lost.
abbrev three : List (Bool × List ℕ)
three = (true, 1 ∷ []) ∷ (false, 2 ∷ []) ∷ (true, 3 ∷ []) ∷ []

receive_all-arrivals_example :
    receive_all host (arrivals plain 0 three) ready ≡ (1 ∷ []) ∷ (3 ∷ []) ∷ []
receive_all-arrivals_example =
    receive_all-arrivals plain plain-IsAead host three 0 0 ready (omega arith) (omega arith)
      ready-IsReady
