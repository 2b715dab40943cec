-- ===== src/Session/Run.antt =====
-- The steps of the daemon's session, in any order.
use screx_v.Prelude.{
  ℕ, ◌∙◌, if-preserves, if◌then◌else◌, Bool, true, false, ◌||◌, Option, none, List, [], ◌∷◌,
  Bool-cases, inl, inr, ltb, length,
}
use screx_v.Crypto.{Cipher, tag_len}
use screx_v.Session.{
  SocketAddr, Daemon, SessionInfo, new, accept_connection, drop_network_client,
  activate_usb_transport, deactivate_usb_transport, fail_usb_transport, take_session, is_from,
  is_expected, receive_packet, abandon, check_pending, check_keepalive,
}
use screx_v.Session.Invariant.{
  IsConsistent, new-IsConsistent, accept_connection-IsConsistent, drop_network_client-IsConsistent,
  activate_usb_transport-IsConsistent, deactivate_usb_transport-IsConsistent,
  fail_usb_transport-IsConsistent, take_session-IsConsistent, open_packet-IsConsistent,
  follow-IsConsistent, follow_busy, admitted_busy,
}

receive_packet-IsConsistent :
    (l : Bool) (addr : SocketAddr) (p : List ℕ) (d : Daemon)
    → IsConsistent l d.shared
    → IsConsistent l (receive_packet addr p d).0.shared
unfolding receive_packet
receive_packet-IsConsistent l addr (a ∷ b ∷ c ∷ e ∷ sealed) d h =
    if-preserves (λ (r : Daemon × Option (List ℕ)). IsConsistent l r.0.shared)
      (ltb (length sealed) tag_len) h
      (elim (Bool-cases
        (is_from d.shared.client_addr addr.ip || is_expected d.shared.expected_client_ip addr.ip)) [
          | inl ok ↦ rw ok (
              open_packet-IsConsistent l d.manager.local_cipher addr _ sealed _ _
                (follow-IsConsistent l addr d.shared h)
                (follow_busy addr d.shared ∙ admitted_busy l addr d.shared h ok))
          | inr refused ↦ rw refused h
        ])
receive_packet-IsConsistent l addr [] d h = h
receive_packet-IsConsistent l addr (a ∷ []) d h = h
receive_packet-IsConsistent l addr (a ∷ b ∷ []) d h = h
receive_packet-IsConsistent l addr (a ∷ b ∷ c ∷ []) d h = h

-- What happens to the daemon: a connection to the control port, a finished handshake, a packet, a
-- timer, the end of a session's control channel, and the USB transport coming, going, and failing at a write.
pub data Event : Type 0 where
  connection : Event
  handshake : Cipher → SessionInfo → Event
  packet : SocketAddr → List ℕ → Event
  pending_timer : Bool → Event
  keepalive_timer : Bool → Event
  control_ended : ℕ → Event
  usb_attached : Event
  usb_detached : Event
  usb_write_failed : Event

unfoldable pub step : Event → Daemon → Daemon
unfolding take_session receive_packet check_pending check_keepalive drop_network_client
    activate_usb_transport deactivate_usb_transport fail_usb_transport accept_connection
step connection d = record d { shared = (accept_connection d.shared).0 }
step (handshake c info) d = take_session c info d
step (packet addr p) d = (receive_packet addr p d).0
step (pending_timer elapsed) d = check_pending elapsed d
step (keepalive_timer elapsed) d = check_keepalive elapsed d
step (control_ended id) d = record d { shared = drop_network_client id d.shared }
step usb_attached d = record d { shared = activate_usb_transport d.shared }
step usb_detached d = record d { shared = deactivate_usb_transport d.shared }
step usb_write_failed d = record d { shared = fail_usb_transport d.shared }

unfoldable pub run : List Event → Daemon → Daemon
unfolding step
run [] d = d
run (e ∷ es) d = run es (step e d)

unfoldable pub start : Daemon
unfolding new
start = record {
  shared = new;
  manager = record {
    local_cipher = none;
    input_seq_expected = 0;
    input_seq_initialized = false;
    current_session_id = 0;
    is_pending = false;
  };
}

-- Whether a write to USB has failed since USB last came or went.
unfoldable pub usb_failed : List Event → (before : Bool) → Bool
usb_failed [] l = l
usb_failed (usb_attached ∷ es) l = usb_failed es false
usb_failed (usb_detached ∷ es) l = usb_failed es false
usb_failed (usb_write_failed ∷ es) l = usb_failed es true
usb_failed (e ∷ es) l = usb_failed es l

abandon-IsConsistent :
    (l : Bool) (d : Daemon) → IsConsistent l d.shared → IsConsistent l (abandon d).shared
unfolding abandon
abandon-IsConsistent l d h = drop_network_client-IsConsistent l _ d.shared h

timer-IsConsistent :
    (l b : Bool) (d : Daemon)
    → IsConsistent l d.shared
    → IsConsistent l (if b then abandon d else d).shared
timer-IsConsistent l b d h =
    if-preserves (λ (d' : Daemon). IsConsistent l d'.shared) b (abandon-IsConsistent l d h) h

run_from-IsConsistent :
    (es : List Event) (l : Bool) (d : Daemon)
    → IsConsistent l d.shared
    → IsConsistent (usb_failed es l) (run es d).shared
unfolding run step usb_failed check_pending check_keepalive
run_from-IsConsistent [] l d h = h
run_from-IsConsistent (connection ∷ es) l d h =
    run_from-IsConsistent es l _ (accept_connection-IsConsistent l d.shared h)
run_from-IsConsistent (handshake c info ∷ es) l d h =
    run_from-IsConsistent es l _ (take_session-IsConsistent l c info d h)
run_from-IsConsistent (packet addr p ∷ es) l d h =
    run_from-IsConsistent es l _ (receive_packet-IsConsistent l addr p d h)
run_from-IsConsistent (pending_timer elapsed ∷ es) l d h =
    run_from-IsConsistent es l _ (timer-IsConsistent l _ d h)
run_from-IsConsistent (keepalive_timer elapsed ∷ es) l d h =
    run_from-IsConsistent es l _ (timer-IsConsistent l _ d h)
run_from-IsConsistent (control_ended id ∷ es) l d h =
    run_from-IsConsistent es l _ (drop_network_client-IsConsistent l id d.shared h)
run_from-IsConsistent (usb_attached ∷ es) l d h =
    run_from-IsConsistent es false _ (activate_usb_transport-IsConsistent l d.shared h)
run_from-IsConsistent (usb_detached ∷ es) l d h =
    run_from-IsConsistent es false _ (deactivate_usb_transport-IsConsistent l d.shared h)
run_from-IsConsistent (usb_write_failed ∷ es) l d h =
    run_from-IsConsistent es true _ (fail_usb_transport-IsConsistent l d.shared h)

-- From the daemon's start, whatever connections, handshakes, packets, timeouts, ends of control
-- channels, USB changes and failed writes to USB follow, in any order: a client is active when a
-- network client is registered or USB is in use, and only then, unless a write to USB has failed
-- since USB last came or went; a registered or expected client, a session key and a pending session
-- are there only while a session is busy; and the callbacks on connecting and on disconnecting have
-- run alternately, the last one according to whether a client is active.
pub run-IsConsistent : (es : List Event) → IsConsistent (usb_failed es false) (run es start).shared
unfolding start
run-IsConsistent es = run_from-IsConsistent es false start new-IsConsistent
