-- ===== src/Session/Invariant.antt =====
-- The session's fields and how they hang together, step by step.
use screx_v.Prelude.{
  ℕ, ◌+◌, ◌≡◌, refl, if-preserves, Bool, true, false, ◌||◌, Option, none, some, List, arith,
  if◌then◌else◌,
}
use screx_v.Crypto.{Cipher}
use screx_v.Session.{
  SocketAddr, SharedState, Daemon, SessionInfo, new, reserve_network_session, accept_connection,
  is_current_network_session, mark_network_session_active, connect, disconnect, drop_network_client,
  activate_usb_transport, deactivate_usb_transport, fail_usb_transport, take_session, is_from,
  is_expected, follow, register, accept_plaintext, open_packet,
}

abbrev pub is_some {ℓ} : {A : Type ℓ} → Option A → Bool
is_some none = false
is_some (some _) = true

abbrev implies : Bool → Bool → Bool
implies true b = b
implies false b = true

-- A registered client or USB in use is an active client, and there is no other, except `lingering`:
-- one that was left behind by a failed write to USB. What belongs to a session is there only while
-- one is busy; and the callbacks alternate, a connect first.
abbrev pub IsConsistent : (lingering : Bool) → SharedState → Type 0
IsConsistent l s =
    (implies (is_some s.client_addr || s.usb_active) s.has_active_client ≡ true)
    × (implies s.has_active_client (is_some s.client_addr || (s.usb_active || l)) ≡ true)
    × (implies (is_some s.client_addr) s.network_session_busy ≡ true)
    × (implies (is_some s.expected_client_ip) s.network_session_busy ≡ true)
    × (implies (is_some s.session_key) s.network_session_busy ≡ true)
    × (implies s.network_session_pending s.network_session_busy ≡ true)
    × (s.connects ≡ s.disconnects + (if s.has_active_client then 1 else 0))

pub new-IsConsistent : IsConsistent false new
unfolding new
new-IsConsistent = (refl, refl, refl, refl, refl, refl, omega arith)

pub accept_connection-IsConsistent :
    (l : Bool) (s : SharedState) → IsConsistent l s → IsConsistent l (accept_connection s).0
unfolding accept_connection reserve_network_session
accept_connection-IsConsistent l s h = ground arith

pub drop_network_client-IsConsistent :
    (l : Bool) (id : ℕ) (s : SharedState)
    → IsConsistent l s
    → IsConsistent l (drop_network_client id s)
unfolding drop_network_client disconnect
drop_network_client-IsConsistent l id s h = ground arith

pub activate_usb_transport-IsConsistent :
    (l : Bool) (s : SharedState) → IsConsistent l s → IsConsistent false (activate_usb_transport s)
unfolding activate_usb_transport connect
activate_usb_transport-IsConsistent l s h = ground arith

pub deactivate_usb_transport-IsConsistent :
    (l : Bool) (s : SharedState)
    → IsConsistent l s
    → IsConsistent false (deactivate_usb_transport s)
unfolding deactivate_usb_transport disconnect
deactivate_usb_transport-IsConsistent l s h = ground arith

pub fail_usb_transport-IsConsistent :
    (l : Bool) (s : SharedState) → IsConsistent l s → IsConsistent true (fail_usb_transport s)
unfolding fail_usb_transport
fail_usb_transport-IsConsistent l s h = ground arith

pub take_session-IsConsistent :
    (l : Bool) (c : Cipher) (info : SessionInfo) (d : Daemon)
    → IsConsistent l d.shared
    → IsConsistent l (take_session c info d).shared
unfolding take_session is_current_network_session
take_session-IsConsistent l c info d h = ground arith

pub register-IsConsistent :
    (l : Bool) (addr : SocketAddr) (d : Daemon)
    → IsConsistent l d.shared
    → d.shared.network_session_busy ≡ true
    → IsConsistent l (register addr d).shared
unfolding register mark_network_session_active connect
register-IsConsistent l addr d h busy = ground arith

pub accept_plaintext-IsConsistent :
    (l : Bool) (addr : SocketAddr) (n : ℕ) (p : Option (List ℕ)) (d : Daemon)
    → IsConsistent l d.shared
    → d.shared.network_session_busy ≡ true
    → IsConsistent l (accept_plaintext addr n p d).0.shared
unfolding accept_plaintext
accept_plaintext-IsConsistent l addr n none d h busy = h
accept_plaintext-IsConsistent l addr n (some p) d h busy =
    if-preserves (λ (r : Daemon × Option (List ℕ)). IsConsistent l r.0.shared) _ h
      (register-IsConsistent l addr _ h busy)

pub open_packet-IsConsistent :
    (l : Bool) (c : Option Cipher) (addr : SocketAddr) (aad sealed : List ℕ) (n : ℕ) (d : Daemon)
    → IsConsistent l d.shared
    → d.shared.network_session_busy ≡ true
    → IsConsistent l (open_packet c addr aad sealed n d).0.shared
unfolding open_packet
open_packet-IsConsistent l none addr aad sealed n d h busy = h
open_packet-IsConsistent l (some c) addr aad sealed n d h busy =
    accept_plaintext-IsConsistent l addr n _ d h busy

pub follow-IsConsistent :
    (l : Bool) (addr : SocketAddr) (s : SharedState)
    → IsConsistent l s
    → IsConsistent l (follow addr s)
unfolding follow
follow-IsConsistent l addr s h = ground arith

pub follow_busy :
    (addr : SocketAddr) (s : SharedState)
    → (follow addr s).network_session_busy ≡ s.network_session_busy
unfolding follow
follow_busy addr s = ground arith

pub admitted_busy :
    (l : Bool) (addr : SocketAddr) (s : SharedState)
    → IsConsistent l s
    → (is_from s.client_addr addr.ip || is_expected s.expected_client_ip addr.ip) ≡ true
    → s.network_session_busy ≡ true
unfolding is_from is_expected
admitted_busy l addr s h e = ground arith
