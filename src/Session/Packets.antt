-- ===== src/Session/Packets.antt =====
-- Which packets the daemon accepts.
use screx_v.Prelude.{
  ℕ, ◌+◌, ◌-◌, ◌%◌, ◌^◌, ◌<◌, ◌≤◌, ◌≡◌, subst, refl, if-preserves, true, ◌||◌, Option, none, some,
  List, [], ◌∷◌, arith, lt→ltb, ltb, length, All,
}
use screx_v.Bytes.{IsByte, from_be32}
use screx_v.Crypto.{Cipher, tag_len}
use screx_v.Session.{
  SocketAddr, SharedState, Daemon, seq_is_stale, is_current_network_session, drop_network_client,
  disconnect, is_from, is_expected, follow, register, accept_plaintext, open_packet, receive_packet,
}

-- After any packet that is accepted, the state is one that waits for the next number.
abbrev Awaits : ℕ → Daemon → Type 0
Awaits n d =
    (d.manager.input_seq_initialized ≡ true) × (d.manager.input_seq_expected ≡ (n + 1) % 2 ^ 32)

register_manager :
    (addr : SocketAddr) (d : Daemon)
    → ((register addr d).manager.input_seq_initialized ≡ d.manager.input_seq_initialized)
      × ((register addr d).manager.input_seq_expected ≡ d.manager.input_seq_expected)
unfolding register
register_manager addr d = ground arith

plaintext-Awaits :
    (addr : SocketAddr) (n : ℕ) (p : Option (List ℕ)) (d : Daemon) (m : List ℕ)
    → (accept_plaintext addr n p d).1 ≡ some m
    → Awaits n (accept_plaintext addr n p d).0
unfolding accept_plaintext
plaintext-Awaits addr n none d m e = absurd cc
plaintext-Awaits addr n (some p) d m e = ground (
  arith,
  register_manager addr (record d {
    manager = record (d.manager) {
      input_seq_expected = (n + 1) % 2 ^ 32;
      input_seq_initialized = true;
    };
  }),
)

opened-Awaits :
    (c : Option Cipher) (addr : SocketAddr) (aad sealed : List ℕ) (n : ℕ) (d : Daemon) (m : List ℕ)
    → (open_packet c addr aad sealed n d).1 ≡ some m
    → Awaits n (open_packet c addr aad sealed n d).0
unfolding open_packet
opened-Awaits none addr aad sealed n d m e = absurd cc
opened-Awaits (some c) addr aad sealed n d m e = plaintext-Awaits addr n _ d m e

received-Awaits :
    (addr : SocketAddr) (a b c e : ℕ) (sealed : List ℕ) (d : Daemon) (m : List ℕ)
    → (receive_packet addr (a ∷ b ∷ c ∷ e ∷ sealed) d).1 ≡ some m
    → Awaits (from_be32 a b c e) (receive_packet addr (a ∷ b ∷ c ∷ e ∷ sealed) d).0
unfolding receive_packet
received-Awaits addr a b c e sealed d m h = ground (
  arith,
  opened-Awaits d.manager.local_cipher addr (a ∷ b ∷ c ∷ e ∷ []) sealed (from_be32 a b c e)
      (record d { shared = follow addr d.shared }) m,
)

plaintext_stale :
    (addr : SocketAddr) (n m : ℕ) (p : Option (List ℕ)) (d : Daemon)
    → Awaits n d
    → seq_is_stale m ((n + 1) % 2 ^ 32) ≡ true
    → (accept_plaintext addr m p d).1 ≡ none
unfolding accept_plaintext
plaintext_stale addr n m none d h s = refl
plaintext_stale addr n m (some p) d h s = rw (h.0, h.1, s) refl

opened_stale :
    (c : Option Cipher) (addr : SocketAddr) (aad sealed : List ℕ) (n m : ℕ) (d : Daemon)
    → Awaits n d
    → seq_is_stale m ((n + 1) % 2 ^ 32) ≡ true
    → (open_packet c addr aad sealed m d).1 ≡ none
unfolding open_packet
opened_stale none addr aad sealed n m d h s = refl
opened_stale (some c) addr aad sealed n m d h s = plaintext_stale addr n m _ d h s

received_stale :
    (addr : SocketAddr) (a b c e n : ℕ) (sealed : List ℕ) (d : Daemon)
    → Awaits n d
    → seq_is_stale (from_be32 a b c e) ((n + 1) % 2 ^ 32) ≡ true
    → (receive_packet addr (a ∷ b ∷ c ∷ e ∷ sealed) d).1 ≡ none
unfolding receive_packet
received_stale addr a b c e n sealed d h s =
    if-preserves is_refused (ltb (length sealed) tag_len) refl (
      if-preserves is_refused
        (is_from d.shared.client_addr addr.ip || is_expected d.shared.expected_client_ip addr.ip)
        (opened_stale d.manager.local_cipher addr (a ∷ b ∷ c ∷ e ∷ []) sealed n _
          (record d { shared = follow addr d.shared }) h s)
        refl)
  where
    is_refused : Daemon × Option (List ℕ) → Type 0
    is_refused r = r.1 ≡ none

behind_stale :
    (n m : ℕ)
    → n < 2 ^ 32
    → m < 2 ^ 32
    → (n + 2 ^ 32 - m) % 2 ^ 32 + 1 < 2 ^ 31
    → seq_is_stale m ((n + 1) % 2 ^ 32) ≡ true
unfolding seq_is_stale
behind_stale n m hn hm h = lt→ltb _ _ (omega arith)

from_be32-lt :
    (a b c e : ℕ) → IsByte a → IsByte b → IsByte c → IsByte e → from_be32 a b c e < 2 ^ 32
unfolding from_be32
from_be32-lt a b c e ha hb hc he = omega arith

-- Once a packet has been accepted, a packet whose number is the same, or is behind it by less
-- than 2^31 - 1 around the circle of 32-bit numbers, is not accepted next, whatever address it
-- comes from and whatever it holds.
pub no_replay :
    (addr addr' : SocketAddr) (a b c e a' b' c' e' : ℕ) (sealed sealed' : List ℕ) (d : Daemon)
    (plaintext : List ℕ)
    → All IsByte (a ∷ b ∷ c ∷ e ∷ a' ∷ b' ∷ c' ∷ e' ∷ [])
    → (receive_packet addr (a ∷ b ∷ c ∷ e ∷ sealed) d).1 ≡ some plaintext
    → (from_be32 a b c e + 2 ^ 32 - from_be32 a' b' c' e') % 2 ^ 32 + 1 < 2 ^ 31
    → (receive_packet addr'
        (a' ∷ b' ∷ c' ∷ e' ∷ sealed')
        (receive_packet addr (a ∷ b ∷ c ∷ e ∷ sealed) d).0).1
      ≡ none
no_replay addr addr' a b c e a' b' c' e' sealed sealed' d plaintext
      (ha, (hb, (hc, (he, (ha', (hb', (hc', (he', _)))))))) h k =
    received_stale addr' a' b' c' e' (from_be32 a b c e) sealed' _
      (received-Awaits addr a b c e sealed d plaintext h)
      (behind_stale _ _ (from_be32-lt a b c e ha hb hc he)
        (from_be32-lt a' b' c' e' ha' hb' hc' he') k)

drop_clears :
    (id : ℕ) (s : SharedState)
    → is_current_network_session s id ≡ true
    → ((drop_network_client id s).client_addr ≡ none)
      × ((drop_network_client id s).expected_client_ip ≡ none)
unfolding drop_network_client disconnect
drop_clears id s h = ground arith

deaf :
    (addr : SocketAddr) (p : List ℕ) (d : Daemon)
    → d.shared.client_addr ≡ none
    → d.shared.expected_client_ip ≡ none
    → receive_packet addr p d ≡ (d, none)
unfolding receive_packet is_from is_expected
deaf addr [] d h k = refl
deaf addr (a ∷ []) d h k = refl
deaf addr (a ∷ b ∷ []) d h k = refl
deaf addr (a ∷ b ∷ c ∷ []) d h k = refl
deaf addr (a ∷ b ∷ c ∷ e ∷ sealed) d h k = ground arith

-- The daemon after its client was dropped, by whichever thread.
abbrev pub dropped : ℕ → Daemon → Daemon
dropped id d = record d { shared = drop_network_client id d.shared }

-- Once the daemon has dropped the client of the current session, no packet is accepted from
-- anyone, and none changes the daemon's state.
receive_packet-dropped :
    (id : ℕ) (addr : SocketAddr) (p : List ℕ) (d : Daemon)
    → is_current_network_session d.shared id ≡ true
    → receive_packet addr p (dropped id d) ≡ (dropped id d, none)
receive_packet-dropped id addr p d current =
    deaf addr p (dropped id d) (drop_clears id d.shared current).0
      (drop_clears id d.shared current).1

accept_plaintext_moves :
    (addr : SocketAddr) (n : ℕ) (p : Option (List ℕ)) (d : Daemon)
    → d.shared.client_addr ≡ some addr
    → (accept_plaintext addr n p d).0.shared.client_addr ≡ some addr
unfolding accept_plaintext register
accept_plaintext_moves addr n none d h = h
accept_plaintext_moves addr n (some p) d h = ground arith

open_packet_moves :
    (c : Option Cipher) (addr : SocketAddr) (aad sealed : List ℕ) (n : ℕ) (d : Daemon)
    → d.shared.client_addr ≡ some addr
    → (open_packet c addr aad sealed n d).0.shared.client_addr ≡ some addr
unfolding open_packet
open_packet_moves none addr aad sealed n d h = h
open_packet_moves (some c) addr aad sealed n d h = accept_plaintext_moves addr n _ d h

-- A datagram from an address: four bytes and what follows them.
pub record Datagram : Type 0 where
  pub from : SocketAddr
  pub number : ℕ × ℕ × ℕ × ℕ
  pub sealed : List ℕ

abbrev pub receive_datagram : Datagram → Daemon → Daemon
receive_datagram g d =
    (receive_packet g.from (g.number.0 ∷ g.number.1 ∷ g.number.2 ∷ g.number.3 ∷ g.sealed) d).0

receive_packet_moves :
    (addr registered : SocketAddr) (a b c e : ℕ) (sealed : List ℕ) (d : Daemon)
    → d.shared.client_addr ≡ some registered
    → registered.ip ≡ addr.ip
    → tag_len ≤ length sealed
    → (receive_packet addr (a ∷ b ∷ c ∷ e ∷ sealed) d).0.shared.client_addr ≡ some addr
unfolding receive_packet is_from follow
receive_packet_moves addr registered a b c e sealed d h same long = ground (
  arith,
  open_packet_moves d.manager.local_cipher addr (a ∷ b ∷ c ∷ e ∷ []) sealed (from_be32 a b c e)
      (record d { shared = follow addr d.shared }),
)

receive_datagram_moves :
    (g : Datagram) (registered : SocketAddr) (d : Daemon)
    → d.shared.client_addr ≡ some registered
    → registered.ip ≡ g.from.ip
    → tag_len ≤ length g.sealed
    → (receive_datagram g d).shared.client_addr ≡ some (g.from)
receive_datagram_moves g registered d h same long =
    receive_packet_moves g.from registered g.number.0 g.number.1 g.number.2 g.number.3 g.sealed d h
      same long

unfoldable pub receive_datagrams : List Datagram → Daemon → Daemon
receive_datagrams [] d = d
receive_datagrams (g ∷ gs) d = receive_datagrams gs (receive_datagram g d)

unfoldable pub last_sender : SocketAddr → List Datagram → SocketAddr
last_sender addr [] = addr
last_sender addr (g ∷ gs) = last_sender (g.from) gs

-- While a client is registered, whatever datagrams come from its IP, each as long as a packet is,
-- the registered address is in the end that of the last one's sender: whether or not they can be
-- opened under the session's key, and however old their numbers are.
pub last_sender_registered :
    (gs : List Datagram) (registered : SocketAddr) (d : Daemon)
    → d.shared.client_addr ≡ some registered
    → All (λ g. (registered.ip ≡ g.from.ip) × (tag_len ≤ length g.sealed)) gs
    → (receive_datagrams gs d).shared.client_addr ≡ some (last_sender registered gs)
unfolding receive_datagrams last_sender
last_sender_registered [] registered d h all = h
last_sender_registered (g ∷ gs) registered d h ((same, long), all) =
    last_sender_registered gs (g.from) (receive_datagram g d)
      (receive_datagram_moves g registered d h same long)
      (subst (λ ip. All (λ k. (ip ≡ k.from.ip) × (tag_len ≤ length k.sealed)) gs) same all)
