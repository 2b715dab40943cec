-- ===== src/Session/Delivery.antt =====
-- The client's sender of packets, `UdpSender::send_encrypted` of client/desktop/src/backend.rs, and
-- what the daemon accepts of what it sends.
use screx_v.Prelude.{
  ℕ, ◌+◌, ◌%◌, ◌^◌, ◌<◌, ◌≤◌, ◌∙◌, ◌≡◌, ◌⊎◌, ap, refl, Bool, true, false, ◌&&◌, ◌||◌, Option, none,
  some, List, [], ◌∷◌, ◌++◌, arith, inr, ltb, length, length-append,
}
use screx_v.Bytes.{IsU32, be32, from_be32-be32}
use screx_v.Crypto.{Cipher, IsAead, nonce_client, tag_len}
use screx_v.Session.{
  SocketAddr, Daemon, seq_is_stale, is_from, is_expected, follow, register,
  mark_network_session_active, connect, accept_plaintext, open_packet, receive_packet,
}

-- A packet, and the number of the next one.
unfoldable pub send_encrypted : Cipher → ℕ → List ℕ → List ℕ × ℕ
send_encrypted c seq payload =
    let sealed = c.seal (nonce_client seq) (be32 seq) payload in
    (be32 seq ++ sealed.0 ++ sealed.1, (seq + 1) % 2 ^ 32)

-- The packets that arrive of those sent, each payload with whether the network delivers it.
unfoldable pub arrivals : Cipher → ℕ → List (Bool × List ℕ) → List (List ℕ)
unfolding send_encrypted
arrivals c seq [] = []
arrivals c seq ((true, payload) ∷ sent) =
    (send_encrypted c seq payload).0 ∷ arrivals c (send_encrypted c seq payload).1 sent
arrivals c seq ((false, payload) ∷ sent) = arrivals c (send_encrypted c seq payload).1 sent

abbrev pub delivered : List (Bool × List ℕ) → List (List ℕ)
delivered [] = []
delivered ((true, payload) ∷ sent) = payload ∷ delivered sent
delivered ((false, payload) ∷ sent) = delivered sent

abbrev accepted : Option (List ℕ) → List (List ℕ) → List (List ℕ)
accepted none later = later
accepted (some payload) later = payload ∷ later

-- What the daemon accepts of packets from one address.
unfoldable pub receive_all : SocketAddr → List (List ℕ) → Daemon → List (List ℕ)
unfolding receive_packet
receive_all addr [] d = []
receive_all addr (p ∷ ps) d =
    accepted (receive_packet addr p d).1 (receive_all addr ps (receive_packet addr p d).0)

-- The daemon has the client's cipher and knows its host, and the client's next number is at most
-- so many ahead of the one the daemon expects, if it expects one.
pub record IsReady (c : Cipher) (addr : SocketAddr) (seq ahead : ℕ) (d : Daemon) : Type 0 where
  pub cipher : d.manager.local_cipher ≡ some c
  pub host :
      (is_from d.shared.client_addr addr.ip || is_expected d.shared.expected_client_ip addr.ip)
      ≡ true
  pub number :
      (d.manager.input_seq_initialized ≡ false)
      ⊎ ((d.manager.input_seq_expected < 2 ^ 32)
          × (seq ≡ (d.manager.input_seq_expected + ahead) % 2 ^ 32))

not_stale :
    (c : Cipher) (addr : SocketAddr) (seq ahead : ℕ) (d : Daemon)
    → IsReady c addr seq ahead d
    → ahead ≤ 2 ^ 31
    → (d.manager.input_seq_initialized && seq_is_stale seq d.manager.input_seq_expected) ≡ false
unfolding seq_is_stale
not_stale c addr seq ahead d h small = ground (arith, h.number)

after : SocketAddr → ℕ → Daemon → Daemon
unfolding register
after addr seq d = register addr (record d {
  manager = record (d.manager) {
    input_seq_expected = (seq + 1) % 2 ^ 32;
    input_seq_initialized = true;
  };
})

after-IsReady :
    (c : Cipher) (addr : SocketAddr) (seq : ℕ) (d : Daemon)
    → d.manager.local_cipher ≡ some c
    → IsReady c addr ((seq + 1) % 2 ^ 32) 0 (after addr seq d)
unfolding after register mark_network_session_active connect is_from
after-IsReady c addr seq d h = record {
  cipher = ground arith;
  host = ground arith;
  number = inr (ground arith);
}

module _ (c : Cipher) (aead : IsAead c) (addr : SocketAddr) where
  length-sealed :
      (nonce aad payload : List ℕ)
      → ltb (length ((c.seal nonce aad payload).0 ++ (c.seal nonce aad payload).1)) tag_len ≡ false
  length-sealed nonce aad payload = ground (
    arith,
    length-append (c.seal nonce aad payload).0 (c.seal nonce aad payload).1,
    aead.tag_length nonce aad payload,
  )

  plaintext_accepted :
      (seq ahead : ℕ) (payload : List ℕ) (d : Daemon)
      → ahead ≤ 2 ^ 31
      → IsReady c addr seq ahead d
      → accept_plaintext addr seq (some payload) d ≡ (after addr seq d, some payload)
  unfolding accept_plaintext after
  plaintext_accepted seq ahead payload d small h = rw (not_stale c addr seq ahead d h small) refl

  followed-IsReady :
      (seq ahead : ℕ) (d : Daemon)
      → IsReady c addr seq ahead d
      → IsReady c addr seq ahead (record d { shared = follow addr d.shared })
  unfolding follow is_from
  followed-IsReady seq ahead d h = record {
    cipher = h.cipher;
    host = ground (arith, h.host);
    number = h.number;
  }

  receive_packet-send_encrypted :
      (seq ahead : ℕ) (payload : List ℕ) (d : Daemon)
      → IsU32 seq
      → ahead ≤ 2 ^ 31
      → IsReady c addr seq ahead d
      → receive_packet addr (send_encrypted c seq payload).0 d
        ≡ (after addr seq (record d { shared = follow addr d.shared }), some payload)
  unfolding receive_packet send_encrypted open_packet
  receive_packet-send_encrypted seq ahead payload d hs small h =
      rw (length-sealed (nonce_client seq) (be32 seq) payload, h.host, from_be32-be32 seq ∙ number)
        (ap (λ o. open_packet o addr (be32 seq) sealed seq followed) h.cipher
          ∙ ap (λ o. accept_plaintext addr seq o followed)
              (aead.opens (nonce_client seq) (be32 seq) payload)
          ∙ plaintext_accepted seq ahead payload followed small (followed-IsReady seq ahead d h))
    where
      number : seq % 2 ^ 32 ≡ seq
      number = omega arith

      followed : Daemon
      followed = record d { shared = follow addr d.shared }

      sealed : List ℕ
      sealed =
          (c.seal (nonce_client seq) (be32 seq) payload).0
          ++ (c.seal (nonce_client seq) (be32 seq) payload).1

  skipped-IsReady :
      (seq ahead : ℕ) (d : Daemon)
      → IsReady c addr seq ahead d
      → IsReady c addr ((seq + 1) % 2 ^ 32) (ahead + 1) d
  skipped-IsReady seq ahead d h = record {
    cipher = h.cipher;
    host = h.host;
    number = ground (arith, h.number);
  }

  -- Of what the client sends, in order, from any sequence number, the daemon accepts exactly the
  -- payloads that the network delivers, in order, whichever of them are lost: it has the client's
  -- cipher and knows its host, and no more than 2^31 numbers pass.
  pub receive_all-arrivals :
      (sent : List (Bool × List ℕ)) (seq ahead : ℕ) (d : Daemon)
      → IsU32 seq
      → ahead + length sent ≤ 2 ^ 31
      → IsReady c addr seq ahead d
      → receive_all addr (arrivals c seq sent) d ≡ delivered sent
  unfolding receive_all arrivals send_encrypted
  receive_all-arrivals [] seq ahead d hs small h = refl
  receive_all-arrivals ((true, payload) ∷ sent) seq ahead d hs small h =
      ap
        (λ (r : Daemon × Option (List ℕ)).
          accepted r.1 (receive_all addr (arrivals c ((seq + 1) % 2 ^ 32) sent) r.0))
        (receive_packet-send_encrypted seq ahead payload d hs (omega arith) h)
      ∙ ap (λ later. payload ∷ later)
          (receive_all-arrivals sent ((seq + 1) % 2 ^ 32) 0 _ (omega arith) (omega arith)
            (after-IsReady c addr seq (record d { shared = follow addr d.shared }) h.cipher))
  receive_all-arrivals ((false, payload) ∷ sent) seq ahead d hs small h =
      receive_all-arrivals sent ((seq + 1) % 2 ^ 32) (ahead + 1) d (omega arith) (omega arith)
        (skipped-IsReady seq ahead d h)
