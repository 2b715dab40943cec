-- ===== src/Pairing.antt =====
-- The pairing handshake of daemon/src/pairing.rs and client/desktop/src/backend.rs: its messages and
-- the keys that both sides derive, with `hkdf_sha256` and `hmac_sha256` of daemon/src/crypto.rs and
-- their copies in the client. X25519, HKDF, HMAC and AES-GCM are the `ring` library's.
pub mod Devices
pub mod Daemon
pub mod Client
pub mod Messages
pub mod Ends
pub mod Agreement
pub mod Answers
pub mod Safety
pub mod Refused
pub mod Stored
mod Tests
use screx_v.Prelude.{ℕ, ◌≡◌, ◌+◌, ◌/◌, ◌%◌, ◌^◌, Option, some, List, [], ◌∷◌, ◌++◌, length, All}
use screx_v.Bytes.{IsByte}
use screx_v.Crypto.{Cipher, IsAead}

-- What the code uses of `ring`. A private key is the random bytes it is made of; `agree` is
-- `agree_ephemeral`, own private key first; `session_cipher` is AES-256-GCM under a key.
pub record Primitives : Type 0 where
  pub compute_public_key : List ℕ → List ℕ
  pub agree : List ℕ → List ℕ → Option (List ℕ)
  pub extract : (salt ikm : List ℕ) → List ℕ
  pub expand : (prk info : List ℕ) → List ℕ
  pub sign : (key payload : List ℕ) → List ℕ
  pub session_cipher : List ℕ → Cipher

-- The documented behaviour that the handshake relies on: the lengths, bytes, a shared secret that
-- is the same on both sides, and an authenticated cipher.
pub record IsRing (p : Primitives) : Type 0 where
  pub public_length : (private : List ℕ) → length (p.compute_public_key private) ≡ 32
  pub agrees :
      (a b : List ℕ) → p.agree a (p.compute_public_key b) ≡ p.agree b (p.compute_public_key a)
  pub key_length : (prk info : List ℕ) → length (p.expand prk info) ≡ 32
  pub key_bytes : (prk info : List ℕ) → All IsByte (p.expand prk info)
  pub mac_length : (key payload : List ℕ) → length (p.sign key payload) ≡ 32
  pub is_aead : (key : List ℕ) → IsAead (p.session_cipher key)

abbrev pub magic_pair : List ℕ
magic_pair = b'S' ∷ b'C' ∷ b'R' ∷ b'E' ∷ b'X' ∷ b'_' ∷ b'P' ∷ b'A' ∷ b'I' ∷ b'R' ∷ []

abbrev pub magic_hello : List ℕ
magic_hello = b'S' ∷ b'C' ∷ b'R' ∷ b'E' ∷ b'X' ∷ b'_' ∷ b'H' ∷ b'E' ∷ b'L' ∷ b'L' ∷ b'O' ∷ []

abbrev pub magic_pin : List ℕ
magic_pin = b'S' ∷ b'C' ∷ b'R' ∷ b'E' ∷ b'X' ∷ b'_' ∷ b'P' ∷ b'I' ∷ b'N' ∷ 0 ∷ []

abbrev pub magic_answer : List ℕ
magic_answer =
    b'S' ∷ b'C' ∷ b'R' ∷ b'E' ∷ b'X' ∷ b'_' ∷ b'A' ∷ b'N' ∷ b'S' ∷ b'W' ∷ b'E' ∷ b'R' ∷ []

abbrev pub magic_ok : List ℕ
magic_ok = b'S' ∷ b'C' ∷ b'R' ∷ b'E' ∷ b'X' ∷ b'_' ∷ b'O' ∷ b'K' ∷ 0 ∷ 0 ∷ []

abbrev pub magic_reject : List ℕ
magic_reject =
    b'S' ∷ b'C' ∷ b'R' ∷ b'E' ∷ b'X' ∷ b'_' ∷ b'R' ∷ b'E' ∷ b'J' ∷ b'E' ∷ b'C' ∷ b'T' ∷ []

abbrev pub magic_busy : List ℕ
magic_busy = b'S' ∷ b'C' ∷ b'R' ∷ b'E' ∷ b'X' ∷ b'_' ∷ b'B' ∷ b'U' ∷ b'S' ∷ b'Y' ∷ 0 ∷ 0 ∷ []

-- "screx-pin-exchange".
abbrev pub exchange_salt : List ℕ
exchange_salt =
    b's' ∷ b'c' ∷ b'r' ∷ b'e' ∷ b'x' ∷ b'-' ∷ b'p' ∷ b'i' ∷ b'n' ∷ b'-' ∷ b'e' ∷ b'x' ∷ b'c' ∷ b'h'
    ∷ b'a' ∷ b'n' ∷ b'g' ∷ b'e' ∷ []

-- "pin-encrypt".
abbrev pub exchange_info : List ℕ
exchange_info = b'p' ∷ b'i' ∷ b'n' ∷ b'-' ∷ b'e' ∷ b'n' ∷ b'c' ∷ b'r' ∷ b'y' ∷ b'p' ∷ b't' ∷ []

-- "screx-pin-verify".
abbrev pub verify_aad : List ℕ
verify_aad =
    b's' ∷ b'c' ∷ b'r' ∷ b'e' ∷ b'x' ∷ b'-' ∷ b'p' ∷ b'i' ∷ b'n' ∷ b'-' ∷ b'v' ∷ b'e' ∷ b'r' ∷ b'i'
    ∷ b'f' ∷ b'y' ∷ []

-- "screx-pairing-salt".
abbrev pub pairing_salt : List ℕ
pairing_salt =
    b's' ∷ b'c' ∷ b'r' ∷ b'e' ∷ b'x' ∷ b'-' ∷ b'p' ∷ b'a' ∷ b'i' ∷ b'r' ∷ b'i' ∷ b'n' ∷ b'g' ∷ b'-'
    ∷ b's' ∷ b'a' ∷ b'l' ∷ b't' ∷ []

-- "screx-pairing".
abbrev pub pairing_info : List ℕ
pairing_info =
    b's' ∷ b'c' ∷ b'r' ∷ b'e' ∷ b'x' ∷ b'-' ∷ b'p' ∷ b'a' ∷ b'i' ∷ b'r' ∷ b'i' ∷ b'n' ∷ b'g' ∷ []

-- "screx-session".
abbrev pub session_info : List ℕ
session_info =
    b's' ∷ b'c' ∷ b'r' ∷ b'e' ∷ b'x' ∷ b'-' ∷ b's' ∷ b'e' ∷ b's' ∷ b's' ∷ b'i' ∷ b'o' ∷ b'n' ∷ []

-- "server-verify".
abbrev pub server_verify : List ℕ
server_verify =
    b's' ∷ b'e' ∷ b'r' ∷ b'v' ∷ b'e' ∷ b'r' ∷ b'-' ∷ b'v' ∷ b'e' ∷ b'r' ∷ b'i' ∷ b'f' ∷ b'y' ∷ []

unfoldable pub hkdf_sha256 : Primitives → (ikm salt info : List ℕ) → List ℕ
hkdf_sha256 p ikm salt info = p.expand (p.extract salt ikm) info

unfoldable pub hmac_sha256 : Primitives → (key payload : List ℕ) → List ℕ
hmac_sha256 p key payload = p.sign key payload

-- The key under which the PIN is sent, from the shared secret.
unfoldable pub pin_key : Primitives → (secret : List ℕ) → List ℕ
unfolding hkdf_sha256
pin_key p secret = hkdf_sha256 p secret exchange_salt exchange_info

-- The key that both sides store, from the shared secret and the PIN.
unfoldable pub pairing_key : Primitives → (secret pin : List ℕ) → List ℕ
unfolding hkdf_sha256
pairing_key p secret pin = hkdf_sha256 p (secret ++ pin) pairing_salt pairing_info

unfoldable pub session_key : Primitives → (key salt : List ℕ) → List ℕ
unfolding hkdf_sha256
session_key p key salt = hkdf_sha256 p key salt session_info

-- What the client sends: a request for pairing, the sealed PIN, a hello.
unfoldable pub pair_packet : (device_id public : List ℕ) → List ℕ
pair_packet device_id public = magic_pair ++ device_id ++ public

unfoldable pub answer_packet : Primitives → (secret nonce pin : List ℕ) → List ℕ
unfolding pin_key
answer_packet p secret nonce pin =
    let sealed = (p.session_cipher (pin_key p secret)).seal nonce verify_aad pin in
    magic_answer ++ nonce ++ (sealed.0 ++ sealed.1)

unfoldable pub hello_packet : (device_id client_nonce : List ℕ) → List ℕ
hello_packet device_id client_nonce = magic_hello ++ device_id ++ client_nonce

-- What the daemon sends: the challenge, and the acceptance, which proves the session key.
unfoldable pub pin_challenge : (public : List ℕ) → List ℕ
pin_challenge public = magic_pin ++ public

unfoldable pub ok_message : Primitives → (daemon_id salt key : List ℕ) → List ℕ
unfolding hmac_sha256
ok_message p daemon_id salt key = magic_ok ++ daemon_id ++ salt ++ hmac_sha256 p key server_verify
