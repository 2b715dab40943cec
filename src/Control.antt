-- ===== src/Control.antt =====
-- The encrypted TCP control channel: `send_control_frame` and `run_control_loop` of
-- daemon/src/pairing.rs, `ControlSender::send_payload` and `spawn_control_receiver` of
-- client/desktop/src/backend.rs. A frame is a length, a sequence number, and a sealed payload.
pub mod Stream
pub mod Frames
pub mod Total
mod Tests
use screx_v.Prelude.{
  ℕ, zero, suc, ◌+◌, ◌-◌, ◌*◌, ◌%◌, ◌^◌, Bool, true, false, ◌||◌, Option, none, some, List, [], ◌∷◌,
  ◌++◌, ltb, ◌==◌, length, take, drop, replicate, if◌then◌else◌,
}
use screx_v.Bytes.{be32, from_be32}
use screx_v.Crypto.{Cipher, tag_len, encrypt_slice, nonce_control_client, nonce_control_server}
use Stream.{Signal, Read, got, timed_out, closed, read_exact}

abbrev pub control_max_frame : ℕ
control_max_frame = 65536

abbrev pub disconnect_magic : List ℕ
disconnect_magic = b'D' ∷ b'I' ∷ b'S' ∷ b'C' ∷ b'O' ∷ b'N' ∷ b'N' ∷ b'E' ∷ b'C' ∷ b'T' ∷ []

-- `send_control_frame` of the daemon: the bytes written, and the next `send_seq`.
unfoldable pub send_control_frame : Cipher → ℕ → List ℕ → List ℕ × ℕ
send_control_frame c send_seq payload =
    let aad = be32 send_seq in
    let n = length payload in
    let (encrypted, encrypted_len) =
      encrypt_slice c (nonce_control_server send_seq) aad (payload ++ replicate tag_len 0) n in
    let body_len = (4 + encrypted_len) % 2 ^ 32 in
    (be32 body_len ++ aad ++ take encrypted_len encrypted, (send_seq + 1) % 2 ^ 32)

-- `send_payload` of the client, whose buffer is sealed from the end of the aad on.
unfoldable pub send_payload : Cipher → ℕ → List ℕ → List ℕ × ℕ
send_payload c seq payload =
    let aad = be32 seq in
    let sealed = c.seal (nonce_control_client seq) aad payload in
    let body = aad ++ sealed.0 ++ sealed.1 in
    (be32 (length body % 2 ^ 32) ++ body, (seq + 1) % 2 ^ 32)

-- Why a loop ended. `stuck` is no outcome of the program: the model's fuel ran out.
pub data Ending : Type 0 where
  superseded disconnected invalid_length cut_payload graceful stuck : Ending

-- The payloads that were handed on, in order, and the end.
pub record Run : Type 0 where
  pub delivered : List (List ℕ)
  pub ending : Ending

abbrev pub ended : Ending → Run
ended e = record { delivered = []; ending = e }

abbrev pub deliver : List ℕ → Run → Run
deliver payload r = record r { delivered = payload ∷ r.delivered }

-- The big-endian number in the first four bytes.
abbrev pub u32_of : List ℕ → ℕ
u32_of (a ∷ b ∷ c ∷ d ∷ more) = from_be32 a b c d
u32_of short = 0

abbrev pub bytes_eq : List ℕ → List ℕ → Bool
bytes_eq [] [] = true
bytes_eq (x ∷ xs) (y ∷ ys) = if x == y then bytes_eq xs ys else false
bytes_eq _ _ = false

-- Both ends refuse a body shorter than the number and the tag, or longer than the limit.
unfoldable pub is_bad_length : ℕ → Bool
is_bad_length n = ltb n (4 + tag_len) || ltb control_max_frame n

-- The sequence number and the plaintext of a frame's body.
unfoldable pub open_body : Cipher → (ℕ → List ℕ) → List ℕ → Option (List ℕ)
open_body c nonce_of body = c.unseal (nonce_of (u32_of body)) (take 4 body) (drop 4 body)

-- What one round of either loop comes to.
pub data Step : Type 0 where
  stop : Ending → Step
  skip : List Signal → Step
  hand : List ℕ → List Signal → Step

abbrev pub opened : Option (List ℕ) → List Signal → Step
opened none rest = skip rest
opened (some payload) rest = hand payload rest

abbrev pub read_body : Cipher → (ℕ → List ℕ) → Read → Step
read_body c nonce_of closed = stop cut_payload
read_body c nonce_of (timed_out rest) = stop cut_payload
read_body c nonce_of (got body rest) = opened (open_body c nonce_of body) rest

unfoldable pub receive_body : Cipher → (ℕ → List ℕ) → ℕ → List Signal → Step
unfolding is_bad_length open_body
receive_body c nonce_of msg_len s =
    if is_bad_length msg_len
    then stop invalid_length
    else read_body c nonce_of (read_exact msg_len s)

abbrev pub read_length : Cipher → (ℕ → List ℕ) → Read → Step
read_length c nonce_of closed = stop disconnected
read_length c nonce_of (timed_out rest) = skip rest
read_length c nonce_of (got len_buf rest) = receive_body c nonce_of (u32_of len_buf) rest

-- One round: the length, the body, and its opening. A body that does not open is skipped, and so
-- is a timeout before the length. The sequence number is not checked (a gap is only logged).
unfoldable pub receive : Cipher → (ℕ → List ℕ) → List Signal → Step
unfolding receive_body
receive c nonce_of s = read_length c nonce_of (read_exact 4 s)

-- The rest of a round of the daemon's loop, by whether the session is still current and what
-- arrived; `next` is the loop on the rest of the stream.
abbrev pub daemon_round : (List Signal → Run) → Bool → Step → Run
daemon_round next false r = ended superseded
daemon_round next true (stop e) = ended e
daemon_round next true (skip rest) = next rest
daemon_round next true (hand payload rest) =
    if bytes_eq payload disconnect_magic then ended graceful else deliver payload (next rest)

-- `current` says of each round, counted by the rounds left, that no stop is asked for and the
-- session is still the current one.
unfoldable pub run_control_loop : ℕ → Cipher → (ℕ → Bool) → List Signal → Run
run_control_loop zero c current s = ended stuck
run_control_loop (suc fuel) c current s =
    daemon_round (run_control_loop fuel c current) (current fuel) (receive c nonce_control_client s)

-- The client's receiver is the same walk without the farewell.
abbrev pub client_round : (List Signal → Run) → Bool → Step → Run
client_round next false r = ended superseded
client_round next true (stop e) = ended e
client_round next true (skip rest) = next rest
client_round next true (hand payload rest) = deliver payload (next rest)

unfoldable pub control_receiver : ℕ → Cipher → (ℕ → Bool) → List Signal → Run
control_receiver zero c current s = ended stuck
control_receiver (suc fuel) c current s =
    client_round (control_receiver fuel c current) (current fuel) (receive c nonce_control_server s)
