-- ===== src/Control/Total.antt =====
-- How the two loops end.
use screx_v.Prelude.{
  ℕ, if-preserves, zero, suc, ◌<◌, ◌≢◌, Bool, true, false, Option, none, some, List, arith, length,
}
use screx_v.Crypto.{Cipher, nonce_control_client, nonce_control_server}
use screx_v.Control.{
  graceful, stuck, Run, Step, stop, skip, hand, opened, read_body, receive_body, read_length,
  receive, run_control_loop, control_receiver, is_bad_length, u32_of, bytes_eq, daemon_round,
  client_round, disconnect_magic,
}
use screx_v.Control.Stream.{Signal, Read, got, timed_out, closed, Shrinks, read_exact-Shrinks}

-- A round stops for a reason of the program's, or leaves less of the stream.
abbrev pub Advances : ℕ → Step → Type 0
Advances before (stop e) = e ≢ stuck
Advances before (skip rest) = length rest < before
Advances before (hand payload rest) = length rest < before

opened-Advances :
    (n : ℕ) (o : Option (List ℕ)) (rest : List Signal)
    → length rest < n
    → Advances n (opened o rest)
opened-Advances n none rest h = h
opened-Advances n (some payload) rest h = h

read_body-Advances :
    (c : Cipher) (nonce_of : ℕ → List ℕ) (n before : ℕ) (r : Read)
    → Shrinks n before r
    → Advances (suc before) (read_body c nonce_of r)
read_body-Advances c nonce_of n before (got body rest) h = opened-Advances _ _ rest (omega arith)
read_body-Advances c nonce_of n before (timed_out rest) h = λ e. cc
read_body-Advances c nonce_of n before closed h = λ e. cc

receive_body-Advances :
    (c : Cipher) (nonce_of : ℕ → List ℕ) (n : ℕ) (s : List Signal)
    → Advances (suc (length s)) (receive_body c nonce_of n s)
unfolding receive_body
receive_body-Advances c nonce_of n s =
    if-preserves (Advances (suc (length s))) (is_bad_length n) (λ e. cc)
      (read_body-Advances c nonce_of n _ _ (read_exact-Shrinks n s))

Advances-mono : {m n : ℕ} (r : Step) → m < n → Advances m r → Advances n r
Advances-mono (stop e) h a = a
Advances-mono (skip rest) h a = omega arith
Advances-mono (hand payload rest) h a = omega arith

read_length-Advances :
    (c : Cipher) (nonce_of : ℕ → List ℕ) (before : ℕ) (r : Read)
    → Shrinks 4 before r
    → Advances before (read_length c nonce_of r)
read_length-Advances c nonce_of before (got len rest) h =
    Advances-mono _ (omega arith) (receive_body-Advances c nonce_of (u32_of len) rest)
read_length-Advances c nonce_of before (timed_out rest) h = h
read_length-Advances c nonce_of before closed h = λ e. cc

pub receive-Advances :
    (c : Cipher) (nonce_of : ℕ → List ℕ) (s : List Signal)
    → Advances (length s) (receive c nonce_of s)
unfolding receive
receive-Advances c nonce_of s = read_length-Advances c nonce_of _ _ (read_exact-Shrinks 4 s)

graceful_ne_stuck : graceful ≢ stuck
graceful_ne_stuck e = cc

daemon_round_ends :
    (next : List Signal → Run) (n : ℕ)
    → ((rest : List Signal) → length rest < n → (next rest).ending ≢ stuck)
    → (current : Bool) (r : Step) → Advances n r
    → (daemon_round next current r).ending ≢ stuck
daemon_round_ends next n ends false r a = λ e. cc
daemon_round_ends next n ends true (stop e) a = a
daemon_round_ends next n ends true (skip rest) a = ends rest a
daemon_round_ends next n ends true (hand payload rest) a =
    if-preserves (λ (run : Run). run.ending ≢ stuck) (bytes_eq payload disconnect_magic)
      graceful_ne_stuck (ends rest a)

client_round_ends :
    (next : List Signal → Run) (n : ℕ)
    → ((rest : List Signal) → length rest < n → (next rest).ending ≢ stuck)
    → (current : Bool) (r : Step) → Advances n r
    → (client_round next current r).ending ≢ stuck
client_round_ends next n ends false r a = λ e. cc
client_round_ends next n ends true (stop e) a = a
client_round_ends next n ends true (skip rest) a = ends rest a
client_round_ends next n ends true (hand payload rest) a = ends rest a

-- The daemon's control loop ends on every stream, whatever it holds, within one round for each
-- byte and pause, and one more.
pub run_control_loop_ends :
    (fuel : ℕ) (c : Cipher) (current : ℕ → Bool) (s : List Signal)
    → length s < fuel
    → (run_control_loop fuel c current s).ending ≢ stuck
unfolding run_control_loop
run_control_loop_ends zero c current s h = absurd (omega arith)
run_control_loop_ends (suc fuel) c current s h =
    daemon_round_ends (run_control_loop fuel c current) (length s)
      (λ rest shorter. run_control_loop_ends fuel c current rest (omega arith)) (current fuel)
      (receive c nonce_control_client s) (receive-Advances c nonce_control_client s)

-- The client's receiver ends on every stream, whatever it holds, within one round for each byte
-- and pause, and one more.
control_receiver_ends :
    (fuel : ℕ) (c : Cipher) (current : ℕ → Bool) (s : List Signal)
    → length s < fuel
    → (control_receiver fuel c current s).ending ≢ stuck
unfolding control_receiver
control_receiver_ends zero c current s h = absurd (omega arith)
control_receiver_ends (suc fuel) c current s h =
    client_round_ends (control_receiver fuel c current) (length s)
      (λ rest shorter. control_receiver_ends fuel c current rest (omega arith)) (current fuel)
      (receive c nonce_control_server s) (receive-Advances c nonce_control_server s)
