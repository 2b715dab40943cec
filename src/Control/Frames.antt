-- ===== src/Control/Frames.antt =====
-- Sequences of control frames from one end to the other.
use screx_v.Prelude.{
  ℕ, suc, ◌+◌, ◌/◌, ◌%◌, ◌^◌, ◌≤◌, ◌<◌, ◌≡◌, refl, ap, ◌∙◌, Bool, true, false, some, List, [], ◌∷◌,
  ◌++◌, arith, length, length-append, take_all, All,
}
use Prim.Native.Nat.add
use mathlib.Core.List.{append_assoc, map-append}
use screx_v.Bytes.{be32, from_be32, from_be32-be32, IsU32}
use screx_v.Crypto.{
  Cipher, IsAead, tag_len, encrypt_slice_padded, nonce_control_client, nonce_control_server,
}
use screx_v.Control.{
  Run, deliver, hand, receive_body, receive, run_control_loop, control_receiver, is_bad_length,
  open_body, u32_of, bytes_eq, disconnect_magic, send_control_frame, send_payload,
  control_max_frame,
}
use screx_v.Control.Stream.{Signal, read_exact, bytes, byte, pause, read_exact-bytes}

-- The layout that both senders write.
abbrev body : Cipher → (ℕ → List ℕ) → ℕ → List ℕ → List ℕ
body c nonce_of seq payload =
    let sealed = c.seal (nonce_of seq) (be32 seq) payload in be32 seq ++ (sealed.0 ++ sealed.1)

abbrev frame : Cipher → (ℕ → List ℕ) → ℕ → List ℕ → List ℕ
frame c nonce_of seq payload =
    be32 (length (body c nonce_of seq payload)) ++ body c nonce_of seq payload

-- A payload that fits a frame.
abbrev pub FitsFrame : List ℕ → Type 0
FitsFrame payload = length payload + 4 + tag_len ≤ control_max_frame

module _ (c : Cipher) (aead : IsAead c) where
  length-body :
      (nonce_of : ℕ → List ℕ) (seq : ℕ) (payload : List ℕ)
      → length (body c nonce_of seq payload) ≡ length payload + 20
  length-body nonce_of seq payload =
      let sealed = c.seal (nonce_of seq) (be32 seq) payload in
      omega (
        arith,
        length-append sealed.0 sealed.1,
        aead.same_length (nonce_of seq) (be32 seq) payload,
        aead.tag_length (nonce_of seq) (be32 seq) payload,
      )

  open_body-body :
      (nonce_of : ℕ → List ℕ) (seq : ℕ) (payload : List ℕ)
      → IsU32 seq
      → open_body c nonce_of (body c nonce_of seq payload) ≡ some payload
  unfolding open_body
  open_body-body nonce_of seq payload h =
      rw (number, open_body) (aead.opens (nonce_of seq) (be32 seq) payload)
    where
      number : u32_of (body c nonce_of seq payload) ≡ seq
      number = from_be32-be32 seq ∙ omega arith

is_bad_length_fits : (n : ℕ) → 20 ≤ n → n ≤ control_max_frame → is_bad_length n ≡ false
unfolding is_bad_length
is_bad_length_fits n lo hi = ground arith

small : (n : ℕ) → is_bad_length n ≡ false → n % 2 ^ 32 ≡ n
unfolding is_bad_length
small n good = ground arith

be32-mod : (n : ℕ) → be32 (n % 2 ^ 32) ≡ be32 n
be32-mod n = ground arith

-- A whole body behind its length is read and opened.
receive_body-whole :
    (c : Cipher) (nonce_of : ℕ → List ℕ) (b payload : List ℕ) (rest : List Signal)
    → is_bad_length (length b) ≡ false
    → open_body c nonce_of b ≡ some payload
    → receive_body c nonce_of (length b) (bytes b ++ rest) ≡ hand payload rest
unfolding receive_body
receive_body-whole c nonce_of b payload rest good opens =
    rw (good, read_exact-bytes (length b) b rest refl, opens)

receive-whole :
    (c : Cipher) (nonce_of : ℕ → List ℕ) (b payload : List ℕ) (rest : List Signal)
    → is_bad_length (length b) ≡ false
    → open_body c nonce_of b ≡ some payload
    → receive c nonce_of (bytes (be32 (length b) ++ b) ++ rest) ≡ hand payload rest
unfolding receive read_exact
receive-whole c nonce_of b payload rest good opens =
    rw count (receive_body-whole c nonce_of b payload rest good opens)
  where
    n : ℕ
    n = length b

    count : from_be32 (n / 2 ^ 24 % 2 ^ 8) (n / 2 ^ 16 % 2 ^ 8) (n / 2 ^ 8 % 2 ^ 8) (n % 2 ^ 8) ≡ n
    count = from_be32-be32 n ∙ small n good

module _ (c : Cipher) (aead : IsAead c) where
  pub receive-frame :
      (nonce_of : ℕ → List ℕ) (seq : ℕ) (payload : List ℕ) (rest : List Signal)
      → IsU32 seq
      → FitsFrame payload
      → receive c nonce_of (bytes (frame c nonce_of seq payload) ++ rest) ≡ hand payload rest
  receive-frame nonce_of seq payload rest h fits =
      receive-whole c nonce_of (body c nonce_of seq payload) payload rest good
        (open_body-body c aead nonce_of seq payload h)
    where
      good : is_bad_length (length (body c nonce_of seq payload)) ≡ false
      good =
          is_bad_length_fits _ (omega (arith, length-body c aead nonce_of seq payload))
            (omega (arith, length-body c aead nonce_of seq payload))

  sealed_frame :
      (seq : ℕ) (payload : List ℕ)
      → (send_payload c seq payload).0 ≡ frame c nonce_control_client seq payload
  unfolding send_payload
  sealed_frame seq payload =
      let b = body c nonce_control_client seq payload in
      ap (λ (h : List ℕ). h ++ b) (be32-mod (length b))

  sent_frame :
      (seq : ℕ) (payload : List ℕ)
      → (send_control_frame c seq payload).0 ≡ frame c nonce_control_server seq payload
  unfolding send_control_frame
  sent_frame seq payload =
      rw
        (
          encrypt_slice_padded c (nonce_control_server seq) (be32 seq) payload,
          take_all (length payload + 16) (sealed.0 ++ sealed.1) (omega (arith, sealed_length)),
        )
        (ap (λ (h : List ℕ). h ++ b) counted)
    where
      sealed : List ℕ × List ℕ
      sealed = c.seal (nonce_control_server seq) (be32 seq) payload

      b : List ℕ
      b = body c nonce_control_server seq payload

      sealed_length : length (sealed.0 ++ sealed.1) ≡ length payload + 16
      sealed_length = omega (
        arith,
        length-append sealed.0 sealed.1,
        aead.same_length (nonce_control_server seq) (be32 seq) payload,
        aead.tag_length (nonce_control_server seq) (be32 seq) payload,
      )

      counted : be32 ((4 + (length payload + 16)) % 2 ^ 32) ≡ be32 (length b)
      counted = be32-mod (4 + (length payload + 16)) ∙ ap be32 (omega (arith, sealed_length))

-- The frames of several payloads, numbered from `seq` on.
pub client_frames : Cipher → ℕ → List (List ℕ) → List ℕ
client_frames c seq [] = []
client_frames c seq (p ∷ ps) =
    (send_payload c seq p).0 ++ client_frames c (send_payload c seq p).1 ps

pub daemon_frames : Cipher → ℕ → List (List ℕ) → List ℕ
daemon_frames c seq [] = []
daemon_frames c seq (p ∷ ps) =
    (send_control_frame c seq p).0 ++ daemon_frames c (send_control_frame c seq p).1 ps

abbrev pub deliver_all : List (List ℕ) → Run → Run
deliver_all ps r = record r { delivered = ps ++ r.delivered }

-- A payload that is no farewell, and fits.
abbrev pub IsOrdinary : List ℕ → Type 0
IsOrdinary p = FitsFrame p × (bytes_eq p disconnect_magic ≡ false)

pub bytes-append :
    (xs ys : List ℕ) (rest : List Signal)
    → bytes (xs ++ ys) ++ rest ≡ bytes xs ++ (bytes ys ++ rest)
bytes-append xs ys rest = rw (map-append byte xs ys) (append_assoc (bytes xs) (bytes ys) rest)

send_payload-IsU32 : (c : Cipher) (seq : ℕ) (p : List ℕ) → IsU32 (send_payload c seq p).1
unfolding send_payload
send_payload-IsU32 c seq p = omega arith

send_control_frame-IsU32 :
    (c : Cipher) (seq : ℕ) (p : List ℕ) → IsU32 (send_control_frame c seq p).1
unfolding send_control_frame
send_control_frame-IsU32 c seq p = omega arith

abbrev pub always : ℕ → Bool
always n = true

module _ (c : Cipher) (aead : IsAead c) where
  -- What the client sends through the control channel, the daemon handles, payload for payload and
  -- in order, whatever sequence number the client starts from; then it goes on with the rest of
  -- the stream. The payloads fit a frame and are no farewell, the session stays current, and no
  -- pause interrupts the frames.
  pub run_control_loop-client_frames :
      (ps : List (List ℕ)) (fuel seq : ℕ) (rest : List Signal)
      → IsU32 seq
      → All IsOrdinary ps
      → run_control_loop (length ps + fuel) c always (bytes (client_frames c seq ps) ++ rest)
        ≡ deliver_all ps (run_control_loop fuel c always rest)
  unfolding client_frames run_control_loop
  run_control_loop-client_frames [] fuel seq rest h ok = rw add.zero
  run_control_loop-client_frames (p ∷ ps) fuel seq rest h ((fits, plain), ok) =
      let (sent, next) = send_payload c seq p in
      let later = bytes (client_frames c next ps) ++ rest in
      rw
        (
          add.suc (length ps) fuel,
          bytes-append sent (client_frames c next ps) rest,
          sealed_frame c aead seq p,
          receive-frame c aead nonce_control_client seq p later h fits,
          plain,
        )
        (ap (deliver p)
          (run_control_loop-client_frames ps fuel next rest (send_payload-IsU32 c seq p) ok))

  -- What the daemon sends through the control channel, the client hands on, payload for payload and
  -- in order, whatever sequence number the daemon starts from; then it goes on with the rest of the
  -- stream. The payloads fit a frame, the session stays current, and no pause interrupts the frames.
  control_receiver-daemon_frames :
      (ps : List (List ℕ)) (fuel seq : ℕ) (rest : List Signal)
      → IsU32 seq
      → All FitsFrame ps
      → control_receiver (length ps + fuel) c always (bytes (daemon_frames c seq ps) ++ rest)
        ≡ deliver_all ps (control_receiver fuel c always rest)
  unfolding daemon_frames control_receiver
  control_receiver-daemon_frames [] fuel seq rest h ok = rw add.zero
  control_receiver-daemon_frames (p ∷ ps) fuel seq rest h (fits, ok) =
      let (sent, next) = send_control_frame c seq p in
      let later = bytes (daemon_frames c next ps) ++ rest in
      rw
        (
          add.suc (length ps) fuel,
          bytes-append sent (daemon_frames c next ps) rest,
          sent_frame c aead seq p,
          receive-frame c aead nonce_control_server seq p later h fits,
        )
        (ap (deliver p)
          (control_receiver-daemon_frames ps fuel next rest (send_control_frame-IsU32 c seq p) ok))

-- A pause inside a length prefix loses what came before it: where fewer than four bytes come, then
-- a timeout, then anything, the daemon goes on as if the bytes had never been sent.
split_prefix_lost :
    (c : Cipher) (fuel : ℕ) (prefix : List ℕ) (rest : List Signal)
    → length prefix < 4
    → run_control_loop (suc fuel) c always (bytes prefix ++ pause ∷ rest)
      ≡ run_control_loop fuel c always rest
unfolding run_control_loop receive read_exact
split_prefix_lost c fuel [] rest h = refl
split_prefix_lost c fuel (a ∷ []) rest h = refl
split_prefix_lost c fuel (a ∷ b ∷ []) rest h = refl
split_prefix_lost c fuel (a ∷ b ∷ d ∷ []) rest h = refl
split_prefix_lost c fuel (a ∷ b ∷ d ∷ e ∷ more) rest h = absurd (omega arith)
