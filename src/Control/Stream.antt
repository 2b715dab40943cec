-- ===== src/Control/Stream.antt =====
-- What a TCP stream with a read timeout hands to `read_exact`: bytes, and pauses long enough for
-- the timeout. The end of the list is the end of the stream.
use screx_v.Prelude.{ℕ, zero, suc, ◌+◌, ◌<◌, ◌≡◌, refl, ap, List, [], ◌∷◌, ◌++◌, map, arith, length}

pub data Signal : Type 0 where
  byte : ℕ → Signal
  pause : Signal

-- The three ways in which `read_exact` returns: `Ok`, a timeout, any other error.
pub data Read : Type 0 where
  got : List ℕ → List Signal → Read
  timed_out : List Signal → Read
  closed : Read

abbrev push : ℕ → Read → Read
push b (got bs rest) = got (b ∷ bs) rest
push b (timed_out rest) = timed_out rest
push b closed = closed

-- The standard library's `read_exact` reads until the buffer is full. A timeout returns at once,
-- and what was read into the buffer before it is lost to the caller, who starts anew.
unfoldable pub read_exact : ℕ → List Signal → Read
read_exact zero s = got [] s
read_exact (suc n) [] = closed
read_exact (suc n) (pause ∷ rest) = timed_out rest
read_exact (suc n) (byte b ∷ rest) = push b (read_exact n rest)

-- Bytes that come with no pause between them.
abbrev pub bytes : List ℕ → List Signal
bytes = map byte

pub read_exact-bytes :
    (n : ℕ) (bs : List ℕ) (rest : List Signal)
    → length bs ≡ n
    → read_exact n (bytes bs ++ rest) ≡ got bs rest
unfolding read_exact
read_exact-bytes zero [] rest h = refl
read_exact-bytes zero (b ∷ bs) rest h = absurd (omega arith)
read_exact-bytes (suc n) [] rest h = absurd (omega arith)
read_exact-bytes (suc n) (b ∷ bs) rest h = rw (read_exact-bytes n bs rest (omega arith))

-- What is left is shorter by what was read, and by at least the pause.
abbrev pub Shrinks : ℕ → ℕ → Read → Type 0
Shrinks n before (got bs rest) = length rest + n ≡ before
Shrinks n before (timed_out rest) = length rest < before
Shrinks n before closed = Unit {0}

push-Shrinks :
    (b n before : ℕ) (r : Read) → Shrinks n before r → Shrinks (suc n) (suc before) (push b r)
push-Shrinks b n before (got bs rest) h = omega arith
push-Shrinks b n before (timed_out rest) h = omega arith
push-Shrinks b n before closed h = tt

pub read_exact-Shrinks : (n : ℕ) (s : List Signal) → Shrinks n (length s) (read_exact n s)
unfolding read_exact
read_exact-Shrinks zero s = omega arith
read_exact-Shrinks (suc n) [] = tt
read_exact-Shrinks (suc n) (pause ∷ rest) = omega arith
read_exact-Shrinks (suc n) (byte b ∷ rest) =
    push-Shrinks b n (length rest) (read_exact n rest) (read_exact-Shrinks n rest)

-- The bytes of a stream, its pauses left out.
unfoldable pub sent : List Signal → List ℕ
sent [] = []
sent (byte b ∷ s) = b ∷ sent s
sent (pause ∷ s) = sent s

-- What a read of n bytes has taken off a stream.
unfoldable pub Took : (n : ℕ) → List Signal → Read → Type 0
Took n s (got bs rest) = (length bs ≡ n) × (sent s ≡ bs ++ sent rest)
Took n s (timed_out rest) = (lost : List ℕ) × (sent s ≡ lost ++ sent rest)
Took n s closed = Unit {0}

push-Took :
    (b n : ℕ) (s : List Signal) (r : Read) → Took n s r → Took (suc n) (byte b ∷ s) (push b r)
unfolding Took sent
push-Took b n s (got bs rest) (len, same) = (ap suc len, ap (λ l. b ∷ l) same)
push-Took b n s (timed_out rest) (lost, same) = (b ∷ lost, ap (λ l. b ∷ l) same)
push-Took b n s closed t = tt

pub read_exact-Took : (n : ℕ) (s : List Signal) → Took n s (read_exact n s)
unfolding read_exact Took sent
read_exact-Took zero s = (refl, refl)
read_exact-Took (suc n) [] = tt
read_exact-Took (suc n) (pause ∷ rest) = ([], refl)
read_exact-Took (suc n) (byte b ∷ rest) =
    push-Took b n rest (read_exact n rest) (read_exact-Took n rest)
