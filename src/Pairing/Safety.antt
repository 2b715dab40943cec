-- ===== src/Pairing/Safety.antt =====
-- What a handshake cannot do, whatever the client sends, and what it can.
use screx_v.Prelude.{
  subst, ℕ, zero, suc, ◌≡◌, ◌⊎◌, inl, inr, refl, ap, sym, ◌∙◌, Option, none, some, List, ◌++◌, take,
  drop, if◌then◌else◌, if-preserves, Bool-cases, [],
}
use mathlib.Core.List.{append-nil}
use screx_v.Control.Stream.{
  Signal, Read, got, timed_out, closed, read_exact, sent, Took, read_exact-Took,
}
use screx_v.History.{same_bytes}
use screx_v.History.Normal.{same_bytes_eq}
use screx_v.Pairing.{Primitives, magic_pair, magic_hello}
use screx_v.Pairing.Devices.{PairingState}
use screx_v.Pairing.Daemon.{
  Drawn, Handled, Outcome, session, failed, rejected, unknown_magic, failing, hide_prompt,
  handle_pair_request, greet_device, handle_hello_request, after_output, retry_after, handle_header,
  attempts, handle_handshake,
}
use screx_v.Pairing.Answers.{
  SentPin, next, IsGuarded, IsSame, IsSuffix, handle_pair_request-Guarded,
}

module _ (p : Primitives) (draw : ℕ → Drawn) (ip : List ℕ) (ps : PairingState)
    (whole : List Signal) where
  abbrev Guarded : Handled → Type 0
  Guarded h = IsGuarded p draw ip ps whole h

  abbrev Same : PairingState → Type 0
  Same st = IsSame p draw ip ps whole st

  abbrev Suffix : List Signal → Type 0
  Suffix s = IsSuffix p draw ip ps whole s

  greet_device-Same :
      (r : Drawn) (nonce : List ℕ) (st : PairingState) (s : List Signal) (o : Option (List ℕ))
      → ((greet_device p r nonce st s o).pairing ≡ st) × ((greet_device p r nonce st s o).input ≡ s)
  unfolding greet_device
  greet_device-Same r nonce st s none = (refl, refl)
  greet_device-Same r nonce st s (some key) = (refl, refl)

  -- A hello leaves the state as it was, and leaves the end of what was sent.
  handle_hello_request-Same :
      (r : Drawn) (header done : List ℕ) (st : PairingState) (s : List Signal) (read : Read)
      → sent whole ≡ done ++ sent s
      → Took 47 s read
      → ((handle_hello_request p r header st read).pairing ≡ st)
        × Suffix (handle_hello_request p r header st read).input
  unfolding handle_hello_request failing Took sent
  handle_hello_request-Same r header done st s (got bs rest) at (len, here) =
      let greeted = greet_device-Same r (drop 15 bs) st rest _ in
      (
        greeted.0,
        subst Suffix (sym greeted.1) (done ++ bs, next (sent whole) done bs s rest at here),
      )
  handle_hello_request-Same r header done st s (timed_out rest) at (lost, here) =
      (refl, (done ++ lost, next (sent whole) done lost s rest at here))
  handle_hello_request-Same r header done st s closed at took =
      (refl, (sent whole, sym (append-nil (sent whole))))

  retry_after-Guarded :
      (retry : PairingState → List Signal → Handled) (h : Handled) (o : Outcome)
      → ((st : PairingState) (s : List Signal) → Same st → Suffix s → Guarded (retry st s))
      → Same h.pairing
      → Suffix h.input
      → Guarded (retry_after retry h o)
  unfolding retry_after after_output
  retry_after-Guarded retry h rejected again same at = again h.pairing h.input same at
  retry_after-Guarded retry h (session key) again same at = inl same
  retry_after-Guarded retry h (failed why) again same at = inl same

  handle_header-Guarded :
      (left : ℕ) (before : List ℕ) (st : PairingState)
      (retry : PairingState → List Signal → Handled) (s : List Signal) (read : Read)
      → Same st
      → sent whole ≡ before ++ sent s
      → Took 12 s read
      → ((st : PairingState) (s : List Signal) → Same st → Suffix s → Guarded (retry st s))
      → Guarded (handle_header p (draw left) ip st retry read)
  unfolding handle_header failing hide_prompt Took
  handle_header-Guarded left before st retry s (got header rest) same at (hl, here) again =
      elim (Bool-cases (same_bytes (take 10 header) magic_pair)) [
        | inl e ↦
            subst (λ b. Guarded (if b then paired else other)) (sym e)
              (handle_pair_request-Guarded p draw ip ps whole left before header st rest
                (read_exact 46 rest) hl (same_bytes_eq (take 10 header) magic_pair e) same moved
                (read_exact-Took 46 rest))
        | inr e ↦
            subst (λ b. Guarded (if b then paired else other)) (sym e)
              (if-preserves Guarded (same_bytes (take 11 header) magic_hello)
                (retry_after-Guarded retry _ _ again (ap (λ x. x.paired_devices) hello.0 ∙ same)
                  hello.1)
                (inl same))
      ]
    where
      paired : Handled
      paired = hide_prompt (handle_pair_request p (draw left) ip header st (read_exact 46 rest))

      other : Handled
      other =
          if same_bytes (take 11 header) magic_hello
          then (let h = handle_hello_request p (draw left) header st (read_exact 47 rest) in
              retry_after retry h h.outcome)
          else failing st [] rest unknown_magic

      moved : sent whole ≡ before ++ header ++ sent rest
      moved = next (sent whole) before header s rest at here

      hello :
          ((handle_hello_request p (draw left) header st (read_exact 47 rest)).pairing ≡ st)
          × Suffix (handle_hello_request p (draw left) header st (read_exact 47 rest)).input
      hello =
          handle_hello_request-Same (draw left) header (before ++ header) st rest
            (read_exact 47 rest) moved (read_exact-Took 47 rest)
  handle_header-Guarded left before st retry s (timed_out rest) same at took again = inl same
  handle_header-Guarded left before st retry s closed same at took again = inl same

  attempts-Guarded :
      (left : ℕ) (st : PairingState) (s : List Signal)
      → Same st
      → Suffix s
      → Guarded (attempts p draw ip left st s)
  unfolding attempts failing
  attempts-Guarded zero st s same at = inl same
  attempts-Guarded (suc left) st s same (before, at) =
      handle_header-Guarded left before st (attempts p draw ip left) s (read_exact 12 s) same at
        (read_exact-Took 12 s) (attempts-Guarded left)

-- Whatever a client sends, the handshake leaves the paired devices as they are, unless in one of the
-- attempts the client sent, one after the other, a PAIR request and an answer which, under the secret
-- that the request's public key gives with the daemon's key, opens to the PIN that the daemon drew
-- in that attempt; then the device of that request is stored, with the key that this secret and this
-- PIN give.
pub devices_guarded :
    (p : Primitives) (draw : ℕ → Drawn) (ip : List ℕ) (ps : PairingState) (s : List Signal)
    → (let h = handle_handshake p draw ip ps s in
        (h.pairing.paired_devices ≡ ps.paired_devices)
        ⊎ SentPin p draw ip ps s h.pairing.paired_devices)
unfolding handle_handshake
devices_guarded p draw ip ps s = attempts-Guarded p draw ip ps s 3 ps s refl ([], refl)
