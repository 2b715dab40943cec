-- ===== src/Crypto/Tests.antt =====
-- A run of the theorem on nonces.
use screx_v.Prelude.{◌≡◌, ◌+◌, refl, arith}
use screx_v.Crypto.Nonces.{server, nonce-injective}

nonce-injective_example : server 7 1 0 ≡ server (3 + 4) 1 0
nonce-injective_example =
    nonce-injective (server 7 1 0) (server (3 + 4) 1 0) (omega arith, omega arith, omega arith)
      (omega arith, omega arith, omega arith) refl
