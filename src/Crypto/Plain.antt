-- ===== src/Crypto/Plain.antt =====
-- A cipher that leaves the plaintext as it is and opens what it sealed, for the tests.
use screx_v.Prelude.{
  ◌-◌, refl, ap, some, arith, length, take, replicate, length-append, take-append_length,
}
use screx_v.Crypto.{Cipher, IsAead}

abbrev pub plain : Cipher
plain = record {
  seal = λ nonce aad p. (p, replicate 16 0);
  unseal = λ nonce aad sealed. some (take (length sealed - 16) sealed);
}

pub plain-IsAead : IsAead plain
plain-IsAead = record {
  same_length = λ nonce aad p. refl;
  tag_length = λ nonce aad p. refl;
  opens = λ nonce aad p.
      ap some
        (take-append_length _ p (replicate 16 0) (omega (arith, length-append p (replicate 16 0))));
}
