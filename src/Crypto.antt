-- ===== src/Crypto.antt =====
-- daemon/src/crypto.rs, and its copy in client/desktop/src/backend.rs: the nonces of the four
-- channels, and `encrypt_slice`. AES-GCM is the `ring` library's, a `Cipher` here.
pub mod Nonces
pub mod Plain
mod Tests
use screx_v.Prelude.{
  ℕ, ◌+◌, ◌≡◌, refl, Option, some, List, [], ◌∷◌, ◌++◌, arith, length, take, drop, replicate,
  drop_all, length-append, take-append_length,
}
use mathlib.Core.List.{append-nil}
use screx_v.Bytes.{be16, be32}

-- What the code uses of `LessSafeKey` under one key: `seal_in_place_separate_tag` gives the
-- ciphertext and the tag, `open_in_place` the plaintext or a failure. Arguments: nonce, then aad.
pub record Cipher : Type 0 where
  pub seal : List ℕ → List ℕ → List ℕ → List ℕ × List ℕ
  pub unseal : List ℕ → List ℕ → List ℕ → Option (List ℕ)

-- The documented behaviour of AES-GCM that the framing relies on.
pub record IsAead (c : Cipher) : Type 0 where
  pub same_length : (nonce aad plain : List ℕ) → length (c.seal nonce aad plain).0 ≡ length plain
  pub tag_length : (nonce aad plain : List ℕ) → length (c.seal nonce aad plain).1 ≡ 16
  pub opens :
      (nonce aad plain : List ℕ)
      → c.unseal nonce aad ((c.seal nonce aad plain).0 ++ (c.seal nonce aad plain).1) ≡ some plain

abbrev pub tag_len : ℕ
tag_len = 16

-- The first `data_len` bytes of the buffer are sealed in place, and the tag is written after them.
-- The result is the buffer and the sealed length. The source panics on a shorter buffer.
unfoldable pub encrypt_slice : Cipher → List ℕ → List ℕ → List ℕ → ℕ → List ℕ × ℕ
encrypt_slice c nonce aad buf data_len =
    let sealed = c.seal nonce aad (take data_len buf) in
    (sealed.0 ++ sealed.1 ++ drop (data_len + tag_len) buf, data_len + tag_len)

unfoldable pub nonce_server : ℕ → ℕ → ℕ → List ℕ
nonce_server frame_id chunk_idx flags =
    (0x00 ∷ []) ++ be32 frame_id ++ be16 chunk_idx ++ flags ∷ replicate 4 0

unfoldable pub nonce_client : ℕ → List ℕ
nonce_client seq_num = (0xFF ∷ []) ++ be32 seq_num ++ replicate 7 0

unfoldable pub nonce_control_client : ℕ → List ℕ
nonce_control_client seq_num = (0x7F ∷ []) ++ be32 seq_num ++ replicate 7 0

unfoldable pub nonce_control_server : ℕ → List ℕ
nonce_control_server seq_num = (0x80 ∷ []) ++ be32 seq_num ++ replicate 7 0

-- Sealing a payload that was copied into a buffer with room for the tag.
pub encrypt_slice_padded :
    (c : Cipher) (nonce aad payload : List ℕ)
    → encrypt_slice c nonce aad (payload ++ replicate tag_len 0) (length payload)
      ≡ ((c.seal nonce aad payload).0 ++ (c.seal nonce aad payload).1, length payload + tag_len)
unfolding encrypt_slice
encrypt_slice_padded c nonce aad payload = rw (
  take-append_length (length payload) payload (replicate tag_len 0) refl,
  drop_all (length payload + tag_len) (payload ++ replicate tag_len 0)
      (omega (arith, length-append payload (replicate tag_len 0))),
  append-nil ((c.seal nonce aad payload).0 ++ (c.seal nonce aad payload).1),
)
