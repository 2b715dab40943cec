-- ===== src/Crypto/Nonces.antt =====
-- The nonces of the four channels together.
use screx_v.Prelude.{ℕ, ◌≡◌, List, arith}
use screx_v.Bytes.{IsByte, IsU16, IsU32}
use screx_v.Crypto.{nonce_server, nonce_client, nonce_control_client, nonce_control_server}

-- What each channel numbers its packets by.
pub data Packet : Type 0 where
  server : ℕ → ℕ → ℕ → Packet
  client control_client control_server : ℕ → Packet

abbrev pub nonce : Packet → List ℕ
nonce (server frame_id chunk_idx flags) = nonce_server frame_id chunk_idx flags
nonce (client seq) = nonce_client seq
nonce (control_client seq) = nonce_control_client seq
nonce (control_server seq) = nonce_control_server seq

-- The fields have the widths of the source.
abbrev pub Fits : Packet → Type 0
Fits (server frame_id chunk_idx flags) = IsU32 frame_id × IsU16 chunk_idx × IsByte flags
Fits (client seq) = IsU32 seq
Fits (control_client seq) = IsU32 seq
Fits (control_server seq) = IsU32 seq

-- The nonces that two packets are given, of the same channel or of different ones, are equal only if
-- the channel is the same, and with it the frame, chunk and flags or the sequence number, where these
-- have the widths of the source.
pub nonce-injective : (p q : Packet) → Fits p → Fits q → nonce p ≡ nonce q → p ≡ q
unfolding nonce_server nonce_client nonce_control_client nonce_control_server
nonce-injective p q hp hq e = ground arith
