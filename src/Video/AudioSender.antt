-- ===== src/Video/AudioSender.antt =====
-- AudioSender::send_audio of daemon/src/stream_server.rs.
use screx_v.Prelude.{
  ℕ, ◌+◌, ◌-◌, ◌*◌, ◌%◌, ◌^◌, zero, suc, min, Bool, Option, List, [], ◌∷◌, length, take, drop,
  if◌then◌else◌,
}
use screx_v.Bytes.{as_u16}
use screx_v.Crypto.{Cipher}
use screx_v.Video.{chunk_payload, flag_audio, build_header, sealed_packet, data_count_of}

pub record AudioSender : Type 0 where
  pub frame_id : ℕ
  pub cipher : Option Cipher

-- The packet of one chunk, which is not padded.
unfoldable pub audio_packet : AudioSender → (timestamp_ms : ℕ) → (pcm : List ℕ) → (i : ℕ) → List ℕ
unfolding data_count_of sealed_packet
audio_packet sender timestamp_ms pcm i =
    let start = i * chunk_payload in
    let len = min (start + chunk_payload) (length pcm) - start in
    sealed_packet sender.cipher sender.frame_id (as_u16 i) flag_audio
      (build_header sender.frame_id (as_u16 i) (as_u16 (data_count_of pcm)) 0 flag_audio 0
        (as_u16 len) timestamp_ms)
      (take len (drop start pcm))

-- The packets that leave: the first one that cannot be sent ends the loop.
unfoldable pub audio_packets :
    (send_to : ℕ → Bool)
    → AudioSender
    → (timestamp_ms : ℕ) → (pcm : List ℕ) → (count i : ℕ) → List (List ℕ)
unfolding audio_packet
audio_packets send_to sender timestamp_ms pcm zero i = []
audio_packets send_to sender timestamp_ms pcm (suc count) i =
    let rest = audio_packets send_to sender timestamp_ms pcm count (i + 1) in
    if send_to i then audio_packet sender timestamp_ms pcm i ∷ rest else []

-- The sender after the audio, and the packets that left. The identifier moves on in any case.
unfoldable pub send_audio :
    (send_to : ℕ → Bool)
    → (pcm : List ℕ) (timestamp_ms : ℕ) → AudioSender
    → AudioSender × List (List ℕ)
unfolding audio_packets data_count_of
send_audio send_to pcm timestamp_ms sender = (
  record sender { frame_id = (sender.frame_id + 1) % 2 ^ 32 },
  audio_packets send_to sender timestamp_ms pcm (data_count_of pcm) 0,
)
