-- ===== src/Video/Tests.antt =====
-- Runs of the theorems on the media packets.
use screx_v.Prelude.{
  ℕ, ◌+◌, ◌*◌, ◌%◌, ◌^◌, ◌<◌, ◌≤◌, ◌≡◌, ◌⊎◌, ◌∙◌, ap, sym, subst, refl, arith, true, false, none,
  some, List, [], ◌∷◌, map, length, ltb, take, replicate, length-replicate, All,
}
use screx_v.Crypto.Plain.{plain, plain-IsAead}
use screx_v.Adaptive.{StreamTuning}
use screx_v.Audio.{AvSync}
use screx_v.Video.{
  Frame, data_count_of, actual_parity, parity_count, parity_percent, Sockets, UdpSender, send_frame,
  frame_packets,
}
use screx_v.Video.Code.{IsCode}
use screx_v.Video.SumCode.{sum_code, sum_code-IsCode}
use screx_v.Video.Shards.{count_present}
use screx_v.Video.Wire.{IsSendable}
use screx_v.Video.Arrival.{
  input, Delivers, packets, frame_packets_lem, length-packets, frame_arrives,
}
use screx_v.Video.Timely.{Moment, packet, batch_end, marked, IsTimely}
use screx_v.Video.Batches.{send_frame_sends}
use screx_v.Video.Receiver.{Receiver, Input, arrives, batch_ends, lookup, is_stale, run, step}
use screx_v.Video.Throttle.{Throttled, plis, step-Throttled}
use screx_v.Video.Bounds.{actual_parity_bounds}

payload : List ℕ
payload = replicate 2000 7

length-payload : length payload ≡ 2000
unfolding payload
length-payload = length-replicate {A = ℕ} 2000 7

two_shards : data_count_of payload ≡ 2
unfolding data_count_of
two_shards = omega (arith, length-payload)

abbrev frame : Frame
frame = record { annex_b = payload; is_idr = true; codec_id = 1; timestamp_ms = 33 }

one_parity : 1 ≡ actual_parity (data_count_of payload) 10
unfolding actual_parity parity_count
one_parity = ap (λ n. actual_parity n 10) (sym two_shards)

fits : IsSendable 7 1 frame
fits = record {
  some_data = omega (arith, length-payload);
  few_shards = omega (arith, two_shards);
  id_fits = omega arith;
  time_fits = omega arith;
}

code : 0 < 1 → IsCode sum_code (data_count_of payload) 1
code h = subst (λ n. IsCode sum_code n 1) (sym two_shards) sum_code-IsCode

sent : List (List ℕ)
sent = packets sum_code plain plain-IsAead 7 10 frame 1 one_parity fits code

sent_lem : frame_packets sum_code (some plain) 7 10 frame ≡ some sent
unfolding sent
sent_lem = frame_packets_lem sum_code plain plain-IsAead 7 10 frame 1 one_parity fits code

length-sent : length sent ≡ 3
unfolding sent
length-sent =
    length-packets sum_code plain plain-IsAead 7 10 frame 1 one_parity fits code
    ∙ omega (arith, two_shards)

abbrev sync : AvSync
sync = record { last_video_ts = 0; last_video_wall = none; gap_resume = false }

abbrev start : Receiver
start = record {
  video_frames = [];
  audio_frames = [];
  last_completed_frame_id = 0;
  has_received_first_frame = false;
  last_pli_at = none;
  last_prune = 0;
  av_sync = sync;
}

-- The parity shard comes, then a batch ends and is pruned after, then come the second data shard and
-- the parity shard again, and a batch ends; the first data shard is lost.
abbrev order : List Moment
order =
    packet 2 100_000_000
    ∷ batch_end 110_000_000
    ∷ packet 1 120_000_000
    ∷ packet 2 130_000_000
    ∷ batch_end 200_000_000
    ∷ []

not_stale : is_stale 7 start ≡ false
unfolding is_stale
not_stale = refl

absent : lookup 7 start.video_frames ≡ none
unfolding lookup
absent = refl

timely : All (IsTimely 3 100_000_000) order
unfolding IsTimely
timely = (
  (omega arith, omega arith),
  (omega arith, ((omega arith, omega arith), ((omega arith, omega arith), (omega arith, tt)))),
)

enough : 2 ≤ count_present (marked (replicate 3 false) order)
unfolding marked
enough = omega arith

frame_arrives_example :
    Delivers sum_code plain plain-IsAead 7 10 frame 1 one_parity fits code
      (run sum_code plain (map (input sent) order) start).1
frame_arrives_example =
    frame_arrives sum_code plain plain-IsAead 7 10 frame 1 one_parity fits code 100_000_000 sent
      order start sent_lem
      (subst (λ k. All (IsTimely k 100_000_000) order) (sym length-sent) timely)
      (subst (λ k. data_count_of payload ≤ count_present (marked (replicate k false) order))
        (sym length-sent)
        (subst (λ k. k ≤ count_present (marked (replicate 3 false) order)) (sym two_shards) enough))
      not_stale absent tt

abbrev inputs : List Input
inputs = arrives (1 ∷ 2 ∷ []) 5 ∷ batch_ends 200_000_000 ∷ []

step-Throttled_example :
    Throttled 200_000_000 none
      (step sum_code plain (batch_ends 200_000_000) start).0.last_pli_at
      (plis (step sum_code plain (batch_ends 200_000_000) start).1)
step-Throttled_example = step-Throttled sum_code plain (batch_ends 200_000_000) start

actual_parity_bounds_example :
    (actual_parity 40 10 ≡ 0)
    ⊎ ((2 ≤ 40)
        × (1 ≤ actual_parity 40 10)
        × (actual_parity 40 10 ≤ 127)
        × (40 + actual_parity 40 10 ≤ 255)
        × ((40 * 10 ≤ actual_parity 40 10 * 100) ⊎ (actual_parity 40 10 ≡ 127)))
actual_parity_bounds_example = actual_parity_bounds 40 10

-- The first `sendmmsg` fails, and so does the second packet sent alone.
abbrev sockets : Sockets
sockets = record { sendmmsg = λ start size. none; send_to = λ idx. ltb idx 1 }

abbrev sender : UdpSender
sender = record { frame_id = 7; cipher = some plain }

abbrev tuning : StreamTuning
tuning = record { bitrate_bps = 0; idr_fec_percent = 10; pframe_fec_percent = 5 }

idr_packets :
    frame_packets sum_code sender.cipher sender.frame_id (parity_percent frame.is_idr tuning) frame
    ≡ some sent
unfolding parity_percent
idr_packets = sent_lem

send_frame_sends_example :
    (k : ℕ) × ((send_frame sum_code sockets frame tuning sender).1.0 ≡ take k sent)
    × ((((send_frame sum_code sockets frame tuning sender).1.1 ≡ false)
          × ((send_frame sum_code sockets frame tuning sender).0 ≡ sender))
        ⊎ (((send_frame sum_code sockets frame tuning sender).1.1 ≡ true)
            × ((send_frame sum_code sockets frame tuning sender).1.0 ≡ sent)
            × ((send_frame sum_code sockets frame tuning sender).0
                ≡ record sender { frame_id = (sender.frame_id + 1) % 2 ^ 32 })))
send_frame_sends_example = send_frame_sends sum_code sockets frame tuning sender sent idr_packets
