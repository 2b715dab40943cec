-- ===== src/Video/Sent.antt =====
-- The shards of a frame that UdpSender::send_frame sends, and what FrameAssembly makes of them.
use screx_v.Prelude.{
  ℕ, ◌+◌, ◌-◌, ◌*◌, ◌<◌, ◌≤◌, ◌≡◌, ◌∙◌, ap, sym, subst, Bool, true, false, ◌||◌, some, List, [],
  ◌++◌, length, get_or, arith, replicate, All-append, inl, inr, Bool-cases, if◌then◌else◌, ◌==◌,
  lt→ltb, not_ltb, length-append,
}
use mathlib.Core.List.{append-nil}
use screx_v.Video.{
  ReedSolomon, chunk_payload, data_count_of, data_shards, actual_payload_len, all_shards,
}
use screx_v.Video.Assembly.{FrameAssembly, all_present, reassemble}
use screx_v.Video.Shards.{count_present}
use screx_v.Video.Code.{AreShards, IsCode, not_all_present}
use screx_v.Video.Frames.{reassemble_present}
use screx_v.Video.Erasure.{reassemble_recovers, ds_count, ds_size}
use screx_v.Video.Filling.{HasMarked}

module _ (payload : List ℕ) (pc : ℕ) where
  abbrev pub dc : ℕ
  dc = data_count_of payload

  -- The zeros that stand behind a frame with parity whose last data shard was not there.
  abbrev pub pad : List Bool → List ℕ
  pad ps =
      if (pc == 0) || get_or ps (dc - 1) false
      then []
      else replicate (dc * chunk_payload - length payload) 0

full_present :
    (n : ℕ) (ps : List Bool) → length ps ≡ n → n ≤ count_present ps → all_present n ps ≡ true
full_present n ps e le = elim (Bool-cases (all_present n ps)) [
  | inl all ↦ all
  | inr some_missing ↦ absurd (omega (arith, not_all_present n ps some_missing (omega (arith, e))))
]

-- The shards of a frame, and what the assembly makes of them.
pub record Sent (rs : ReedSolomon) (payload : List ℕ) (id pc codec flags ts : ℕ) : Type 0 where
  pub shards : List (List ℕ)
  pub sized : AreShards shards
  pub counted : length shards ≡ data_count_of payload + pc
  pub coded : all_shards rs (data_count_of payload) pc payload ≡ some shards
  pub gives :
      (ps : List Bool) (a : FrameAssembly)
      → HasMarked id
          (data_count_of payload)
          pc
          codec
          flags
          ts
          shards
          (actual_payload_len payload (data_count_of payload))
          sized
          counted
          ps
          a
      → data_count_of payload ≤ count_present ps
      → reassemble rs a ≡ some (payload ++ pad payload pc ps)

module _ (rs : ReedSolomon) (payload : List ℕ) (id pc codec flags ts : ℕ)
    (some_data : 0 < length payload) where
  pub with_parity :
      0 < pc → IsCode rs (data_count_of payload) pc → Sent rs payload id pc codec flags ts
  unfolding all_shards
  with_parity some_parity code = record {
    shards = ds ++ code.parity_of ds;
    sized =
        All-append (λ s. length s ≡ chunk_payload) ds (code.parity_of ds) sizes
          (code.parity_size ds count sizes);
    counted =
        omega (arith, length-append ds (code.parity_of ds), count, code.parity_count ds count);
    coded = rw (lt→ltb 0 pc some_parity) (code.encodes ds count sizes);
    gives = λ ps a h enough.
        reassemble_recovers rs payload pc some_data some_parity code a h.holds
          (omega (arith, enough, h.holds.count, ap count_present h.marked))
        ∙ ap
            (λ b. some (
              payload
              ++ (if b
                  then []
                  else replicate (data_count_of payload * chunk_payload - length payload) 0)))
            (ap (λ qs. get_or qs (data_count_of payload - 1) false) h.marked
              ∙ ap (λ b. b || get_or ps (data_count_of payload - 1) false) {x = false}
                  (ground (arith, some_parity)));
  }
    where
      ds : List (List ℕ)
      ds = data_shards payload (data_count_of payload)

      count : length ds ≡ data_count_of payload
      count = ds_count payload

      sizes : AreShards ds
      sizes = ds_size payload

  pub without_parity : pc ≡ 0 → Sent rs payload id pc codec flags ts
  unfolding all_shards
  without_parity no_parity = record {
    shards = ds ++ [];
    sized = subst AreShards (sym (append-nil ds)) (ds_size payload);
    counted = omega (arith, length-append ds [], ds_count payload, no_parity);
    coded =
        rw (not_ltb {a = 0} {b = pc} (omega (arith, no_parity))) (ap some (sym (append-nil ds)));
    gives = λ ps a h enough.
        reassemble_present payload pc [] some_data (sym no_parity) a h.holds rs (
          full_present (data_count_of payload) a.present (omega (arith, h.holds.slots, no_parity))
            (omega (arith, enough, ap count_present h.marked)))
        ∙ ap some (sym (append-nil payload))
        ∙ ap
            (λ b. some (
              payload
              ++ (if b || get_or ps (data_count_of payload - 1) false
                  then []
                  else replicate (data_count_of payload * chunk_payload - length payload) 0)))
            {x = true} (ground (arith, no_parity));
  }
    where
      ds : List (List ℕ)
      ds = data_shards payload (data_count_of payload)
