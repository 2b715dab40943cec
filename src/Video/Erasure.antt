-- ===== src/Video/Erasure.antt =====
-- FrameAssembly::reassemble with the erasure code.
use screx_v.Prelude.{
  ℕ, ◌+◌, ◌-◌, ◌*◌, ◌<◌, ◌≤◌, ◌≡◌, ◌∙◌, ap, ap₂, sym, true, false, Option, none, some, List, [],
  ◌++◌, length, get_or, arith, replicate, tabulate, tabulate-ext, length-tabulate, concat, inl, inr,
  ◌⊎◌, Bool-cases, ltb, if◌then◌else◌, ◌==◌, ◌||◌,
}
use mathlib.Core.List.{append-nil}
use screx_v.Camera.Frame.{filled, IsPart}
use screx_v.Video.{
  ReedSolomon, chunk_payload, data_count_of, data_shard, data_shards, actual_payload_len,
}
use screx_v.Video.Assembly.{
  FrameAssembly, cut, all_present, assemble_present_data, shard_at, shard_slot, join_all, recover,
  reassemble,
}
use screx_v.Video.Shards.{Holds, count_present}
use screx_v.Video.Code.{
  AreShards, IsCode, tabulate-AreShards, tabulate-IsPart, filled-tabulate, all_present_at,
  joined_lem,
}
use screx_v.Video.Recovery.{length-data_shard}
use screx_v.Video.Frames.{padding, piece_of, pieces, dc_bounds, length-shards, reassemble_present}

module _ (payload : List ℕ) where
  pub ds_count : length (data_shards payload (data_count_of payload)) ≡ data_count_of payload
  unfolding data_shards
  ds_count = length-tabulate (data_count_of payload) (data_shard payload)

  pub ds_size : AreShards (data_shards payload (data_count_of payload))
  unfolding data_shards
  ds_size =
      tabulate-AreShards (data_count_of payload) (data_shard payload)
        (λ i lt. length-data_shard payload i lt)

module _ (rs : ReedSolomon) (payload : List ℕ) (pc : ℕ) (some_data : 0 < length payload)
    (some_parity : 0 < pc) (code : IsCode rs (data_count_of payload) pc) where
  abbrev pub n : ℕ
  n = data_count_of payload

  abbrev pub ds : List (List ℕ)
  ds = data_shards payload n

  abbrev pub parity : List (List ℕ)
  parity = code.parity_of ds

  parity_len : length parity ≡ pc
  parity_len = code.parity_count ds (ds_count payload)

  module _ (a : FrameAssembly) (h : Holds n pc (ds ++ parity) (actual_payload_len payload n) a)
      (enough : n ≤ a.received_count) where
    slots : List (Option (List ℕ))
    slots = tabulate (n + pc) (shard_slot a)

    slots-IsPart : IsPart slots (ds ++ parity)
    unfolding slots shard_slot
    slots-IsPart =
        tabulate-IsPart (n + pc) (shard_slot a) (ds ++ parity)
          (omega (arith, length-shards payload pc parity some_data parity_len)) slot
      where
        slot :
            (i : ℕ)
            → i < n + pc
            → (shard_slot a i ≡ none) ⊎ (shard_slot a i ≡ some (get_or (ds ++ parity) i []))
        slot i lt = elim (Bool-cases (get_or a.present i false)) [
          | inl p ↦ inr (
              ap (λ b. if b then some (shard_at a.shard_buf i) else none) p
              ∙ ap some (h.here i p).1)
          | inr m ↦ inl (ap (λ b. if b then some (shard_at a.shard_buf i) else none) m)
        ]

    slots_filled : filled slots ≡ count_present a.present
    unfolding slots shard_slot
    slots_filled =
        ap (λ k. filled (tabulate k (shard_slot a))) (sym h.slots)
        ∙ filled-tabulate a.present (shard_at a.shard_buf)

    recovered : recover rs a ≡ some (payload ++ padding payload a)
    unfolding recover join_all piece_of slots
    recovered =
        ap₂
          (λ d p.
            join_all d a.actual_lengths (rs.reconstruct d p (tabulate (d + p) (shard_slot a))))
          h.data_total h.parity_total
        ∙ ap (join_all n a.actual_lengths) (
            code.reconstructs ds slots (ds_count payload) (ds_size payload) slots-IsPart
              (length-tabulate (n + pc) (shard_slot a))
              (omega (arith, enough, h.count, slots_filled)))
        ∙ joined_lem n 0 a.actual_lengths (ds ++ parity)
            (omega (arith, length-shards payload pc parity some_data parity_len))
        ∙ ap (λ (xs : List (List ℕ)). some (concat xs))
            (tabulate-ext n
              (λ j. cut (get_or a.actual_lengths (0 + j) 0) (get_or (ds ++ parity) (0 + j) []))
              (piece_of payload pc parity some_data parity_len a h)
              (λ j lt.
                ap (λ k. cut (get_or a.actual_lengths k 0) (get_or (ds ++ parity) k []))
                  (omega arith)))
        ∙ ap some (pieces payload pc parity some_data parity_len a h)

    guard : ((a.total_parity == 0) || ltb a.received_count a.total_data) ≡ false
    guard = ground (arith, h.data_total, h.parity_total, enough, some_parity)

    unpadded : all_present n a.present ≡ true → payload ≡ payload ++ padding payload a
    unpadded p =
        sym (append-nil payload)
        ∙ ap (λ b. payload ++ (if b then [] else replicate (n * chunk_payload - length payload) 0))
            (sym (
              all_present_at n a.present p (n - 1)
                (omega (arith, (dc_bounds payload pc parity some_data parity_len).0))))

    -- The shards are those of a frame with parity, and as many as there are data shards are there.
    pub reassemble_recovers : reassemble rs a ≡ some (payload ++ padding payload a)
    unfolding reassemble
    reassemble_recovers = elim (Bool-cases (all_present n a.present)) [
      | inl p ↦
          reassemble_present payload pc parity some_data parity_len a h rs p ∙ ap some (unpadded p)
      | inr m ↦
          ap (λ b. if b then some (assemble_present_data a) else with_code)
            (ap (λ k. all_present k a.present) h.data_total ∙ m)
          ∙ ap (λ b. if b then none else recover rs a) guard
          ∙ recovered
    ]
      where
        with_code : Option (List ℕ)
        with_code =
            if (a.total_parity == 0) || ltb a.received_count a.total_data
            then none
            else recover rs a
