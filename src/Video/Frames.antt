-- ===== src/Video/Frames.antt =====
-- FrameAssembly::reassemble on the shards that UdpSender::send_frame cuts a frame into.
use screx_v.Prelude.{
  ℕ, ◌+◌, ◌-◌, ◌*◌, ◌<◌, ◌≤◌, ◌≡◌, ◌∙◌, ap, ap₂, sym, suc, true, false, Option, none, some, List,
  [], ◌∷◌, ◌++◌, length, get_or, arith, replicate, tabulate, tabulate-ext, length-append,
  length-tabulate, concat, tabulate_add, inl, inr, Bool-cases, ltb, if◌then◌else◌, ◌==◌, ◌||◌,
  get_or-append_left, get_or-tabulate, lt→ltb,
}
use mathlib.Core.List.{append-nil, append_assoc}
use screx_v.Video.{
  ReedSolomon, chunk_payload, data_count_of, data_shard, data_shards, actual_payload_len,
}
use screx_v.Video.Assembly.{
  FrameAssembly, cut, all_present, present_piece, assemble_present_data, recover, reassemble,
}
use screx_v.Video.Shards.{Holds}
use screx_v.Video.Code.{all_present_at}
use screx_v.Video.Recovery.{
  chunk, chunk_len, concat-chunk, concat-append, cut-chunk, cut_full, cut_last,
}

-- The zeros behind a frame whose last data shard was lost.
abbrev pub padding : List ℕ → FrameAssembly → List ℕ
padding payload a =
    if get_or a.present (data_count_of payload - 1) false
    then []
    else replicate (data_count_of payload * chunk_payload - length payload) 0

concat-tabulate_last :
    (m : ℕ) (f : ℕ → List ℕ) → concat (tabulate (m + 1) f) ≡ concat (tabulate m f) ++ f m
concat-tabulate_last m f =
    ap concat (tabulate_add m 1 f)
    ∙ concat-append (tabulate m f) (f (m + 0) ∷ [])
    ∙ ap (λ (x : List ℕ). concat (tabulate m f) ++ x) (append-nil (f (m + 0)) ∙ ap f (omega arith))

module _ (payload : List ℕ) (pc : ℕ) (parity : List (List ℕ)) (some_data : 0 < length payload)
    (parity_count : length parity ≡ pc) where
  abbrev pub dc : ℕ
  dc = data_count_of payload

  abbrev pub shards : List (List ℕ)
  shards = data_shards payload dc ++ parity

  pub dc_bounds : (0 < dc) × (length payload ≤ dc * chunk_payload)
  unfolding data_count_of
  dc_bounds = (omega arith, omega arith)

  pub length-shards : length shards ≡ dc + pc
  unfolding data_shards
  length-shards = omega (
    arith,
    parity_count,
    length-append (data_shards payload dc) parity,
    length-tabulate dc (data_shard payload),
  )

  shard_lem : (i : ℕ) → i < dc → get_or shards i [] ≡ data_shard payload i
  unfolding data_shards
  shard_lem i lt =
      get_or-append_left (data_shards payload dc) parity i []
        (omega (arith, length-tabulate dc (data_shard payload)))
      ∙ get_or-tabulate dc i (data_shard payload) [] lt

  stated_len : (i : ℕ) → i < dc → actual_payload_len payload dc i ≡ chunk_len payload i
  unfolding actual_payload_len
  stated_len i lt = rw (lt→ltb i dc lt) (omega arith)

  module _ (a : FrameAssembly) (h : Holds dc pc shards (actual_payload_len payload dc) a) where
    present_lem :
        (i : ℕ)
        → i < dc
        → get_or a.present i false ≡ true
        → cut (get_or a.actual_lengths i 0) (get_or shards i []) ≡ chunk payload i
    present_lem i lt p =
        ap₂ cut ((h.here i p).2 ∙ stated_len i lt) (shard_lem i lt) ∙ cut-chunk payload i lt

    whole : length payload ≤ dc * chunk_payload
    whole = dc_bounds.1

    assembled : all_present dc a.present ≡ true → assemble_present_data a ≡ payload
    unfolding assemble_present_data present_piece
    assembled p =
        ap (λ n. concat (tabulate n (present_piece a))) h.data_total
        ∙ ap concat (tabulate-ext dc (present_piece a) (chunk payload) piece)
        ∙ concat-chunk dc payload whole
      where
        piece : (i : ℕ) → i < dc → present_piece a i ≡ chunk payload i
        piece i lt = rw (all_present_at dc a.present p i lt) (
            ap (cut (get_or a.actual_lengths i 0)) (h.here i (all_present_at dc a.present p i lt)).1
            ∙ present_lem i lt (all_present_at dc a.present p i lt))

    -- A frame with all its data shards is the payload.
    pub reassemble_present :
        (rs : ReedSolomon) → all_present dc a.present ≡ true → reassemble rs a ≡ some payload
    unfolding reassemble
    reassemble_present rs p =
        ap (λ b. if b then some (assemble_present_data a) else missing_some)
          (ap (λ n. all_present n a.present) h.data_total ∙ p)
        ∙ ap some (assembled p)
      where
        missing_some : Option (List ℕ)
        missing_some =
            if (a.total_parity == 0) || ltb a.received_count a.total_data
            then none
            else recover rs a

    unfoldable pub piece_of : ℕ → List ℕ
    piece_of i = cut (get_or a.actual_lengths i 0) (get_or shards i [])

    inner : (i : ℕ) → suc i < dc → piece_of i ≡ chunk payload i
    unfolding piece_of
    inner i lt = elim (Bool-cases (get_or a.present i false)) [
      | inl p ↦ present_lem i (omega arith) p
      | inr m ↦ ap₂ cut (h.missing i m) (shard_lem i (omega arith)) ∙ cut_full payload i lt
    ]

    last : (i : ℕ) → suc i ≡ dc → piece_of i ≡ chunk payload i ++ padding payload a
    unfolding piece_of
    last i e = elim (Bool-cases (get_or a.present i false)) [
      | inl p ↦
          present_lem i (omega arith) p
          ∙ sym (append-nil (chunk payload i))
          ∙ ap
              (λ b.
                chunk payload i
                ++ (if b then [] else replicate (dc * chunk_payload - length payload) 0))
              (sym p ∙ at i e)
      | inr m ↦
          ap₂ cut (h.missing i m) (shard_lem i (omega arith))
          ∙ cut_last payload i e
          ∙ ap
              (λ b.
                chunk payload i
                ++ (if b then [] else replicate (dc * chunk_payload - length payload) 0))
              (sym m ∙ at i e)
    ]
      where
        at : (i : ℕ) → suc i ≡ dc → get_or a.present i false ≡ get_or a.present (dc - 1) false
        at i e = ap (λ k. get_or a.present k false) (omega arith)

    pub pieces : concat (tabulate dc piece_of) ≡ payload ++ padding payload a
    pieces =
        ap (λ n. concat (tabulate n piece_of)) split
        ∙ concat-tabulate_last (dc - 1) piece_of
        ∙ ap₂ (λ (x y : List ℕ). x ++ y)
            (ap concat
              (tabulate-ext (dc - 1) piece_of (chunk payload) (λ i lt. inner i (omega arith))))
            (last (dc - 1) (omega (arith, dc_bounds.0)))
        ∙ sym (
            append_assoc (concat (tabulate (dc - 1) (chunk payload))) (chunk payload (dc - 1))
              (padding payload a))
        ∙ ap (λ (x : List ℕ). x ++ padding payload a)
            (sym (concat-tabulate_last (dc - 1) (chunk payload))
              ∙ ap (λ n. concat (tabulate n (chunk payload))) (sym split)
              ∙ concat-chunk dc payload whole)
      where
        split : dc ≡ dc - 1 + 1
        split = omega (arith, dc_bounds.0)
