-- ===== src/Video/Recovery.antt =====
-- FrameAssembly::reassemble on the shards of one frame.
use screx_v.Prelude.{
  ℕ, ◌+◌, ◌-◌, ◌*◌, ◌<◌, ◌≤◌, ◌≡◌, ◌∙◌, ap, ap₂, sym, refl, zero, suc, min, List, [], ◌∷◌, ◌++◌,
  length, take, drop, arith, replicate, tabulate, tabulate-ext, take_all, length-replicate,
  take-append_length, length-append, length-take, length-drop, take-append-drop, concat, drop-drop,
  take-min, lt→ltb,
}
use mathlib.Core.List.{append-nil, append_assoc}
use screx_v.Video.{chunk_payload, data_count_of, data_shard}
use screx_v.Video.Assembly.{cut}

-- The part of a payload that a packet carries.
unfoldable pub chunk : List ℕ → ℕ → List ℕ
chunk payload i = take chunk_payload (drop (i * chunk_payload) payload)

concat-pieces :
    (c n : ℕ) (xs : List ℕ)
    → length xs ≤ n * c
    → concat (tabulate n (λ i. take c (drop (i * c) xs))) ≡ xs
concat-pieces c zero [] h = refl
concat-pieces c zero (x ∷ xs) h = absurd (omega arith)
concat-pieces c (suc n) xs h =
    ap₂ (λ (x : List ℕ) ys. x ++ concat ys) (ap (λ k. take c (drop k xs)) {y = 0} (omega arith))
      (tabulate-ext n (λ i. take c (drop (suc i * c) xs)) (λ i. take c (drop (i * c) (drop c xs)))
        (λ i lt. ap (take c) (ap (λ k. drop k xs) (omega arith) ∙ sym (drop-drop (i * c) c xs))))
    ∙ ap (λ ys. take c xs ++ ys)
        (concat-pieces c n (drop c xs) (omega (arith, h, length-drop c xs)))
    ∙ take-append-drop c xs

pub concat-chunk :
    (n : ℕ) (payload : List ℕ)
    → length payload ≤ n * chunk_payload
    → concat (tabulate n (chunk payload)) ≡ payload
unfolding chunk
concat-chunk n payload h = concat-pieces chunk_payload n payload h

pub concat-append : (xss yss : List (List ℕ)) → concat (xss ++ yss) ≡ concat xss ++ concat yss
concat-append [] yss = refl
concat-append (xs ∷ xss) yss =
    ap (λ (ys : List ℕ). xs ++ ys) (concat-append xss yss)
    ∙ sym (append_assoc xs (concat xss) (concat yss))

cut_zero : (shard : List ℕ) → cut 0 shard ≡ shard
unfolding cut
cut_zero shard = take_all (min (length shard) (length shard)) shard (omega arith)

-- A length that is stated cuts the padding.
cut_padded : (xs : List ℕ) (n k : ℕ) → 0 < n → length xs ≡ n → cut n (xs ++ replicate k 0) ≡ xs
unfolding cut
cut_padded xs n k p e = rw (lt→ltb 0 n p) (
    ap (λ m. take m (xs ++ replicate k 0)) (omega (arith, e, length-append xs (replicate k 0)))
    ∙ take-append_length n xs (replicate k 0) e)

module _ (payload : List ℕ) where
  -- The length that the packet of a data shard states.
  abbrev pub chunk_len : ℕ → ℕ
  chunk_len i = min (i * chunk_payload + chunk_payload) (length payload) - i * chunk_payload

  length-chunk : (i : ℕ) → length (chunk payload i) ≡ chunk_len i
  unfolding chunk
  length-chunk i = omega (
    arith,
    length-take chunk_payload (drop (i * chunk_payload) payload),
    length-drop (i * chunk_payload) payload,
  )

  data_shard_lem :
      (i : ℕ) → data_shard payload i ≡ chunk payload i ++ replicate (chunk_payload - chunk_len i) 0
  unfolding data_shard chunk
  data_shard_lem i =
      ap (λ (xs : List ℕ). xs ++ replicate (chunk_payload - chunk_len i) 0)
        (ap (λ n. take n (drop (i * chunk_payload) payload))
            (omega (arith, length-drop (i * chunk_payload) payload))
          ∙ take-min chunk_payload (drop (i * chunk_payload) payload))

  pub cut-chunk :
      (i : ℕ)
      → i < data_count_of payload
      → cut (chunk_len i) (data_shard payload i) ≡ chunk payload i
  unfolding data_count_of
  cut-chunk i lt =
      ap (cut (chunk_len i)) (data_shard_lem i)
      ∙ cut_padded (chunk payload i) (chunk_len i) (chunk_payload - chunk_len i) (omega arith)
          (length-chunk i)

  pub cut_full :
      (i : ℕ) → suc i < data_count_of payload → cut 0 (data_shard payload i) ≡ chunk payload i
  unfolding data_count_of
  cut_full i lt =
      cut_zero (data_shard payload i)
      ∙ data_shard_lem i
      ∙ ap (λ k. chunk payload i ++ replicate k 0) {y = 0} (omega arith)
      ∙ append-nil (chunk payload i)

  pub cut_last :
      (i : ℕ)
      → suc i ≡ data_count_of payload
      → cut 0 (data_shard payload i)
        ≡ chunk payload i ++ replicate (data_count_of payload * chunk_payload - length payload) 0
  unfolding data_count_of
  cut_last i e =
      cut_zero (data_shard payload i)
      ∙ data_shard_lem i
      ∙ ap (λ k. chunk payload i ++ replicate k 0) (omega (arith, e))

  pub length-data_shard :
      (i : ℕ) → i < data_count_of payload → length (data_shard payload i) ≡ chunk_payload
  unfolding data_count_of
  length-data_shard i lt =
      ap length (data_shard_lem i)
      ∙ length-append (chunk payload i) (replicate (chunk_payload - chunk_len i) 0)
      ∙ omega (arith, length-chunk i, length-replicate {A = ℕ} (chunk_payload - chunk_len i) 0)
