-- ===== src/Video/Shards.antt =====
-- A FrameAssembly that holds shards of one frame.
use screx_v.Prelude.{
  ℕ, ◌+◌, ◌*◌, ◌<◌, ◌≤◌, ◌≡◌, ◌≢◌, ◌∙◌, ap, sym, refl, subst, zero, suc, min, Bool, true, false,
  List, [], ◌∷◌, length, take, get_or, arith, replicate, set, tabulate, tabulate-ext,
  tabulate-get_or, copy_at, length-copy_at, copy_at_before, copy_at_inside, copy_at_after,
  slice_cells, take_all, length-set, length-replicate, get_or-set_self, get_or-set_ne,
  get_or-replicate, lt_or_le, eq_or_ne, not_leb, inl, inr, Bool-cases,
}
use screx_v.Video.{chunk_payload}
use screx_v.Camera.Steps.{true_ne_false}
use screx_v.Video.Assembly.{FrameAssembly, new, add_chunk, place_chunk, shard_at}

module _ (buf shard : List ℕ) (i : ℕ) (whole : length shard ≡ chunk_payload)
    (fits : i * chunk_payload + chunk_payload ≤ length buf) where
  abbrev pub written : List ℕ
  written = copy_at (i * chunk_payload) shard buf

  pub shard_at_self : shard_at written i ≡ shard
  unfolding shard_at
  shard_at_self =
      slice_cells (i * chunk_payload) chunk_payload written 0 (
        omega (
          arith,
          fits,
          whole,
          length-copy_at (i * chunk_payload) shard buf (omega (arith, fits, whole)),
        ))
      ∙ tabulate-ext chunk_payload (λ j. get_or written (i * chunk_payload + j) 0)
          (λ j. get_or shard j 0)
          (λ j lt.
            copy_at_inside (i * chunk_payload) shard buf (omega (arith, fits, whole)) j 0
              (omega (arith, whole)))
      ∙ ap (λ n. tabulate n (λ j. get_or shard j 0)) (sym whole)
      ∙ tabulate-get_or shard 0

  pub shard_at_other :
      (k : ℕ)
      → k * chunk_payload + chunk_payload ≤ length buf
      → i ≢ k
      → shard_at written k ≡ shard_at buf k
  unfolding shard_at
  shard_at_other k inside ne =
      slice_cells (k * chunk_payload) chunk_payload written 0 (
        omega (
          arith,
          inside,
          length-copy_at (i * chunk_payload) shard buf (omega (arith, fits, whole)),
        ))
      ∙ tabulate-ext chunk_payload (λ j. get_or written (k * chunk_payload + j) 0)
          (λ j. get_or buf (k * chunk_payload + j) 0) same
      ∙ sym (slice_cells (k * chunk_payload) chunk_payload buf 0 inside)
    where
      same :
          (j : ℕ)
          → j < chunk_payload
          → get_or written (k * chunk_payload + j) 0 ≡ get_or buf (k * chunk_payload + j) 0
      same j lt = elim (lt_or_le k i) [
        | inl before ↦
            copy_at_before (i * chunk_payload) shard buf (omega (arith, fits, whole))
              (k * chunk_payload + j) 0 (omega arith)
        | inr behind ↦
            copy_at_after (i * chunk_payload) shard buf (omega (arith, fits, whole))
              (k * chunk_payload + j) 0 (omega (arith, whole, ne))
      ]

-- How many slots are filled.
abbrev pub count_present : List Bool → ℕ
count_present [] = 0
count_present (true ∷ ps) = suc (count_present ps)
count_present (false ∷ ps) = count_present ps

pub count_present-replicate : (n : ℕ) → count_present (replicate n false) ≡ 0
count_present-replicate zero = refl
count_present-replicate (suc n) = count_present-replicate n

pub count_present-set :
    (ps : List Bool) (i : ℕ)
    → i < length ps
    → get_or ps i false ≡ false
    → count_present (set ps i true) ≡ count_present ps + 1
count_present-set [] i h f = absurd (omega arith)
count_present-set (true ∷ ps) zero h f = absurd cc
count_present-set (false ∷ ps) zero h f = omega arith
count_present-set (true ∷ ps) (suc i) h f = omega (arith, count_present-set ps i (omega arith) f)
count_present-set (false ∷ ps) (suc i) h f = omega (arith, count_present-set ps i (omega arith) f)

-- The shards of one frame, each of 1400 bytes, and the lengths that their packets state.
module _ (dc pc : ℕ) (shards : List (List ℕ)) (lens : ℕ → ℕ) where
  pub record Holds (a : FrameAssembly) : Type 0 where
    pub data_total : a.total_data ≡ dc
    pub parity_total : a.total_parity ≡ pc
    pub slots : length a.present ≡ dc + pc
    pub lengths : length a.actual_lengths ≡ dc + pc
    pub room : length a.shard_buf ≡ (dc + pc) * chunk_payload
    pub count : a.received_count ≡ count_present a.present
    pub here :
        (i : ℕ)
        → get_or a.present i false ≡ true
        → (i < dc + pc)
          × (shard_at a.shard_buf i ≡ get_or shards i [])
          × (get_or a.actual_lengths i 0 ≡ lens i)
    pub missing : (i : ℕ) → get_or a.present i false ≡ false → get_or a.actual_lengths i 0 ≡ 0

  pub new-Holds : (codec flags ts now : ℕ) → Holds (new dc pc codec flags ts now)
  unfolding new
  new-Holds codec flags ts now = record {
    data_total = refl;
    parity_total = refl;
    slots = length-replicate (dc + pc) false;
    lengths = length-replicate {A = ℕ} (dc + pc) 0;
    room = length-replicate {A = ℕ} ((dc + pc) * chunk_payload) 0;
    count = sym (count_present-replicate (dc + pc));
    here = λ i h. absurd (true_ne_false (sym (get_or-replicate (dc + pc) i false) ∙ h));
    missing = λ i h. get_or-replicate (dc + pc) i 0;
  }

  module _ (a : FrameAssembly) (h : Holds a) (i : ℕ) (lt : i < dc + pc)
      (whole : length (get_or shards i []) ≡ chunk_payload) where
    abbrev shard : List ℕ
    shard = get_or shards i []

    room : (k : ℕ) → k < dc + pc → k * chunk_payload + chunk_payload ≤ length a.shard_buf
    room k l = omega (arith, h.room)

    buf : List ℕ
    buf = copy_at (i * chunk_payload) (take (min (length shard) chunk_payload) shard) a.shard_buf

    buf_lem : buf ≡ written a.shard_buf shard i whole (room i lt)
    unfolding buf
    buf_lem =
        ap (λ s. copy_at (i * chunk_payload) s a.shard_buf)
          (take_all (min (length shard) chunk_payload) shard (omega (arith, whole)))

    filled_here :
        (k : ℕ)
        → get_or (set a.present i true) k false ≡ true
        → (k < dc + pc)
          × (shard_at buf k ≡ get_or shards k [])
          × (get_or (set a.actual_lengths i (lens i)) k 0 ≡ lens k)
    filled_here k p = elim (eq_or_ne i k) [
      | inl e ↦
          subst
            (λ k.
              (k < dc + pc)
              × (shard_at buf k ≡ get_or shards k [])
              × (get_or (set a.actual_lengths i (lens i)) k 0 ≡ lens k))
            e
            (
              lt,
              ap (λ b. shard_at b i) buf_lem ∙ shard_at_self a.shard_buf shard i whole (room i lt),
              get_or-set_self a.actual_lengths i (lens i) 0 (omega (arith, h.lengths)),
            )
      | inr ne ↦
          let was = h.here k (sym (get_or-set_ne a.present i k true false ne) ∙ p) in
          (
            was.0,
            ap (λ b. shard_at b k) buf_lem
                ∙ shard_at_other a.shard_buf shard i whole (room i lt) k (room k was.0) ne
                ∙ was.1,
            get_or-set_ne a.actual_lengths i k (lens i) 0 ne ∙ was.2,
          )
    ]

    still_missing :
        (k : ℕ)
        → get_or (set a.present i true) k false ≡ false
        → get_or (set a.actual_lengths i (lens i)) k 0 ≡ 0
    still_missing k m = elim (eq_or_ne i k) [
      | inl e ↦ absurd (
          true_ne_false (
            sym m
            ∙ ap (λ j. get_or (set a.present i true) j false) (sym e)
            ∙ get_or-set_self a.present i true false (omega (arith, h.slots))))
      | inr ne ↦
          get_or-set_ne a.actual_lengths i k (lens i) 0 ne
          ∙ h.missing k (sym (get_or-set_ne a.present i k true false ne) ∙ m)
    ]

    pub place_chunk-Holds :
        get_or a.present i false ≡ false → Holds (place_chunk i (get_or shards i []) (lens i) a)
    unfolding place_chunk buf
    place_chunk-Holds free = record {
      data_total = h.data_total;
      parity_total = h.parity_total;
      slots = length-set a.present i true ∙ h.slots;
      lengths = length-set a.actual_lengths i (lens i) ∙ h.lengths;
      room =
          ap length buf_lem
          ∙ length-copy_at (i * chunk_payload) shard a.shard_buf (omega (arith, room i lt, whole))
          ∙ h.room;
      count = omega (arith, h.count, count_present-set a.present i (omega (arith, h.slots)) free);
      here = filled_here;
      missing = still_missing;
    }

    -- A shard that is there already, or is new.
    pub add_chunk-Holds : Holds (add_chunk i (get_or shards i []) (lens i) a)
    unfolding add_chunk
    add_chunk-Holds =
        rw
          (not_leb {a = i} {b = a.total_data + a.total_parity}
            (omega (arith, h.data_total, h.parity_total)))
          (elim (Bool-cases (get_or a.present i false)) [
            | inl there ↦ rw there (record {
              data_total = h.data_total;
              parity_total = h.parity_total;
              slots = h.slots;
              lengths = h.lengths;
              room = h.room;
              count = h.count;
              here = h.here;
              missing = h.missing;
            })
            | inr free ↦ rw free (place_chunk-Holds free)
          ])
