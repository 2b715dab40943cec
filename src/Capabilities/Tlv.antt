-- ===== src/Capabilities/Tlv.antt =====
-- Tag-length-value entries: `push_tlv_entry` of daemon/src/stream_server.rs, and the loop by which
-- both parsers walk the entries.
use screx_v.Prelude.{
  ℕ, zero, suc, ◌/◌, ◌%◌, ◌^◌, ◌≡◌, refl, ◌∙◌, List, [], ◌∷◌, ◌++◌, arith, ltb, length, take, drop,
  All, Bool-cases, inl, inr, if◌then◌else◌, length-append, take-append_length, drop-append_length,
}
use mathlib.Core.List.{append_assoc}
use screx_v.Bytes.{be16, from_be16, from_be16-be16, IsU16}

pub record Entry : Type 0 where
  pub tag : ℕ
  pub value : List ℕ

abbrev pub entry_bytes : Entry → List ℕ
entry_bytes e = e.tag ∷ be16 (length e.value) ++ e.value

unfoldable pub push_tlv_entry : List ℕ → ℕ → List ℕ → List ℕ
push_tlv_entry msg tag value = msg ++ entry_bytes (record { tag = tag; value = value })

-- The bytes of several entries, one after the other.
unfoldable pub encode : List Entry → List ℕ
encode [] = []
encode (e ∷ es) = entry_bytes e ++ encode es

-- The parsers' loop: at most `n` entries are read from `rest`, the bytes from the offset on. A cut
-- entry ends the loop with what was read before it.
module _ {ℓ} {S : Type ℓ} (entry : ℕ → List ℕ → S → S) where
  unfoldable pub read_entries : ℕ → List ℕ → S → S
  read_entries zero rest s = s
  read_entries (suc n) (tag ∷ hi ∷ lo ∷ rest) s =
      let len = from_be16 hi lo in
      let more = read_entries n (drop len rest) (entry tag (take len rest) s) in
      if ltb (length rest) len then s else more
  read_entries (suc n) rest s = s

  unfoldable pub apply_entries : List Entry → S → S
  apply_entries [] s = s
  apply_entries (e ∷ es) s = apply_entries es (entry e.tag e.value s)

  -- One step of the loop on a whole entry.
  read_entries_step :
      (n : ℕ) (e : Entry) (rest : List ℕ) (s : S)
      → IsU16 (length e.value)
      → read_entries (suc n) (entry_bytes e ++ rest) s ≡ read_entries n rest (entry e.tag e.value s)
  unfolding read_entries
  read_entries_step n e rest s h =
      rw (written, take-append_length _ e.value rest refl, drop-append_length _ e.value rest refl)
        (ground (arith, length-append e.value rest))
    where
      written : from_be16 (length e.value / 2 ^ 8 % 2 ^ 8) (length e.value % 2 ^ 8) ≡ length e.value
      written = from_be16-be16 (length e.value) ∙ omega arith

  -- The loop over written entries applies each in turn, and looks at nothing behind them.
  pub read_entries-encode :
      (es : List Entry) (rest : List ℕ) (s : S)
      → All (λ e. IsU16 (length e.value)) es
      → read_entries (length es) (encode es ++ rest) s ≡ apply_entries es s
  unfolding encode apply_entries
  read_entries-encode [] rest s h = unfold read_entries in refl
  read_entries-encode (e ∷ es) rest s (he, hes) =
      rw (append_assoc e.value (encode es) rest)
        (read_entries_step (length es) e (encode es ++ rest) s he)
      ∙ read_entries-encode es rest (entry e.tag e.value s) hes

  pub apply_entries-append :
      (es fs : List Entry) (s : S)
      → apply_entries (es ++ fs) s ≡ apply_entries fs (apply_entries es s)
  unfolding apply_entries
  apply_entries-append [] fs s = refl
  apply_entries-append (e ∷ es) fs s = apply_entries-append es fs (entry e.tag e.value s)

  -- What each entry preserves, the loop preserves.
  pub read_entries-preserves {κ} :
      (P : S → Type κ)
      → ((tag : ℕ) (value : List ℕ) (s : S) → P s → P (entry tag value s))
      → (n : ℕ) (rest : List ℕ) (s : S) → P s
      → P (read_entries n rest s)
  unfolding read_entries
  read_entries-preserves P keep zero rest s h = h
  read_entries-preserves P keep (suc n) (tag ∷ hi ∷ lo ∷ rest) s h =
      let len = from_be16 hi lo in
      let next = entry tag (take len rest) s in
      elim (Bool-cases (ltb (length rest) len)) [
        | inl cut ↦ rw cut h
        | inr whole ↦
            rw whole
              (read_entries-preserves P keep n (drop len rest) next (keep tag (take len rest) s h))
      ]
  read_entries-preserves P keep (suc n) rest s h = h
