-- ===== src/Edid/Timing.antt =====
-- What a reader of the display's description finds in it, by the layout of the E-EDID standard.
use screx_v.Prelude.{
  ℕ, ◌+◌, ◌-◌, ◌*◌, ◌/◌, ◌%◌, ◌≡◌, ◌^◌, ◌<◌, ◌∙◌, ap, refl, List, [], ◌∷◌, ◌++◌, length, drop,
  arith,
}
use screx_v.Bytes.{as_u16}
use screx_v.Edid.{
  h_blank, v_blank, pixel_clock_khz, identity, high_bits, timing, range_limits, body, wrapping_sum,
  checksum, generate_edid,
}

-- The first detailed timing: its clock in units of 10 kHz, its width and its height.
pub record DetailedTiming : Type 0 where
  pub clock : ℕ
  pub width : ℕ
  pub height : ℕ

unfoldable pub detailed_timing : List ℕ → DetailedTiming
detailed_timing (c0 ∷ c1 ∷ w0 ∷ wb ∷ w1 ∷ h0 ∷ hb ∷ h1 ∷ more) = record {
  clock = c1 * 256 + c0;
  width = w1 / 16 * 256 + w0;
  height = h1 / 16 * 256 + h0;
}
detailed_timing bytes = record { clock = 0; width = 0; height = 0 }

unfoldable pub total : List ℕ → ℕ
total [] = 0
total (b ∷ bs) = b + total bs

total-snoc : (bs : List ℕ) (b : ℕ) → total (bs ++ (b ∷ [])) ≡ total bs + b
unfolding total
total-snoc [] b = omega arith
total-snoc (x ∷ xs) b = rw (total-snoc xs b) (omega arith)

wrapping_sum-total : (bs : List ℕ) → wrapping_sum bs ≡ total bs % 256
unfolding total wrapping_sum
wrapping_sum-total [] = refl
wrapping_sum-total (b ∷ bs) = rw (wrapping_sum-total bs) (omega arith)

checksum-balances : (bs : List ℕ) → total (bs ++ (checksum bs ∷ [])) % 256 ≡ 0
unfolding checksum
checksum-balances bs =
    rw (total-snoc bs ((256 - wrapping_sum bs) % 256), wrapping_sum-total bs) (omega arith)

balances : (w h hz : ℕ) → total (generate_edid w h hz) % 256 ≡ 0
unfolding generate_edid
balances w h hz = checksum-balances (body w h hz)

two_bytes : (n : ℕ) → n / 256 * 256 + n % 256 ≡ n
two_bytes n = omega arith

-- The high bits hold four of the size, above four of the blank.
twelve_bits : (size blank : ℕ) → high_bits size blank / 16 * 256 + size % 256 ≡ size % 4096
unfolding high_bits
twelve_bits size blank = omega arith

timing_read :
    (w h hz : ℕ)
    → detailed_timing (drop 54 (generate_edid w h hz))
      ≡ record { clock = pixel_clock_khz w h hz / 10 % 65536; width = w % 4096; height = h % 4096 }
unfolding generate_edid body identity timing detailed_timing
timing_read w h hz = λ i. record {
  clock = two_bytes (as_u16 (pixel_clock_khz w h hz / 10)) i;
  width = twelve_bits w h_blank i;
  height = twelve_bits h v_blank i;
}

length-generate_edid : (w h hz : ℕ) → length (generate_edid w h hz) ≡ 128
unfolding generate_edid body identity timing range_limits
length-generate_edid w h hz = refl

-- The clock that the sizes, their blanks and the rate ask for, in kHz.
abbrev pub asked_clock : (w h hz : ℕ) → ℕ
asked_clock w h hz = (w + 80) * (h + 47) * hz / 1000

pixel_clock_khz-asked :
    (w h hz : ℕ)
    → w + 80 < 2 ^ 32
    → h + 47 < 2 ^ 32
    → (w + 80) * (h + 47) * hz < 2 ^ 64
    → pixel_clock_khz w h hz ≡ asked_clock w h hz
unfolding pixel_clock_khz
pixel_clock_khz-asked w h hz fw fh fc =
    rw (kept32 (w + 80) fw, kept32 (h + 47) fh, kept64 ((w + 80) * (h + 47) * hz) fc) refl
  where
    kept32 : (n : ℕ) → n < 2 ^ 32 → n % 2 ^ 32 ≡ n
    kept32 n h = omega arith

    kept64 : (n : ℕ) → n < 2 ^ 64 → n % 2 ^ 64 ≡ n
    kept64 n h = omega arith

-- What generate_edid gives has 128 bytes whose total is a multiple of 256, and its detailed timing,
-- read by the layout of the standard, has the display's width and height, each modulo 4096, and the
-- clock in units of 10 kHz that the sizes, their blanks and the rate ask for, modulo 65536. The
-- sizes with their blanks fit 32 bits, and their product with the rate fits 64 bits.
pub generate_edid_reads :
    (w h hz : ℕ)
    → w + 80 < 2 ^ 32
    → h + 47 < 2 ^ 32
    → (w + 80) * (h + 47) * hz < 2 ^ 64
    → (length (generate_edid w h hz) ≡ 128)
      × (total (generate_edid w h hz) % 256 ≡ 0)
      × (detailed_timing (drop 54 (generate_edid w h hz))
          ≡ record { clock = asked_clock w h hz / 10 % 65536; width = w % 4096; height = h % 4096 })
generate_edid_reads w h hz fw fh fc = (
  length-generate_edid w h hz,
  balances w h hz,
  timing_read w h hz
      ∙ ap (λ k. record { clock = k / 10 % 65536; width = w % 4096; height = h % 4096 })
          (pixel_clock_khz-asked w h hz fw fh fc),
)
