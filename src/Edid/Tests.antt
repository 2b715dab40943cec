-- ===== src/Edid/Tests.antt =====
-- The display's description at 3840x2160.
use screx_v.Prelude.{◌/◌, ◌%◌, ◌≡◌, length, drop, arith}
use screx_v.Edid.{generate_edid}
use screx_v.Edid.Timing.{detailed_timing, asked_clock, total, generate_edid_reads}

generate_edid_reads_example :
    (length (generate_edid 3840 2160 60) ≡ 128)
    × (total (generate_edid 3840 2160 60) % 256 ≡ 0)
    × (detailed_timing (drop 54 (generate_edid 3840 2160 60))
        ≡ record { clock = asked_clock 3840 2160 60 / 10 % 65536; width = 3840; height = 2160 })
generate_edid_reads_example =
    generate_edid_reads 3840 2160 60 (omega arith) (omega arith) (omega arith)
