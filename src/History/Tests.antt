-- ===== src/History/Tests.antt =====
-- Runs of the theorems on the stored state.
use screx_v.Prelude.{ℕ, ◌≡◌, refl, false, zero, suc, List, [], ◌∷◌, All, arith, replicate}
use screx_v.Bytes.{IsByte}
use screx_v.History.{default_state, same_bytes}
use screx_v.Text.{contains}
use screx_v.History.{endpoint_key}
use screx_v.History.Endpoint.{parse_host_port, connect_recent}
use screx_v.History.Reconnect.{reconnects, ipv6_host_lost}
use screx_v.History.Normal.{IsNormal}
use screx_v.History.Runs.{Op, remembers, toggles, deletes, renames, clears, run, run-IsNormal}

default-IsNormal : IsNormal default_state.recent_connections
unfolding default_state
default-IsNormal = record {
  pins = [];
  others = [];
  split = refl;
  pins_first = tt;
  others_last = tt;
  few_pins = omega arith;
  few_others = omega arith;
  once = λ host port. omega arith;
}

abbrev desk : List ℕ
desk = 100 ∷ 101 ∷ []

abbrev ops : List Op
ops =
    remembers (68 ∷ []) desk 9000 1000
    ∷ toggles desk 9000
    ∷ remembers (69 ∷ []) (102 ∷ []) 9000 2000
    ∷ renames desk 9000 (70 ∷ [])
    ∷ clears
    ∷ deletes desk 9000
    ∷ []

run-IsNormal_example : IsNormal (run ops default_state).recent_connections
run-IsNormal_example = run-IsNormal ops default_state default-IsNormal

reconnects_example : parse_host_port (connect_recent desk 42069) ≡ (desk, 9000)
unfolding contains
reconnects_example = reconnects desk 42069 refl refl (omega arith)

-- The address ::1, whose saved port is 9000.
ipv6_host_lost_example :
    parse_host_port (connect_recent (58 ∷ 58 ∷ 49 ∷ []) 9000)
    ≡ (endpoint_key (58 ∷ 58 ∷ 49 ∷ []) 9000, 9000)
unfolding contains
ipv6_host_lost_example = ipv6_host_lost (58 ∷ 58 ∷ 49 ∷ []) 9000 refl refl (λ e. omega (arith, e))

abbrev key : List ℕ
key = replicate 32 171

elsewhere : same_bytes desk (102 ∷ []) ≡ false
unfolding same_bytes
elsewhere = refl

key_bytes : All IsByte key
key_bytes = bytes 32
  where
    bytes : (n : ℕ) → All IsByte (replicate n 171)
    bytes zero = tt
    bytes (suc n) = (omega arith, bytes n)
