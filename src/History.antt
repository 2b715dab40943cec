-- ===== src/History.antt =====
-- The stored state of the desktop client: AppStorage of client/desktop/src/backend.rs. A string is
-- its bytes; the file it is saved to is left out.
pub mod Normal
pub mod Runs
pub mod Keys
pub mod Endpoint
pub mod Reconnect
mod Tests
use screx_v.Prelude.{
  ℕ, ◌+◌, ◌-◌, ◌*◌, ◌/◌, ◌%◌, zero, suc, Bool, true, false, ◌&&◌, ◌||◌, not, Option, none, some,
  List, [], ◌∷◌, ◌++◌, length, take, ltb, leb, ◌==◌, if◌then◌else◌,
}
use screx_v.Text.{decimal}

unfoldable pub same_bytes : List ℕ → List ℕ → Bool
same_bytes [] [] = true
same_bytes [] (y ∷ ys) = false
same_bytes (x ∷ xs) [] = false
same_bytes (x ∷ xs) (y ∷ ys) = (x == y) && same_bytes xs ys

pub record RecentConnection : Type 0 where
  pub host : List ℕ
  pub port : ℕ
  pub name : List ℕ
  pub last_connected_at : ℕ
  pub pinned : Bool

-- The stream settings are not among the fields here.
pub record StoredState : Type 0 where
  pub device_id : Option (List ℕ)
  pub pairings : List (List ℕ × List ℕ)
  pub recent_connections : List RecentConnection

unfoldable pub default_state : StoredState
default_state = record { device_id = none; pairings = []; recent_connections = [] }

abbrev pub max_pinned : ℕ
max_pinned = 10

abbrev pub max_recent : ℕ
max_recent = 5

unfoldable pub is_at : (host : List ℕ) (port : ℕ) → RecentConnection → Bool
unfolding same_bytes
is_at host port c = same_bytes c.host host && (c.port == port)

-- The connections that are pinned, and the others.
unfoldable pub pinned_of : List RecentConnection → List RecentConnection
pinned_of [] = []
pinned_of (c ∷ cs) = let rest = pinned_of cs in if c.pinned then c ∷ rest else rest

unfoldable pub recent_of : List RecentConnection → List RecentConnection
recent_of [] = []
recent_of (c ∷ cs) = let rest = recent_of cs in if c.pinned then rest else c ∷ rest

unfoldable pub normalize_connections : List RecentConnection → List RecentConnection
unfolding pinned_of recent_of
normalize_connections cs = take max_pinned (pinned_of cs) ++ take max_recent (recent_of cs)

unfoldable pub find : (host : List ℕ) (port : ℕ) → List RecentConnection → Option RecentConnection
unfolding is_at
find host port [] = none
find host port (c ∷ cs) = if is_at host port c then some c else find host port cs

unfoldable pub is_pinned : Option RecentConnection → Bool
is_pinned none = false
is_pinned (some c) = c.pinned

-- The connections elsewhere.
unfoldable pub forget : (host : List ℕ) (port : ℕ) → List RecentConnection → List RecentConnection
unfolding is_at
forget host port [] = []
forget host port (c ∷ cs) =
    let rest = forget host port cs in if is_at host port c then rest else c ∷ rest

unfoldable pub remember_connection :
    (name host : List ℕ) (port now : ℕ) → List RecentConnection → List RecentConnection
unfolding normalize_connections find is_pinned forget
remember_connection name host port now cs = normalize_connections (
    record {
      host = host;
      port = port;
      name = name;
      last_connected_at = now;
      pinned = is_pinned (find host port cs);
    }
    ∷ forget host port cs)

-- The first connection there is pinned, or no longer.
unfoldable pub toggle_first :
    (host : List ℕ) (port : ℕ) → List RecentConnection → List RecentConnection
unfolding is_at
toggle_first host port [] = []
toggle_first host port (c ∷ cs) =
    let rest = toggle_first host port cs in
    if is_at host port c then record c { pinned = not c.pinned } ∷ cs else c ∷ rest

unfoldable pub toggle_pinned :
    (host : List ℕ) (port : ℕ) → List RecentConnection → List RecentConnection
unfolding toggle_first normalize_connections
toggle_pinned host port cs = normalize_connections (toggle_first host port cs)

unfoldable pub update_connection_name :
    (host : List ℕ) (port : ℕ) (name : List ℕ) → List RecentConnection → List RecentConnection
unfolding is_at
update_connection_name host port name [] = []
update_connection_name host port name (c ∷ cs) =
    let rest = update_connection_name host port name cs in
    (if is_at host port c then record c { name = name } else c) ∷ rest

unfoldable pub clear_recent_connections : List RecentConnection → List RecentConnection
unfolding pinned_of
clear_recent_connections cs = pinned_of cs

-- `format!("{host}:{port}")`.
unfoldable pub endpoint_key : (host : List ℕ) (port : ℕ) → List ℕ
unfolding decimal
endpoint_key host port = host ++ 58 ∷ decimal 5 port

unfoldable pub remove_pairing : (key : List ℕ) → List (List ℕ × List ℕ) → List (List ℕ × List ℕ)
unfolding same_bytes
remove_pairing key [] = []
remove_pairing key ((k, v) ∷ entries) =
    let rest = remove_pairing key entries in if same_bytes k key then rest else (k, v) ∷ rest

unfoldable pub get_pairing : (key : List ℕ) → List (List ℕ × List ℕ) → Option (List ℕ)
unfolding same_bytes
get_pairing key [] = none
get_pairing key ((k, v) ∷ entries) = if same_bytes k key then some v else get_pairing key entries

-- The connection goes, and the pairing key with it.
unfoldable pub delete_connection : (host : List ℕ) (port : ℕ) → StoredState → StoredState
unfolding forget endpoint_key remove_pairing
delete_connection host port s = record s {
  recent_connections = forget host port s.recent_connections;
  pairings = remove_pairing (endpoint_key host port) s.pairings;
}

unfoldable pub hex_digit : ℕ → ℕ
hex_digit d = if ltb d 10 then 48 + d else 87 + d

-- Two lower-case digits for each byte.
unfoldable pub encode_hex : List ℕ → List ℕ
unfolding hex_digit
encode_hex [] = []
encode_hex (b ∷ bs) = hex_digit (b / 16) ∷ hex_digit (b % 16) ∷ encode_hex bs

unfoldable pub set_pairing_key : (endpoint key : List ℕ) → StoredState → StoredState
unfolding encode_hex remove_pairing
set_pairing_key endpoint key s = record s {
  pairings = (endpoint, encode_hex key) ∷ remove_pairing endpoint s.pairings;
}

unfoldable pub digit_of_hex : ℕ → Option ℕ
digit_of_hex c =
    if leb 48 c && leb c 57
    then some (c - 48)
    else if leb 97 c && leb c 102
    then some (c - 87)
    else if leb 65 c && leb c 70
    then some (c - 55)
    else none

unfoldable pub two_digits : Option ℕ → Option ℕ → Option ℕ
two_digits (some a) (some b) = some (a * 16 + b)
two_digits _ _ = none

-- `u8::from_str_radix(pair, 16)` on two bytes; the first may be a plus sign.
unfoldable pub byte_of_hex : (a b : ℕ) → Option ℕ
unfolding digit_of_hex two_digits
byte_of_hex a b = if a == 43 then digit_of_hex b else two_digits (digit_of_hex a) (digit_of_hex b)

unfoldable pub cons_byte : Option ℕ → Option (List ℕ) → Option (List ℕ)
cons_byte (some b) (some bs) = some (b ∷ bs)
cons_byte _ _ = none

unfoldable pub decode_pairs : List ℕ → Option (List ℕ)
unfolding byte_of_hex cons_byte
decode_pairs [] = some []
decode_pairs (a ∷ []) = none
decode_pairs (a ∷ b ∷ rest) = cons_byte (byte_of_hex a b) (decode_pairs rest)

unfoldable pub decode_hex_32 : List ℕ → Option (List ℕ)
unfolding decode_pairs
decode_hex_32 hex = if length hex == 64 then decode_pairs hex else none

unfoldable pub decoded_key : Option (List ℕ) → Option (List ℕ)
unfolding decode_hex_32
decoded_key none = none
decoded_key (some value) = decode_hex_32 value

unfoldable pub get_pairing_key : (endpoint : List ℕ) → StoredState → Option (List ℕ)
unfolding get_pairing decoded_key
get_pairing_key endpoint s = decoded_key (get_pairing endpoint s.pairings)
