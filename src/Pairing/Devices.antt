-- ===== src/Pairing/Devices.antt =====
-- PairingState of daemon/src/pairing.rs: the paired devices, their keys in hex digits, the daemon's
-- own identifier, and what a pairing under way leaves there. Strings are their bytes. `save`, which
-- writes the table to a file after each change, is left out, and so is the file's JSON.
use screx_v.Prelude.{
  ℕ, ◌+◌, ◌/◌, ◌%◌, zero, suc, Bool, true, false, ◌&&◌, ◌||◌, Option, none, some, List, [], ◌∷◌,
  ◌++◌, length, leb, ◌==◌, if◌then◌else◌,
}
use screx_v.Bytes.{from_be32}
use screx_v.History.{same_bytes, encode_hex, decode_pairs}

pub record PairedDevice : Type 0 where
  pub pairing_key : List ℕ
  pub name : List ℕ
  pub paired_at : List ℕ

pub record PendingPairing : Type 0 where
  pub pin : List ℕ
  pub device_id : List ℕ
  pub ecdh_secret : List ℕ

-- `pairing_prompt`, the PIN that the daemon's window shows with the client's IP, is a field of
-- SharedState in the source.
pub record PairingState : Type 0 where
  pub paired_devices : List (List ℕ × PairedDevice)
  pub daemon_device_id : List ℕ
  pub pending_pin : Option PendingPairing
  pub pairing_prompt : Option (List ℕ × List ℕ)

unfoldable pub hex_decode : List ℕ → Option (List ℕ)
unfolding decode_pairs
hex_decode hex = if length hex % 2 == 0 then decode_pairs hex else none

-- `HashMap::get`, `remove` and `insert`.
unfoldable pub find_device : (id : List ℕ) → List (List ℕ × PairedDevice) → Option PairedDevice
unfolding same_bytes
find_device id [] = none
find_device id ((k, dev) ∷ devices) = if same_bytes k id then some dev else find_device id devices

unfoldable pub without_device :
    (id : List ℕ) → List (List ℕ × PairedDevice) → List (List ℕ × PairedDevice)
unfolding same_bytes
without_device id [] = []
without_device id ((k, dev) ∷ devices) =
    let rest = without_device id devices in if same_bytes k id then rest else (k, dev) ∷ rest

unfoldable pub is_present : Option PairedDevice → Bool
is_present none = false
is_present (some dev) = true

unfoldable pub is_paired : (id : List ℕ) → PairingState → Bool
unfolding find_device is_present
is_paired id ps = is_present (find_device id ps.paired_devices)

unfoldable pub of_length : ℕ → Option (List ℕ) → Option (List ℕ)
of_length n none = none
of_length n (some bytes) = if length bytes == n then some bytes else none

unfoldable pub key_of_device : Option PairedDevice → Option (List ℕ)
unfolding of_length hex_decode
key_of_device none = none
key_of_device (some dev) = of_length 32 (hex_decode dev.pairing_key)

unfoldable pub get_pairing_key : (id : List ℕ) → PairingState → Option (List ℕ)
unfolding find_device key_of_device
get_pairing_key id ps = key_of_device (find_device id ps.paired_devices)

-- `now` is what `chrono_now` gives.
unfoldable pub store_device : (device_id key name now : List ℕ) → PairingState → PairingState
unfolding without_device encode_hex
store_device device_id key name now ps = record ps {
  paired_devices =
      (encode_hex device_id, record { pairing_key = encode_hex key; name = name; paired_at = now })
      ∷ without_device (encode_hex device_id) ps.paired_devices;
}

unfoldable pub remove_device : (id : List ℕ) → PairingState → PairingState × Bool
unfolding is_paired without_device
remove_device id ps =
    if is_paired id ps
    then (record ps { paired_devices = without_device id ps.paired_devices }, true)
    else (ps, false)

unfoldable pub remove_all : PairingState → PairingState × ℕ
remove_all ps = (record ps { paired_devices = [] }, length ps.paired_devices)

unfoldable pub list_devices : List (List ℕ × PairedDevice) → List (List ℕ × List ℕ × List ℕ)
list_devices [] = []
list_devices ((id, dev) ∷ devices) = (id, dev.name, dev.paired_at) ∷ list_devices devices

-- `screx unpair`: with `--all`, with an identifier, and with neither, which changes nothing.
pub data UnpairArgument : Type 0 where
  every_device : UnpairArgument
  one_device : List ℕ → UnpairArgument
  no_argument : UnpairArgument

unfoldable pub run_unpair : UnpairArgument → PairingState → PairingState
unfolding remove_all remove_device
run_unpair every_device ps = (remove_all ps).0
run_unpair (one_device id) ps = (remove_device id ps).0
run_unpair no_argument ps = ps

-- ASCII white space, which `trim` takes off at both ends.
unfoldable pub is_space : ℕ → Bool
is_space c = (leb 9 c && leb c 13) || (c == 32)

unfoldable pub trim_start : List ℕ → List ℕ
unfolding is_space
trim_start [] = []
trim_start (c ∷ cs) = if is_space c then trim_start cs else c ∷ cs

unfoldable pub snoc_unless_space : ℕ → List ℕ → List ℕ
unfolding is_space
snoc_unless_space c [] = if is_space c then [] else c ∷ []
snoc_unless_space c (x ∷ xs) = c ∷ x ∷ xs

unfoldable pub trim_end : List ℕ → List ℕ
unfolding snoc_unless_space
trim_end [] = []
trim_end (c ∷ cs) = snoc_unless_space c (trim_end cs)

-- The identifier in the file, when it holds one.
unfoldable pub id_of_file : Option (List ℕ) → Option (List ℕ)
unfolding hex_decode of_length trim_start trim_end
id_of_file none = none
id_of_file (some text) =
    let hex = trim_start (trim_end text) in
    if length hex == 32 then of_length 16 (hex_decode hex) else none

unfoldable pub or_fresh : Option (List ℕ) → Option (List ℕ) → List ℕ → List ℕ × Option (List ℕ)
unfolding encode_hex
or_fresh (some id) file fresh = (id, file)
or_fresh none file fresh = (fresh, some (encode_hex fresh))

-- The daemon's identifier, and the file afterwards: what is there already, or 16 new bytes.
unfoldable pub load_or_create_daemon_id :
    (file : Option (List ℕ)) (fresh : List ℕ) → List ℕ × Option (List ℕ)
unfolding or_fresh id_of_file
load_or_create_daemon_id file fresh = or_fresh (id_of_file file) file fresh

-- Six decimal digits, with leading zeros.
unfoldable pub padded : (digits n : ℕ) → List ℕ
padded zero n = []
padded (suc digits) n = padded digits (n / 10) ++ (48 + n % 10) ∷ []

unfoldable pub generate_pin : (a b c d : ℕ) → List ℕ
unfolding padded from_be32
generate_pin a b c d = padded 6 (from_be32 a b c d % 1000000)
