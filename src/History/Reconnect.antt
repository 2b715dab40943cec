-- ===== src/History/Reconnect.antt =====
-- A recent connection, and the address that the client makes of it and reads again.
use screx_v.Prelude.{
  ℕ, ◌<◌, ◌≡◌, ◌≢◌, refl, true, false, none, some, List, [], ◌∷◌, ◌++◌, ◌==◌, if◌then◌else◌, arith,
  Bool-cases, inl, inr,
}
use screx_v.Text.{contains, strip_prefix, rsplit_once, decimal}
use screx_v.Text.Splits.{or_false, rsplit_once-none, rsplit_once-append}
use screx_v.Text.Numbers.{decimal-contains, parse-decimal}
use screx_v.History.{endpoint_key}
use screx_v.History.Endpoint.{
  default_port, with_port, plain_host, closing_bracket, host_and_port, parse_host_port,
  connect_recent,
}

rsplit_once-decimal :
    (host : List ℕ) (port : ℕ)
    → rsplit_once 58 (endpoint_key host port) ≡ some (host, decimal 5 port)
unfolding endpoint_key
rsplit_once-decimal host port =
    rsplit_once-append 58 host (decimal 5 port) (decimal-contains 58 5 port (inr (omega arith)))

strip_prefix-host :
    (host rest : List ℕ) → contains 91 host ≡ false → strip_prefix 91 (host ++ (58 ∷ rest)) ≡ none
unfolding strip_prefix contains
strip_prefix-host [] rest h = refl
strip_prefix-host (x ∷ xs) rest h = rw (or_false (x == 91) (contains 91 xs) h).0 refl

strip_prefix-key :
    (host : List ℕ) (port : ℕ)
    → contains 91 host ≡ false
    → strip_prefix 91 (endpoint_key host port) ≡ none
unfolding endpoint_key
strip_prefix-key host port h = strip_prefix-host host (decimal 5 port) h

strip_prefix-plain : (host : List ℕ) → contains 91 host ≡ false → strip_prefix 91 host ≡ none
unfolding strip_prefix contains
strip_prefix-plain [] h = refl
strip_prefix-plain (x ∷ xs) h = rw (or_false (x == 91) (contains 91 xs) h).0 refl

connect_recent-key :
    (host : List ℕ) (port : ℕ) → port ≢ 42069 → connect_recent host port ≡ endpoint_key host port
unfolding connect_recent
connect_recent-key host port other = rw (not_same port 42069 other) refl
  where
    not_same : (a b : ℕ) → a ≢ b → (a == b) ≡ false
    not_same a b h = ground arith

parse_host_port-key :
    (host : List ℕ) (port : ℕ)
    → contains 91 host ≡ false
    → parse_host_port (endpoint_key host port)
      ≡ plain_host (endpoint_key host port) (some (host, decimal 5 port))
unfolding parse_host_port closing_bracket host_and_port
parse_host_port-key host port h =
    rw (strip_prefix-key host port h, rsplit_once-decimal host port) refl

-- The port that is left out of the address comes back as the default one.
default_port_read :
    (host : List ℕ)
    → contains 58 host ≡ false
    → contains 91 host ≡ false
    → parse_host_port host ≡ (host, default_port)
unfolding parse_host_port closing_bracket host_and_port plain_host
default_port_read host h b = rw (strip_prefix-plain host b, rsplit_once-none 58 host h) refl

port_read :
    (host : List ℕ) (port : ℕ)
    → contains 58 host ≡ false
    → contains 91 host ≡ false
    → port < 65536
    → parse_host_port (endpoint_key host port) ≡ (host, port)
unfolding plain_host with_port
port_read host port h b fits =
    rw (parse_host_port-key host port b, h, parse-decimal 65536 4 port (omega arith) fits) refl

-- A recent connection whose host has no colon and no opening bracket, and whose port is a 16-bit
-- one, is connected to at the host and the port that were stored, since the client reads back the
-- address that it makes of them, except that port 42069 comes back as port 9000.
pub reconnects :
    (host : List ℕ) (port : ℕ)
    → contains 58 host ≡ false
    → contains 91 host ≡ false
    → port < 65536
    → parse_host_port (connect_recent host port) ≡ (host, if port == 42069 then 9000 else port)
unfolding connect_recent
reconnects host port h b fits = elim (Bool-cases (port == 42069)) [
  | inl e ↦ rw e (default_port_read host h b)
  | inr e ↦ rw e (port_read host port h b fits)
]

-- A recent connection whose host is an IPv6 address, with a colon and no bracket, and whose port is
-- not 42069, is connected to at another host, the stored one with a colon and the port behind it,
-- and at port 9000, for every port.
pub ipv6_host_lost :
    (host : List ℕ) (port : ℕ)
    → contains 58 host ≡ true
    → contains 91 host ≡ false
    → port ≢ 42069
    → parse_host_port (connect_recent host port) ≡ (endpoint_key host port, 9000)
unfolding plain_host
ipv6_host_lost host port h b other =
    rw (connect_recent-key host port other, parse_host_port-key host port b, h) refl
