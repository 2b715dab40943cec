-- ===== src/History/Endpoint.antt =====
-- How the client reads the address that it is given, parse_host_port of
-- client/desktop/src/backend.rs, and writes that of a recent connection, connect_recent of
-- client/desktop/src/app_state.rs. A string is its bytes; the trimming of blanks is left out.
use screx_v.Prelude.{ℕ, Option, none, some, List, ◌==◌, if◌then◌else◌}
use screx_v.Text.{contains, strip_prefix, split_once, rsplit_once, parse}
use screx_v.History.{endpoint_key}

abbrev pub default_port : ℕ
default_port = 9000

unfoldable pub or_default : Option ℕ → ℕ
or_default none = default_port
or_default (some port) = port

unfoldable pub port_after_colon : Option (List ℕ) → ℕ
unfolding or_default parse
port_after_colon none = default_port
port_after_colon (some value) = or_default (parse 65536 value)

unfoldable pub with_port : (input host : List ℕ) → Option ℕ → List ℕ × ℕ
with_port input host none = (input, default_port)
with_port input host (some port) = (host, port)

unfoldable pub plain_host : (input : List ℕ) → Option (List ℕ × List ℕ) → List ℕ × ℕ
unfolding with_port contains parse
plain_host input none = (input, default_port)
plain_host input (some (host, port)) =
    if contains 58 host then (input, default_port) else with_port input host (parse 65536 port)

unfoldable pub closing_bracket : Option (List ℕ) → Option (List ℕ × List ℕ)
unfolding split_once
closing_bracket none = none
closing_bracket (some rest) = split_once 93 rest

unfoldable pub host_and_port : (input : List ℕ) → Option (List ℕ × List ℕ) → List ℕ × ℕ
unfolding port_after_colon strip_prefix plain_host rsplit_once
host_and_port input (some (host, rest)) = (host, port_after_colon (strip_prefix 58 rest))
host_and_port input none = plain_host input (rsplit_once 58 input)

unfoldable pub parse_host_port : List ℕ → List ℕ × ℕ
unfolding host_and_port closing_bracket strip_prefix
parse_host_port input = host_and_port input (closing_bracket (strip_prefix 91 input))

-- The address that is given to the client for a recent connection.
unfoldable pub connect_recent : (host : List ℕ) (port : ℕ) → List ℕ
unfolding endpoint_key
connect_recent host port = if port == 42069 then host else endpoint_key host port
