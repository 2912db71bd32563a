-- ===== src/VmPort/Parse.antt =====
-- The second part of `NewVMPortArray` of cmd/mulchd/server/vm_port.go: the lines, one port each. A
-- conversion to uint16 is written out as a remainder. Texts are ASCII.
use mulch.Prelude.{
  ℕ, suc, ◌-◌, ◌%◌, ◌^◌, Bool, true, false, ◌&&◌, ◌||◌, not, Option, none, some, List, [], ◌∷◌,
  ◌++◌, any, eqb, ltb, ◌==◌, if◌then◌else◌, Outcome, ok, err, ◌>>=◌,
}
use mulch.Text.{Str, lit, str_eq}
use mulch.Text.Words.{to_lower, trim_space, split, starts_with}
use mulch.Text.Decimal.{ℤ, pos, negsuc, atoi_int}
use mulch.VmPort.{VmPort, Direction, exported, imported, is_import}
use mulch.VmPort.Comment.{port_extract_comment, contains_pair, split_pair, is_valid_group_name}

pub data PortError : Type 0 where
  no_direction bad_line bad_port not_an_integer out_of_bound not_tcp bad_group : PortError
  public_import bad_public duplicate_port : PortError
  bad_source bad_destination different_sizes range_too_big range_too_small : PortError

abbrev pub public_group : Str
public_group = lit "@PUBLIC"

abbrev pub proxy_protocol_default : ℕ
proxy_protocol_default = 8443

-- What `NewVMPortArray` keeps while it reads.
pub record ParseState : Type 0 where
  pub import_index : ℕ
  pub export_index : ℕ
  pub ports : List VmPort

unfoldable pub direction_of : Str → Outcome PortError Direction
direction_of line =
    if contains_pair b'-' b'>' line
    then ok exported
    else if contains_pair b'<' b'-' line
    then ok imported
    else err PortError.no_direction

abbrev pub split_line : Direction → Str → List Str
split_line exported line = split_pair b'-' b'>' line
split_line imported line = split_pair b'<' b'-' line

-- A port number, from 1 to 65535.
unfoldable pub bounded : Option ℤ → Outcome PortError ℕ
bounded none = err PortError.not_an_integer
bounded (some (negsuc n)) = err PortError.out_of_bound
bounded (some (pos n)) =
    if ltb n 1 || ltb 65535 n then err PortError.out_of_bound else ok (n % 2 ^ 16)

unfoldable pub tcp_port : Str → ℕ → Outcome PortError ℕ
tcp_port proto n = if proto == lit "tcp" then ok n else err PortError.not_tcp

unfoldable pub port_number : List Str → Outcome PortError ℕ
unfolding tcp_port
port_number [] = err PortError.bad_port
port_number (num ∷ []) = err PortError.bad_port
port_number (num ∷ proto ∷ []) = bounded (atoi_int num) >>= tcp_port proto
port_number (num ∷ proto ∷ _ ∷ _) = err PortError.bad_port

-- `uint16(p)`
abbrev pub uint16 : ℤ → ℕ
uint16 (pos n) = n % 2 ^ 16
uint16 (negsuc n) = 2 ^ 16 - 1 - n % 2 ^ 16

-- The PROXY comment: its port is converted, whatever its size.
unfoldable pub proxy_number : Option ℤ → Outcome PortError ℕ
proxy_number none = err PortError.not_an_integer
proxy_number (some n) = ok (uint16 n)

unfoldable pub proxy_port_of : List Str → Outcome PortError ℕ
unfolding proxy_number
proxy_port_of [] = ok 0
proxy_port_of (word ∷ []) = ok (if word == lit "PROXY" then proxy_protocol_default else 0)
proxy_port_of (word ∷ num ∷ []) = if word == lit "PROXY" then proxy_number (atoi_int num) else ok 0
proxy_port_of (word ∷ num ∷ _ ∷ _) = ok (if word == lit "PROXY" then proxy_protocol_default else 0)

unfoldable pub public_port_of : ℕ → List Str → Outcome PortError ℕ
public_port_of port [] = err PortError.bad_public
public_port_of port (group ∷ []) =
    if group == public_group then ok port else err PortError.bad_group
public_port_of port (group ∷ num ∷ []) =
    if group == public_group then bounded (atoi_int num) else err PortError.bad_group
public_port_of port (group ∷ num ∷ _ ∷ _) =
    if group == public_group then err PortError.bad_public else err PortError.bad_group

unfoldable pub private_group_of : Str → Outcome PortError (Str × ℕ × ℕ)
private_group_of lgroup =
    if is_valid_group_name lgroup then ok (lgroup, 0, 0) else err PortError.bad_group

unfoldable pub public_group_of : ℕ → List Str → List Str → Outcome PortError (Str × ℕ × ℕ)
public_group_of port group comment = public_port_of port group >>= λ public.
    proxy_port_of comment >>= λ proxy. ok (public_group, public, proxy)

-- Group, public port and proxy port
unfoldable pub group_of : Direction → ℕ → Str → Str → Outcome PortError (Str × ℕ × ℕ)
group_of direction port group comment =
    if not (starts_with public_group group)
    then private_group_of (to_lower group)
    else if is_import direction
    then err PortError.public_import
    else public_group_of port (split b':' group) (split b':' comment)

-- The port of a line, `index` being its position in its direction.
unfoldable pub make_port : Direction → ℕ → ℕ → Str × ℕ × ℕ → VmPort
make_port direction index port (group, public, proxy) = record {
  port = port;
  protocol = 0;
  direction = direction;
  index = index;
  group = group;
  public_port = public;
  proxy_port = proxy;
}

unfoldable pub port_of : Direction → ℕ → Str → List Str → Outcome PortError VmPort
unfolding make_port
port_of direction index comment [] = err PortError.bad_line
port_of direction index comment (left ∷ []) = err PortError.bad_line
port_of direction index comment (left ∷ right ∷ []) =
    port_number (split b'/' (trim_space (to_lower left))) >>= λ port.
    group_of direction port (trim_space right) comment >>= λ g.
    ok (make_port direction index port g)
port_of direction index comment (left ∷ right ∷ _ ∷ _) = err PortError.bad_line

abbrev pub same_direction : Direction → Direction → Bool
same_direction exported exported = true
same_direction imported imported = true
same_direction exported imported = false
same_direction imported exported = false

-- "check duplicates"
abbrev pub same_port : VmPort → VmPort → Bool
same_port port p =
    eqb port.port p.port
    && same_direction port.direction p.direction
    && eqb port.protocol p.protocol
    && port.group == p.group
    && eqb port.public_port p.public_port

abbrev pub next_index : Direction → ParseState → ℕ
next_index exported st = st.export_index
next_index imported st = st.import_index

abbrev pub count_port : Direction → ParseState → ParseState
count_port exported st = record st { export_index = suc st.export_index }
count_port imported st = record st { import_index = suc st.import_index }

unfoldable pub add_port : ParseState → VmPort → Outcome PortError ParseState
add_port st port =
    if any (same_port port) st.ports
    then err PortError.duplicate_port
    else ok (record st { ports = st.ports ++ (port ∷ []) })

unfoldable pub parse_line : Str → ParseState → Outcome PortError ParseState
parse_line org_line st =
    let (line, comment) = port_extract_comment org_line in
    direction_of line >>= λ direction.
    port_of direction (next_index direction st) comment (split_line direction line) >>= λ port.
    add_port (count_port direction st) port

unfoldable pub parse_lines : List Str → ParseState → Outcome PortError ParseState
parse_lines [] st = ok st
parse_lines (line ∷ lines) st = parse_line line st >>= parse_lines lines
