-- ===== src/VmPort/Tests.antt =====
-- The parser, on lines of the source's comments.
use mulch.Prelude.{arith, inl, ℕ, ◌≡◌, refl, List, [], ◌∷◌, ok}
use mulch.Text.{Str, lit, str_beq}
use mulch.Text.Words.{to_lower, trim_left, trim_right, trim_space, split}
use mulch.Text.Decimal.{digits, itoa, value, atoi, signed, atoi_int}
use mulch.VmPort.{port_string, VmPort, exported, imported}
use mulch.VmPort.Comment.{
  strip_close, comment_of, split_comment, port_extract_comment, contains_pair, split_pair,
  is_valid_group_name,
}
use mulch.VmPort.Parse.{
  count_port, public_group, direction_of, bounded, tcp_port, port_number, proxy_number,
  proxy_port_of, public_port_of, private_group_of, public_group_of, group_of, make_port, port_of,
  add_port, parse_line, parse_lines,
}
use mulch.VmPort.Ranges.{
  start, explode, explode_line, match_range, destination_start, explode_range, parsed_ports,
  new_vm_port_array,
}
use mulch.VmPort.RoundTrip.{IsPrinted, read_port, parse_line-port_string}
use mulch.VmPort.Arrays.{IsPortArray, new_vm_port_array-IsPortArray}

abbrev public_port : VmPort
public_port = record {
  port = 80;
  protocol = 0;
  direction = exported;
  index = 0;
  group = public_group;
  public_port = 8080;
  proxy_port = 8443;
}

abbrev private_port : VmPort
private_port = record {
  port = 22;
  protocol = 0;
  direction = imported;
  index = 0;
  group = lit "@adm";
  public_port = 0;
  proxy_port = 0;
}

abbrev two_lines : List Str
two_lines = lit "80/tcp -> @PUBLIC:8080 (PROXY)" ∷ lit "22/TCP<-@Adm" ∷ []

two_lines_lem : new_vm_port_array two_lines ≡ ok (public_port ∷ private_port ∷ [])
unfolding explode explode_line match_range destination_start explode_range parsed_ports
    new_vm_port_array strip_close comment_of split_comment port_extract_comment contains_pair
    split_pair is_valid_group_name direction_of bounded tcp_port port_number proxy_number
    proxy_port_of public_port_of private_group_of public_group_of group_of make_port port_of
    add_port parse_line parse_lines digits itoa value atoi signed atoi_int to_lower trim_left
    trim_right trim_space split str_beq
two_lines_lem = refl

two_lines-IsPortArray : IsPortArray (public_port ∷ private_port ∷ [])
two_lines-IsPortArray =
    new_vm_port_array-IsPortArray two_lines (public_port ∷ private_port ∷ []) two_lines_lem

abbrev range_port : ℕ → ℕ → VmPort
range_port i n = record {
  port = n;
  protocol = 0;
  direction = exported;
  index = i;
  group = lit "@xxx";
  public_port = 0;
  proxy_port = 0;
}

range_lem :
    new_vm_port_array (lit "2000-2002/tcp->@xxx" ∷ [])
    ≡ ok (range_port 0 2000 ∷ range_port 1 2001 ∷ range_port 2 2002 ∷ [])
unfolding explode explode_line match_range destination_start explode_range parsed_ports
    new_vm_port_array strip_close comment_of split_comment port_extract_comment contains_pair
    split_pair is_valid_group_name direction_of bounded tcp_port port_number proxy_number
    proxy_port_of public_port_of private_group_of public_group_of group_of make_port port_of
    add_port parse_line parse_lines digits itoa value atoi signed atoi_int to_lower trim_left
    trim_right trim_space split str_beq
range_lem = refl

-- A PROXY port of 65536 is taken, as no proxy.
proxy_wraps :
    new_vm_port_array (lit "80/tcp -> @PUBLIC:8080 (PROXY:65536)" ∷ [])
    ≡ ok (record public_port { proxy_port = 0 } ∷ [])
unfolding explode explode_line match_range destination_start explode_range parsed_ports
    new_vm_port_array strip_close comment_of split_comment port_extract_comment contains_pair
    split_pair is_valid_group_name direction_of bounded tcp_port port_number proxy_number
    proxy_port_of public_port_of private_group_of public_group_of group_of make_port port_of
    add_port parse_line parse_lines digits itoa value atoi signed atoi_int to_lower trim_left
    trim_right trim_space split str_beq
proxy_wraps = refl

private_port-IsPrinted : IsPrinted private_port
unfolding is_valid_group_name to_lower
private_port-IsPrinted = record {
  port = record {
    low = omega arith;
    high = omega arith;
    tcp = refl;
    proxy = omega arith;
    grouped = inl (refl, refl, refl);
  };
  no_proxy = refl;
  lower = inl refl;
}

parse_line-port_string_example :
    parse_line (port_string private_port) start
    ≡ add_port (count_port imported start) (read_port private_port start)
parse_line-port_string_example = parse_line-port_string private_port start private_port-IsPrinted
