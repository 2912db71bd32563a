-- ===== src/VmPort/Ranges.antt =====
-- `NewVMPortArray` of cmd/mulchd/server/vm_port.go: its first part, which makes the ports of a range
-- into lines of their own, and the whole.
use mulch.Prelude.{
  ℕ, zero, suc, ◌+◌, ◌-◌, ◌^◌, Bool, Option, none, some, List, [], ◌∷◌, ◌++◌, eqb, ltb,
  if◌then◌else◌, Outcome, ok, err, ◌>>=◌,
}
use mulch.Text.{Str, lit, str_eq}
use mulch.Text.Words.{is_digit, is_word_char, is_nil, trim_space}
use mulch.Text.Decimal.{itoa, atoi, max_int}
use mulch.VmPort.{VmPort}
use mulch.VmPort.Comment.{port_extract_comment}
use mulch.VmPort.Parse.{PortError, ParseState, parse_lines}

abbrev pub vm_port_max_range_size : ℕ
vm_port_max_range_size = 20

-- The groups of the pattern: `arrow` and `group` as they are written, the second port range as the
-- texts of its bounds.
pub record PortRange : Type 0 where
  pub src_start : Str
  pub src_end : Str
  pub arrow : Str
  pub group : Str
  pub dst : Option (Str × Option Str)

-- The longest prefix of accepted bytes, if there is one, and the rest. In the pattern, no byte that may
-- follow such a prefix is itself accepted, so a match has no other.
span : (ℕ → Bool) → Str → Str × Str
span p [] = ([], [])
span p (c ∷ s) = let (w, rest) = span p s in if p c then (c ∷ w, rest) else ([], c ∷ s)

some_chars : (ℕ → Bool) → Str → Option (Str × Str)
unfolding span
some_chars p s = let (w, rest) = span p s in if is_nil w then none else some (w, rest)

-- The text after a fixed one.
after : Str → Str → Option Str
after [] s = some s
after (p ∷ ps) [] = none
after (p ∷ ps) (c ∷ s) = if eqb p c then after ps s else none

skip_spaces : Str → Str
skip_spaces [] = []
skip_spaces (c ∷ s) = let rest = skip_spaces s in if eqb c b' ' then rest else c ∷ s

infixl 5 ◌>>>◌
◌>>>◌ : {A B : Type 0} → Option A → (A → Option B) → Option B
none >>> f = none
some a >>> f = f a

-- `(-(\d+))?$`
end_of_range : Str → Option (Option Str)
unfolding after some_chars ◌>>>◌
end_of_range [] = some none
end_of_range (c ∷ s) = after (lit "-") (c ∷ s) >>> some_chars is_digit >>> λ (d, rest).
    if is_nil rest then some (some d) else none

-- `(:(\d+)(-(\d+))?)?$`
destination_of : Str → Option (Option (Str × Option Str))
unfolding after some_chars ◌>>>◌ end_of_range
destination_of [] = some none
destination_of (c ∷ s) = after (lit ":") (c ∷ s) >>> some_chars is_digit >>> λ (d, rest).
    end_of_range rest >>> λ e. some (some (d, e))

-- `(<-|->)`
arrow_of : Str → Option (Str × Str)
unfolding after ◌>>>◌
arrow_of s = elim (after (lit "<-") s) [
  | some rest ↦ some (lit "<-", rest)
  | none ↦ after (lit "->") s >>> λ rest. some (lit "->", rest)
]

-- `isRange`
unfoldable pub match_range : Str → Option PortRange
unfolding after some_chars ◌>>>◌ skip_spaces arrow_of destination_of
match_range s = some_chars is_digit s >>> λ (a, s1).
    after (lit "-") s1 >>> some_chars is_digit >>> λ (b, s2). after (lit "/tcp") s2 >>> λ s3.
    arrow_of (skip_spaces s3) >>> λ (arrow, s4).
    after (lit "@") (skip_spaces s4) >>> some_chars is_word_char >>> λ (group, s5).
    destination_of s5 >>> λ dst.
    some (record { src_start = a; src_end = b; arrow = arrow; group = b'@' ∷ group; dst = dst })

number : PortError → Option ℕ → Outcome PortError ℕ
number e none = err e
number e (some n) = ok n

-- The first destination port. The sizes differ only if both its bounds are written: otherwise the code
-- computes the last port from the size, and its overflow cancels out.
unfoldable pub destination_start : ℕ → ℕ → Option (Str × Option Str) → Outcome PortError ℕ
unfolding number
destination_start src_start src_end none = ok src_start
destination_start src_start src_end (some (a, none)) = number PortError.bad_destination (atoi a)
destination_start src_start src_end (some (a, some b)) =
    number PortError.bad_destination (atoi a) >>= λ dst_start.
    number PortError.bad_destination (atoi b) >>= λ dst_end.
    if eqb (src_end + dst_start) (dst_end + src_start)
    then ok dst_start
    else err PortError.different_sizes

-- `%d` of a sum of two `int`, which wraps around
print_int : ℕ → Str
print_int n = if ltb max_int n then b'-' ∷ itoa (2 ^ 64 - n) else itoa n

range_line : PortRange → Str → ℕ → ℕ → Str
unfolding print_int
range_line r comment src dst =
    itoa src
    ++ (lit "/tcp "
        ++ (r.arrow
            ++ (lit " "
                ++ (r.group
                    ++ ((if eqb src dst then [] else lit ":" ++ print_int dst)
                        ++ (if is_nil comment then [] else lit " (" ++ (comment ++ lit ")")))))))

-- One line for each of the `n` ports.
range_lines : PortRange → Str → ℕ → ℕ → ℕ → List Str
unfolding range_line
range_lines r comment zero src dst = []
range_lines r comment (suc n) src dst =
    range_line r comment src dst ∷ range_lines r comment n (suc src) (suc dst)

unfoldable pub explode_range : PortRange → Str → Outcome PortError (List Str)
unfolding number range_lines
explode_range r comment = number PortError.bad_source (atoi r.src_start) >>= λ src_start.
    number PortError.bad_source (atoi r.src_end) >>= λ src_end.
    destination_start src_start src_end r.dst >>= λ dst_start.
    if ltb (src_start + vm_port_max_range_size) (suc src_end)
    then err PortError.range_too_big
    else if ltb (suc src_end) (src_start + 2)
    then err PortError.range_too_small
    else ok (range_lines r comment (suc src_end - src_start) src_start dst_start)

unfoldable pub explode_line : Str → Outcome PortError (List Str)
explode_line line_org =
    let (line, comment) = port_extract_comment line_org in
    elim (match_range (trim_space line)) [
      | none ↦ ok (line_org ∷ [])
      | some r ↦ explode_range r comment
    ]

unfoldable pub explode : List Str → Outcome PortError (List Str)
explode [] = ok []
explode (line ∷ lines) = explode_line line >>= λ here. explode lines >>= λ rest. ok (here ++ rest)

abbrev pub start : ParseState
start = record { import_index = 0; export_index = 0; ports = [] }

unfoldable pub parsed_ports : ParseState → Outcome PortError (List VmPort)
parsed_ports st = ok st.ports

-- `NewVMPortArray`
unfoldable pub new_vm_port_array : List Str → Outcome PortError (List VmPort)
unfolding parsed_ports
new_vm_port_array str_ports =
    explode str_ports >>= λ lines. parse_lines lines start >>= parsed_ports
