-- ===== src/VmPort/Arrays.antt =====
-- The arrays that `NewVMPortArray` returns.
use mulch.Prelude.{
  ℕ, suc, ◌+◌, ◌≡◌, refl, sym, ◌∙◌, ap, subst, inl, inr, false, List, [], ◌∷◌, ◌++◌, any, arith,
  if◌then◌else◌, All, Bool-cases, ok,
}
use mulch.Text.{Str, str_eq}
use mulch.Text.Words.{to_lower, trim_space, split}
use mulch.VmPort.{VmPort, Direction, exported, imported, is_import}
use mulch.VmPort.Comment.{port_extract_comment}
use mulch.VmPort.Parse.{
  PortError, ParseState, direction_of, split_line, port_number, group_of, make_port, port_of,
  same_port, next_index, count_port, add_port, parse_line, parse_lines,
}
use mulch.VmPort.Ranges.{explode, start, parsed_ports, new_vm_port_array}
use mulch.VmPort.Bounds.{IsPort, bind-ok, ok-injective, port_number-ok, group_of-ok}

abbrev pub exports : List VmPort → ℕ
exports [] = 0
exports (p ∷ ps) = (if is_import p.direction then 0 else 1) + exports ps

abbrev pub imports : List VmPort → ℕ
imports [] = 0
imports (p ∷ ps) = (if is_import p.direction then 1 else 0) + imports ps

-- The index of a port counts the earlier ones of its direction, after `e` exports and `i` imports.
abbrev pub Indexed : ℕ → ℕ → List VmPort → Type 0
Indexed e i [] = Unit
Indexed e i (p ∷ ps) =
    (p.index ≡ (if is_import p.direction then i else e))
    × Indexed (if is_import p.direction then e else suc e)
        (if is_import p.direction then suc i else i) ps

-- No port is the same as an earlier one.
abbrev pub Distinct : List VmPort → Type 0
Distinct [] = Unit
Distinct (p ∷ ps) = All (λ q. same_port q p ≡ false) ps × Distinct ps

pub record IsPortArray (ps : List VmPort) : Type 0 where
  pub each : All IsPort ps
  pub indexed : Indexed 0 0 ps
  pub distinct : Distinct ps

All-snoc :
    {A : Type 0} (P : A → Type 0) (xs : List A) (x : A) → All P xs → P x → All P (xs ++ (x ∷ []))
All-snoc P [] x h k = (k, tt)
All-snoc P (y ∷ ys) x h k = (h.0, All-snoc P ys x h.1 k)

Distinct-snoc :
    (ps : List VmPort) (p : VmPort)
    → Distinct ps
    → any (same_port p) ps ≡ false
    → Distinct (ps ++ (p ∷ []))
Distinct-snoc [] p d n = (tt, tt)
Distinct-snoc (q ∷ qs) p d n =
    let here : same_port p q ≡ false = ground (arith, n) in
    let later : any (same_port p) qs ≡ false = ground (arith, n) in
    (All-snoc (λ r. same_port r q ≡ false) qs p d.0 here, Distinct-snoc qs p d.1 later)

Indexed-snoc :
    (e i : ℕ) (ps : List VmPort) (p : VmPort)
    → Indexed e i ps
    → p.index ≡ (if is_import p.direction then i + imports ps else e + exports ps)
    → Indexed e i (ps ++ (p ∷ []))
Indexed-snoc e i [] p h k = (ground (arith, k), tt)
Indexed-snoc e i (q ∷ qs) p h k = (
  h.0,
  Indexed-snoc (if is_import q.direction then e else suc e)
      (if is_import q.direction then suc i else i) qs p h.1 (ground (arith, k)),
)

exports-snoc :
    (ps : List VmPort) (p : VmPort) → exports (ps ++ (p ∷ [])) ≡ exports ps + exports (p ∷ [])
exports-snoc [] p = ground arith
exports-snoc (q ∷ qs) p = ground (arith, exports-snoc qs p)

imports-snoc :
    (ps : List VmPort) (p : VmPort) → imports (ps ++ (p ∷ [])) ≡ imports ps + imports (p ∷ [])
imports-snoc [] p = ground arith
imports-snoc (q ∷ qs) p = ground (arith, imports-snoc qs p)

port_of-ok :
    (direction : Direction) (index : ℕ) (comment : Str) (parts : List Str) (p : VmPort)
    → port_of direction index comment parts ≡ ok p
    → IsPort p × (p.direction ≡ direction) × (p.index ≡ index)
unfolding port_of make_port
port_of-ok direction index comment [] p h = absurd (ground (arith, h))
port_of-ok direction index comment (left ∷ []) p h = absurd (ground (arith, h))
port_of-ok direction index comment (left ∷ right ∷ x ∷ xs) p h = absurd (ground (arith, h))
port_of-ok direction index comment (left ∷ right ∷ []) p h =
    let first = bind-ok (port_number (split b'/' (trim_space (to_lower left)))) _ p h in
    let second = bind-ok (group_of direction first.0 (trim_space right) comment) _ p first.2 in
    let n = port_number-ok first.0 (split b'/' (trim_space (to_lower left))) first.1 in
    let (g, public, proxy) = second.0 in
    let grouped =
      group_of-ok direction first.0 (trim_space right) comment g public proxy n.0 n.1 second.1 in
    let e = ok-injective {E = PortError} (make_port direction index first.0 second.0) p second.2 in
    (
      subst IsPort e
          (record { low = n.0; high = n.1; tcp = refl; proxy = grouped.1; grouped = grouped.0 }),
      sym (ap (λ q. q.direction) e),
      sym (ap (λ q. q.index) e),
    )

record IsParsed (st : ParseState) : Type 0 where
  array : IsPortArray st.ports
  export_count : st.export_index ≡ exports st.ports
  import_count : st.import_index ≡ imports st.ports

add_port-ok :
    (st st' : ParseState) (p : VmPort)
    → add_port st p ≡ ok st'
    → (any (same_port p) st.ports ≡ false) × (record st { ports = st.ports ++ (p ∷ []) } ≡ st')
unfolding add_port
add_port-ok st st' p h = elim (Bool-cases (any (same_port p) st.ports)) [
  | inl e ↦ absurd (ground (arith, h, e))
  | inr e ↦ (
    e,
    ok-injective {E = PortError} (record st { ports = st.ports ++ (p ∷ []) }) st'
        (ground (arith, h, e)),
  )
]

next_index-if :
    (d : Direction) (st : ParseState)
    → next_index d st ≡ (if is_import d then st.import_index else st.export_index)
next_index-if exported st = refl
next_index-if imported st = refl

-- What `count_port` does to each field.
count_port_lem :
    (d : Direction) (st : ParseState)
    → ((count_port d st).ports ≡ st.ports)
      × ((count_port d st).export_index ≡ st.export_index + (if is_import d then 0 else 1))
      × ((count_port d st).import_index ≡ st.import_index + (if is_import d then 1 else 0))
count_port_lem exported st = (refl, omega arith, omega arith)
count_port_lem imported st = (refl, omega arith, omega arith)

-- A port that takes the next index of its direction, and is no duplicate, can follow.
add_port-IsParsed :
    (st st' : ParseState) (p : VmPort)
    → IsParsed st
    → IsPort p
    → p.index ≡ next_index p.direction st
    → add_port (count_port p.direction st) p ≡ ok st'
    → IsParsed st'
add_port-IsParsed st st' p i port index h =
    let c = count_port_lem p.direction st in
    let a = add_port-ok (count_port p.direction st) st' p h in
    let next : List VmPort = st.ports ++ (p ∷ []) in
    let same : next ≡ st'.ports = ap (λ r. r ++ (p ∷ [])) (sym c.0) ∙ ap (λ s. s.ports) a.1 in
    record {
      array = subst IsPortArray same (record {
        each = All-snoc IsPort st.ports p i.array.each port;
        indexed =
            Indexed-snoc 0 0 st.ports p i.array.indexed (
              index
              ∙ next_index-if p.direction st
              ∙ ground (arith, i.export_count, i.import_count));
        distinct =
            Distinct-snoc st.ports p i.array.distinct (ap (any (same_port p)) (sym c.0) ∙ a.0);
      });
      export_count = omega (
        arith,
        ap (λ s. s.export_index) a.1,
        c.1,
        i.export_count,
        exports-snoc st.ports p,
        ap exports same,
      );
      import_count = omega (
        arith,
        ap (λ s. s.import_index) a.1,
        c.2,
        i.import_count,
        imports-snoc st.ports p,
        ap imports same,
      );
    }

parse_line-IsParsed :
    (line : Str) (st st' : ParseState) → IsParsed st → parse_line line st ≡ ok st' → IsParsed st'
unfolding parse_line
parse_line-IsParsed org_line st st' i h =
    let (line, comment) = port_extract_comment org_line in
    let d = bind-ok (direction_of line) _ st' h in
    let parts = split_line d.0 line in
    let p = bind-ok (port_of d.0 (next_index d.0 st) comment parts) _ st' d.2 in
    let k = port_of-ok d.0 (next_index d.0 st) comment parts p.0 p.1 in
    add_port-IsParsed st st' p.0 i k.0 (k.2 ∙ ap (λ r. next_index r st) (sym k.1))
      (ap (λ r. add_port (count_port r st) p.0) k.1 ∙ p.2)

parse_lines-IsParsed :
    (lines : List Str) (st st' : ParseState)
    → IsParsed st
    → parse_lines lines st ≡ ok st'
    → IsParsed st'
unfolding parse_lines
parse_lines-IsParsed [] st st' i h = subst IsParsed (ok-injective {E = PortError} st st' h) i
parse_lines-IsParsed (line ∷ lines) st st' i h =
    let b = bind-ok (parse_line line st) (parse_lines lines) st' h in
    parse_lines-IsParsed lines b.0 st' (parse_line-IsParsed line st b.0 i b.1) b.2

-- Whatever the lines, if `NewVMPortArray` returns an array, then each of its ports is from 1 to 65535, of protocol tcp, with a proxy port below 65536, and either private, in a group of a valid name and without public and proxy ports, or exported to @PUBLIC with a public port from 1 to 65535; no two of its ports have the same number, direction, protocol, group and public port; and the index of each is the number of ports of its direction before it.
pub new_vm_port_array-IsPortArray :
    (lines : List Str) (ports : List VmPort)
    → new_vm_port_array lines ≡ ok ports
    → IsPortArray ports
unfolding new_vm_port_array parsed_ports
new_vm_port_array-IsPortArray lines ports h =
    let exploded = bind-ok (explode lines) _ ports h in
    let parsed = bind-ok (parse_lines exploded.0 start) parsed_ports ports exploded.2 in
    let begin : IsParsed start = record {
      array = record { each = tt; indexed = tt; distinct = tt };
      export_count = refl;
      import_count = refl;
    } in
    subst IsPortArray (ok-injective {E = PortError} parsed.0.ports ports parsed.2)
      (parse_lines-IsParsed exploded.0 start parsed.0 begin parsed.1).array
