-- ===== src/VmPort.antt =====
-- `VMPort` of cmd/mulchd/server/vm_port.go: a network port inside a virtual machine.
pub mod Comment
pub mod Parse
pub mod Ranges
pub mod Bounds
pub mod Arrays
pub mod Texts
pub mod Groups
pub mod RoundTrip
mod Tests
use mulch.Prelude.{ℕ, Bool, true, false, ◌++◌, [], eqb, if◌then◌else◌}
use mulch.Text.{Str, lit}
use mulch.Text.Decimal.{itoa}

pub data Direction : Type 0 where
  exported imported : Direction

-- `VMPortDirectionExport` is `exported`, `VMPortDirectionImport` is `imported`. Protocol 0 is tcp,
-- public port 0 is private, and proxy port 0 is no proxy.
pub record VmPort : Type 0 where
  pub port : ℕ
  pub protocol : ℕ
  pub direction : Direction
  pub index : ℕ
  pub group : Str
  pub public_port : ℕ
  pub proxy_port : ℕ

abbrev pub is_import : Direction → Bool
is_import exported = false
is_import imported = true

abbrev pub base_forward : ℕ
base_forward = 9001

-- `String`
unfoldable pub port_string : VmPort → Str
port_string p =
    let arrow : Str = if is_import p.direction then lit "<-" else lit "->" in
    let proto : Str = if eqb p.protocol 0 then lit "tcp" else lit "???" in
    let public : Str = if eqb p.public_port 0 then [] else lit ":" ++ itoa p.public_port in
    itoa p.port ++ (lit "/" ++ (proto ++ (arrow ++ (p.group ++ public))))

-- `GlobalID`: the exports of one public port are the same, whatever the port inside.
unfoldable pub global_id : VmPort → Str
global_id p =
    if eqb p.public_port 0
    then port_string p
    else lit "...->" ++ (p.group ++ (lit ":" ++ itoa p.public_port))
