-- ===== src/VmName/Tests.antt =====
-- Ids of virtual machines on examples.
use mulch.Prelude.{◌≡◌, refl, arith, ok}
use mulch.Text.{lit}
use mulch.Text.Words.{is_valid_name}
use mulch.VmName.{VmName, id, parse_vm_name, IsVmName}
use mulch.VmName.RoundTrip.{parse_vm_name-id}

abbrev web3 : VmName
web3 = record { name = lit "web"; revision = 3 }

web3-IsVmName : IsVmName web3
unfolding is_valid_name
web3-IsVmName = record { valid = refl; some_char = refl; small = omega arith }

parse_vm_name-id_example : parse_vm_name (id web3) ≡ ok web3
parse_vm_name-id_example = parse_vm_name-id web3 web3-IsVmName
