-- ===== src/Vm.antt =====
-- `VM`, `VMConfig` and what a configuration holds, of cmd/mulchd/server/vm.go and vm_config.go, and
-- `VMDatabaseEntry` of vm_database.go. `address` tells the pointers to machines apart;
-- `wip` is the operation in progress, empty if there is none. Sizes are
-- bytes, durations are nanoseconds.
pub mod Samples
use mulch.Prelude.{ℕ, Bool, List}
use mulch.Text.{Str}
use mulch.Text.Decimal.{ℤ}
use mulch.GoMap.{Map}
use mulch.Domain.{Domain}
use mulch.VmName.{VmName}
use mulch.VmPort.{VmPort}

-- A script, and the user that runs it.
pub record VmConfigScript : Type 0 where
  pub script_url : Str
  pub as_user : Str

pub record VmDoAction : Type 0 where
  pub name : Str
  pub script_url : Str
  pub user : Str
  pub description : Str
  pub from_config : Bool

-- `VMTagFromConfig` is `true`, `VMTagFromScript` is `false`.
pub record VmConfig : Type 0 where
  pub file_content : Str
  pub name : Str
  pub hostname : Str
  pub timezone : Str
  pub app_user : Str
  pub seed : Str
  pub init_upgrade : Bool
  pub disk_size : ℕ
  pub ram_size : ℕ
  pub cpu_count : ℤ
  pub domains : List Domain
  pub env : Map Str Str
  pub secrets : List Str
  pub ports : List VmPort
  pub backup_disk_size : ℕ
  pub backup_compress : Bool
  pub restore_backup : Str
  pub auto_rebuild : Str
  pub build_timeout : ℤ
  pub prepare : List VmConfigScript
  pub install : List VmConfigScript
  pub backup : List VmConfigScript
  pub restore : List VmConfigScript
  pub do_actions : Map Str VmDoAction
  pub tags : Map Str Bool

pub record Vm : Type 0 where
  pub address : ℕ
  pub secret_uuid : Str
  pub config : VmConfig
  pub author_key : Str
  pub init_date : ℕ
  pub last_ip : Str
  pub locked : Bool
  pub wip : Str
  pub assigned_mac : Str
  pub assigned_ipv4 : Str

pub record VmEntry : Type 0 where
  pub name : VmName
  pub vm : Vm
  pub active : Bool
