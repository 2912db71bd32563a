-- ===== src/Config.antt =====
-- cmd/mulchd/server/vm_config.go: the settings of a virtual machine as the TOML decoder returns
-- them, and what reading them needs from outside. A setting that the file does not give has its
-- default value already.
pub mod Domains
pub mod Env
pub mod Origins
pub mod Scripts
pub mod Reader
pub mod Names
pub mod Redirects
pub mod Shebang
pub mod Samples
pub mod Valid
pub mod Accepts
mod Tests
use mulch.Prelude.{
  ℕ, Bool, true, false, ◌^◌, ◌*◌, ◌||◌, eqb, leb, all, List, Option, Outcome, ok, err,
  if◌then◌else◌,
}
use mulch.Text.{Str, lit}
use mulch.Text.Decimal.{ℤ, pos, negsuc}
use mulch.Text.Words.{is_word_char}
use mulch.GoMap.{Map}
use mulch.Secrets.{SecretDatabase}
use mulch.VmPort.Parse.{PortError}

pub record TomlVmDoAction : Type 0 where
  pub name : Str
  pub script : Str
  pub user : Str
  pub description : Str

pub record TomlVmConfig : Type 0 where
  pub name : Str
  pub hostname : Str
  pub timezone : Str
  pub app_user : Str
  pub seed : Str
  pub init_upgrade : Bool
  pub disk_size : ℕ
  pub ram_size : ℕ
  pub cpu_count : ℤ
  pub domains : List Str
  pub redirect_to_https : Bool
  pub rate_profile : Str
  pub redirects : List (List Str)
  pub env : List (List Str)
  pub secrets : List Str
  pub env_raw : Str
  pub ports : List Str
  pub backup_disk_size : ℕ
  pub backup_compress : Bool
  pub restore_backup : Str
  pub auto_rebuild : Str
  pub build_timeout : Str
  pub prepare_prefix_url : Str
  pub prepare : List Str
  pub install_prefix_url : Str
  pub install : List Str
  pub backup_prefix_url : Str
  pub backup : List Str
  pub restore_prefix_url : Str
  pub restore : List Str
  pub do_actions : List TomlVmDoAction
  pub tags : List Str

pub data ConfigError : Type 0 where
  unreadable not_toml unknown_setting : ConfigError
  bad_name bad_app_user bad_seed small_disk small_ram no_cpu : ConfigError
  bad_domain bad_domain_port bad_redirect bad_code unsupported_code : ConfigError
  foreign_target duplicated_domain : ConfigError
  bad_env_raw bad_env_line bad_env_name duplicated_env : ConfigError
  duplicated_secret secret_in_env no_secret small_backup_disk : ConfigError
  no_user bad_user no_script short_script no_shebang : ConfigError
  bad_auto_rebuild bad_timeout small_timeout : ConfigError
  bad_action duplicated_action bad_tag : ConfigError
  bad_ports : PortError → ConfigError

-- What reading a configuration calls: the TOML decoder, which returns the settings and the names of
-- those it does not know, `godotenv.Unmarshal`, `time.ParseDuration`, `url.Parse` for the scheme of a
-- URL, the origins by name, and the places where scripts are. A script is what a read of two bytes
-- returns, `none` if the read fails.
pub record Outside : Type 0 where
  pub decode : Str → Option (TomlVmConfig × List Str)
  pub unmarshal : Str → Option (Map Str Str)
  pub parse_duration : Str → Option ℤ
  pub parse_scheme : Str → Option Str
  pub origins : List Str
  pub from_origin : Str → Str → Option (Option Str)
  pub from_http : Str → Option (Option Str)
  pub from_file : Str → Option (Option Str)
  pub secrets : SecretDatabase

abbrev pub megabyte : ℕ
megabyte = 1048576

-- nanoseconds
abbrev pub second : ℕ
second = 1000000000

-- `k ≤ n`, for an `int`
abbrev pub at_least : ℕ → ℤ → Bool
at_least k (pos n) = leb k n
at_least k (negsuc n) = false

-- `IsValidWord` of cmd/mulchd/server/tools.go
unfoldable pub is_valid_word : Str → Bool
is_valid_word = all (λ c. is_word_char c || eqb c b'-')

-- A guard: the error unless the test holds.
abbrev pub ensure : Bool → ConfigError → Outcome ConfigError Unit
ensure b e = if b then ok tt else err e
