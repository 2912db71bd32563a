-- ===== src/Vm/Samples.antt =====
-- Small configurations for the tests of cmd/mulchd/server.
use mulch.Prelude.{true, []}
use mulch.Text.{Str, lit}
use mulch.Text.Decimal.{pos}
use mulch.Vm.{VmConfig}

-- A configuration with a name, without domains, ports, scripts or secrets.
abbrev pub plain_config : Str → VmConfig
plain_config name = record {
  file_content = [];
  name = name;
  hostname = lit "localhost.localdomain";
  timezone = lit "Europe/Paris";
  app_user = lit "app";
  seed = lit "debian_12";
  init_upgrade = true;
  disk_size = 1048576;
  ram_size = 1048576;
  cpu_count = pos 1;
  domains = [];
  env = [];
  secrets = [];
  ports = [];
  backup_disk_size = 33554432;
  backup_compress = true;
  restore_backup = [];
  auto_rebuild = [];
  build_timeout = pos 0;
  prepare = [];
  install = [];
  backup = [];
  restore = [];
  do_actions = [];
  tags = [];
}
