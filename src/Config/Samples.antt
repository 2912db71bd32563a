-- ===== src/Config/Samples.antt =====
-- A small file of settings, and what the reader of cmd/mulchd/server/vm_config.go makes of it.
use mulch.Prelude.{◌≡◌, refl, true, false, none, some, [], ◌∷◌, if◌then◌else◌, ok}
use mulch.GoMap
use mulch.Text.Words.{
  starts_with, is_valid_name, to_lower, trim_left, trim_right, trim_space, split, join,
}
use mulch.Text.Decimal.{pos, digits, itoa, value, signed, atoi_int}
use mulch.VmPort.Comment.{
  strip_close, comment_of, split_comment, port_extract_comment, starts_with_char, contains_pair,
  put_first, cut_first, split_pair, is_valid_group_name,
}
use mulch.VmPort.Parse.{
  direction_of, bounded, tcp_port, port_number, proxy_number, proxy_port_of, public_port_of,
  private_group_of, public_group_of, group_of, make_port, port_of, add_port, parse_line,
  parse_lines,
}
use mulch.VmPort.Ranges.{
  match_range, destination_start, explode_range, explode_line, explode, parsed_ports,
  new_vm_port_array,
}
use mulch.Config.{TomlVmConfig, Outside, is_valid_word}
use mulch.Config.Domains.{
  host_name, make_domain, with_port, domain_of, domains_of, is_redirect_code, redirect_code,
  redirect_domain, make_redirect, redirect_of, redirects_of, check_duplicates, all_domains,
  default_hostname, hostname_of,
}
use mulch.Config.Env.{
  path_base, put_all, raw_values, raw_env, env_line, env_lines, env_of, secret_found, check_secret,
  check_secrets,
}
use mulch.Config.Origins.{
  before_brace, known_origin, origin_of_parts, get_origin_from_path, scheme_or_nil, content_under,
  content_at, content_with, get_content,
}
use mulch.Config.Scripts.{
  check_signature, vm_check_script_url, cut_at, script_url_of, script_of, vm_config_get_script,
  scripts_of, vm_config_get_do_action, actions_of, action_map, tags_of, is_auto_rebuild,
  timeout_value,
}
use mulch.Config.Reader.{
  known_settings, check_machine, ports_or_error, timeout_of, all_scripts, network_of, do_actions_of,
  make_config, config_of, new_vm_config,
}
use mulch.Text.{lit, str_beq}
use mulch.Secrets
use mulch.Secrets.{Secret}
use mulch.Domain.{Domain}
use mulch.VmPort.{exported, imported}
use mulch.Vm.{VmConfig}
use mulch.Vm.Samples.{plain_config}

abbrev settings : TomlVmConfig
settings = record {
  name = lit "web";
  hostname = [];
  timezone = lit "Europe/Paris";
  app_user = lit "app";
  seed = lit "debian_12";
  init_upgrade = true;
  disk_size = 20000000;
  ram_size = 2000000;
  cpu_count = pos 2;
  domains = lit "Example.org" ∷ lit "api.example.org->8080" ∷ [];
  redirect_to_https = true;
  rate_profile = [];
  redirects = (lit "www.example.org" ∷ lit "example.org" ∷ lit "301" ∷ []) ∷ [];
  env = (lit "LANG" ∷ lit "fr" ∷ []) ∷ [];
  secrets = lit "site/TOKEN" ∷ [];
  env_raw = [];
  ports = lit "22/tcp->@ssh" ∷ lit "25/tcp<-@mail" ∷ [];
  backup_disk_size = 40000000;
  backup_compress = true;
  restore_backup = [];
  auto_rebuild = lit "daily";
  build_timeout = lit "10m";
  prepare_prefix_url = lit "file:///srv/";
  prepare = lit "admin@setup.sh" ∷ [];
  install_prefix_url = [];
  install = [];
  backup_prefix_url = [];
  backup = [];
  restore_prefix_url = [];
  restore = [];
  do_actions =
      record { name = lit "open"; script = lit "file:///srv/open.sh"; user = []; description = [] }
      ∷ [];
  tags = lit "prod" ∷ [];
}

abbrev pub token : Secret
token = record {
  key = lit "site/TOKEN";
  value = lit "s3cr3t";
  modified = 1;
  author_key = lit "alice";
  deleted = false;
}

-- Only the file paths of `/srv` hold scripts.
abbrev pub outside : Outside
outside = record {
  decode = λ content. some (settings, []);
  unmarshal = λ s. none;
  parse_duration = λ s. some (pos 600000000000);
  parse_scheme = λ s. some (if starts_with (lit "file:") s then lit "file" else []);
  origins = [];
  from_origin = λ o p. none;
  from_http = λ u. none;
  from_file = λ u. some (some (lit "#!"));
  secrets = record { db = (lit "site/TOKEN", token) ∷ []; file = none };
}

abbrev site : Domain
site = record {
  name = lit "example.org";
  vm_name = [];
  redirect_to = [];
  redirect_code = 0;
  destination_host = [];
  destination_port = pos 80;
  redirect_to_https = true;
  rate_profile = [];
  target_url = [];
  chained = false;
}

abbrev www : Domain
www = record site {
  name = lit "www.example.org";
  redirect_to = lit "example.org";
  redirect_code = 301;
  destination_port = pos 0;
  redirect_to_https = false;
}

abbrev pub accepted : VmConfig
accepted = record (plain_config (lit "web")) {
  hostname = lit "example.localdomain";
  disk_size = 20000000;
  ram_size = 2000000;
  cpu_count = pos 2;
  domains =
      site ∷ record site { name = lit "api.example.org"; destination_port = pos 8080 } ∷ www ∷ [];
  env = (lit "LANG", lit "fr") ∷ [];
  secrets = lit "site/TOKEN" ∷ [];
  ports =
      record {
        port = 22;
        protocol = 0;
        direction = exported;
        index = 0;
        group = lit "@ssh";
        public_port = 0;
        proxy_port = 0;
      }
      ∷ record {
        port = 25;
        protocol = 0;
        direction = imported;
        index = 0;
        group = lit "@mail";
        public_port = 0;
        proxy_port = 0;
      }
      ∷ [];
  backup_disk_size = 40000000;
  auto_rebuild = lit "daily";
  build_timeout = pos 600000000000;
  prepare = record { script_url = lit "file:///srv/setup.sh"; as_user = lit "admin" } ∷ [];
  do_actions =
      (
        lit "open",
        record {
          name = lit "open";
          script_url = lit "file:///srv/open.sh";
          user = [];
          description = [];
          from_config = true;
        },
      )
      ∷ [];
  tags = (lit "prod", true) ∷ [];
}

-- The run of the reader
pub settings-accepted : new_vm_config outside (some []) ≡ ok accepted
unfolding GoMap.get GoMap.has GoMap.put is_valid_name to_lower trim_left trim_right trim_space split
    join digits itoa value signed atoi_int strip_close comment_of split_comment port_extract_comment
    starts_with_char contains_pair put_first cut_first split_pair is_valid_group_name direction_of
    bounded tcp_port port_number proxy_number proxy_port_of public_port_of private_group_of
    public_group_of group_of make_port port_of add_port parse_line parse_lines match_range
    destination_start explode_range explode_line explode parsed_ports new_vm_port_array
    is_valid_word host_name make_domain with_port domain_of domains_of is_redirect_code
    redirect_code redirect_domain make_redirect redirect_of redirects_of check_duplicates
    all_domains default_hostname hostname_of path_base put_all raw_values raw_env env_line env_lines
    env_of secret_found check_secret check_secrets before_brace known_origin origin_of_parts
    get_origin_from_path scheme_or_nil content_under content_at content_with get_content
    check_signature vm_check_script_url cut_at script_url_of script_of vm_config_get_script
    scripts_of vm_config_get_do_action actions_of action_map tags_of is_auto_rebuild timeout_value
    known_settings check_machine ports_or_error timeout_of all_scripts network_of do_actions_of
    make_config config_of new_vm_config str_beq Secrets.get
settings-accepted = refl
