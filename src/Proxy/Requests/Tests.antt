-- ===== src/Proxy/Requests/Tests.antt =====
-- Two requests to a child proxy, and the theorems about them.
use mulch.Prelude.{◌≡◌, refl, true, false, not, ◌&&◌, Option, none, some, [], ◌∷◌, if◌then◌else◌}
use mulch.GoMap
use mulch.GoMap.{Map}
use mulch.Text.Decimal.{pos}
use mulch.Text.{Str, lit, str_eq, str_beq}
use mulch.Text.Words.{split, to_lower, is_nil}
use mulch.Domain.{Domain}
use mulch.Proxy.Rates.{Select, Wait, is_active}
use mulch.Proxy.Rates.Steps.{Server}
use mulch.Proxy.Domains.{DomainDatabase, get_by_name}
use mulch.Proxy.Requests.{
  ChainMode, Params, HttpRequest, psk_header, proto_header, real_ip_header, client_ip,
  handle_request, route_request, limit_request, after_limit, check_limit, controller_of,
  is_from_parent, request_proto, proxied, lookup_host, first_part, header, answer,
  serve_reverse_proxy, forwarded, forwarded_headers, with_psk, with_real_ip, with_forwarded_for,
  is_child, is_parent, is_alone,
}
use mulch.Proxy.Requests.Outcomes.{handle_request-client, handle_request-parent}

abbrev params : Params
params = record {
  mulchd_https_domain = [];
  chain_mode = ChainMode.child;
  chain_psk = lit "key";
  chain_domain = [];
  force_x_forwarded_for = false;
  have_trusted_proxies = false;
  trusted_proxies = [];
}

abbrev site : Domain
site = record {
  name = lit "site.org";
  vm_name = lit "web";
  redirect_to = [];
  redirect_code = 0;
  destination_host = lit "10.104.0.2";
  destination_port = pos 80;
  redirect_to_https = true;
  rate_profile = lit "slow";
  target_url = lit "http://10.104.0.2:80";
  chained = false;
}

abbrev routes : DomainDatabase
routes = record { db = (lit "site.org", site) ∷ []; file = none }

abbrev unlimited : Server
unlimited = record {
  rc = record {
    config = record { concurrent_max_requests = 0; rate_enable = false; vip_list = [] };
    entries = [];
    heap = [];
    next = 0;
    too_many_requests = 0;
  };
  running = [];
}

abbrev limits : Map Str Server
limits = (lit "default", unlimited) ∷ []

abbrev host_of_addr : Str → Option Str
host_of_addr a = some (first_part (split b':' a))

abbrev parse_url : Str → Option (Str × Str)
parse_url u = some (lit "http", lit "10.104.0.2:80")

-- A client that claims another address and http.
abbrev from_client : HttpRequest
from_client = record {
  host = lit "Site.org:443";
  url = lit "/";
  url_scheme = [];
  url_host = [];
  headers = (real_ip_header, lit "10.0.0.9") ∷ (proto_header, lit "http") ∷ [];
  remote_addr = lit "192.0.2.7:5000";
  tls = true;
}

abbrev client_sent : HttpRequest
client_sent = record from_client {
  url_scheme = lit "http";
  url_host = lit "10.104.0.2:80";
  headers = (real_ip_header, lit "192.0.2.7") ∷ (proto_header, lit "https") ∷ [];
}

abbrev from_parent : HttpRequest
from_parent = record from_client {
  headers = (psk_header, lit "key") ∷ (proto_header, lit "https") ∷ [];
  tls = false;
}

abbrev parent_sent : HttpRequest
parent_sent = record from_parent {
  url_scheme = lit "http";
  url_host = lit "10.104.0.2:80";
  headers = (proto_header, lit "https") ∷ [];
}

client_is_served :
    handle_request host_of_addr parse_url params Select.sent Wait.token 0 from_client routes limits
    ≡ some (proxied site client_sent, limits)
unfolding handle_request route_request limit_request after_limit check_limit controller_of
    is_from_parent request_proto lookup_host first_part header answer serve_reverse_proxy forwarded
    forwarded_headers with_psk with_real_ip with_forwarded_for is_child is_parent is_alone client_ip
    is_active get_by_name split to_lower GoMap.get GoMap.has GoMap.put GoMap.remove str_beq
client_is_served = refl

client_is_no_parent : is_from_parent host_of_addr parse_url params from_client ≡ false
unfolding is_from_parent is_child is_alone header GoMap.get str_beq
client_is_no_parent = refl

parent_is_served :
    handle_request host_of_addr parse_url params Select.sent Wait.token 0 from_parent routes limits
    ≡ some (proxied site parent_sent, limits)
unfolding handle_request route_request limit_request after_limit check_limit controller_of
    is_from_parent request_proto lookup_host first_part header answer serve_reverse_proxy forwarded
    forwarded_headers with_psk with_real_ip with_forwarded_for is_child is_parent is_alone client_ip
    is_active get_by_name split to_lower GoMap.get GoMap.has GoMap.put GoMap.remove str_beq
parent_is_served = refl

parent_is_known : is_from_parent host_of_addr parse_url params from_parent ≡ true
unfolding is_from_parent is_child header GoMap.get str_beq
parent_is_known = refl

handle_request-client_example :
    (get_by_name (lookup_host from_client) routes ≡ some site)
    × (GoMap.get real_ip_header client_sent.headers
        ≡ some (client_ip host_of_addr parse_url params from_client))
    × (GoMap.get proto_header client_sent.headers
        ≡ some (if from_client.tls then lit "https" else lit "http"))
    × (is_nil site.redirect_to ≡ true)
    × ((not from_client.tls && site.redirect_to_https) ≡ false)
handle_request-client_example =
    handle_request-client host_of_addr parse_url params Select.sent Wait.token 0 from_client routes
      limits limits site client_sent client_is_served client_is_no_parent

handle_request-parent_example :
    (get_by_name (lookup_host from_parent) routes ≡ some site)
    × (GoMap.get psk_header parent_sent.headers ≡ none)
handle_request-parent_example =
    handle_request-parent host_of_addr parse_url params Select.sent Wait.token 0 from_parent routes
      limits limits site parent_sent parent_is_served parent_is_known
