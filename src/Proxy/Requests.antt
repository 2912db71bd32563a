-- ===== src/Proxy/Requests.antt =====
-- proxy.go of cmd/mulch-proxy: what becomes of a request. net/http's header is a map from canonical
-- names to a value. Parameters: `host_of_addr` is net.SplitHostPort, `none` being its error, and
-- `parse_url` gives scheme and host of url.Parse, `none` being its error, after which the program
-- panics. Logs and the text of error pages are left out.
pub mod Forwarded
pub mod Outcomes
mod Tests
use mulch.Prelude.{
  ℕ, Bool, true, false, not, ◌&&◌, ◌||◌, Option, none, some, List, [], ◌∷◌, ◌++◌, if◌then◌else◌,
  ◌==◌, eqb,
}
use mulch.Text.{Str, lit, str_eq}
use mulch.Text.Words.{split, to_lower, is_nil}
use mulch.Text.Decimal.{itoa_int}
use mulch.GoMap.{Map, get, has, put, remove}
use mulch.Domain.{Domain}
use mulch.Proxy.Domains.{DomainDatabase, DomainError, get_by_name, get_domains_names, load}
use mulch.Proxy.Rates.{Select, Wait, is_active, is_vip}
use mulch.Proxy.Rates.Steps.{Server, arrive}

pub data ChainMode : Type 0 where
  alone child parent : ChainMode

-- The part of ProxyServerParams that requests are decided by.
pub record Params : Type 0 where
  pub mulchd_https_domain : Str
  pub chain_mode : ChainMode
  pub chain_psk : Str
  pub chain_domain : Str
  pub force_x_forwarded_for : Bool
  pub have_trusted_proxies : Bool
  pub trusted_proxies : Map Str Bool

pub record HttpRequest : Type 0 where
  pub host : Str
  pub url : Str
  pub url_scheme : Str
  pub url_host : Str
  pub headers : Map Str Str
  pub remote_addr : Str
  pub tls : Bool

abbrev pub psk_header : Str
psk_header = lit "Mulch-PSK"

abbrev pub watchdog_header : Str
watchdog_header = lit "Mulch-Watchdog"

abbrev pub proto_header : Str
proto_header = lit "X-Forwarded-Proto"

abbrev pub real_ip_header : Str
real_ip_header = lit "X-Real-Ip"

abbrev pub forwarded_for_header : Str
forwarded_for_header = lit "X-Forwarded-For"

-- `req.Header.Get`
unfoldable pub header : Str → Map Str Str → Str
header name h = elim (get name h) [ none ↦ [] | some v ↦ v ]

pub data Reply : Type 0 where
  watchdog_ok : Reply
  server_error : Reply
  too_many_requests : Reply
  redirect : Str → ℕ → Reply
  proxied : Domain → HttpRequest → Reply
  panicked : Reply

-- `hostPolicy`: whether a certificate may be asked for the host.
unfoldable pub host_policy : Params → DomainDatabase → Str → Bool
host_policy p d host =
    if (host == p.mulchd_https_domain) && not (is_nil p.mulchd_https_domain)
    then true
    else if (host == p.chain_domain) && not (is_nil p.chain_domain)
    then true
    else elim (get_by_name host d) [ none ↦ false | some x ↦ true ]

-- `strings.ToLower(strings.Split(req.Host, ":")[0])`
unfoldable pub first_part : List Str → Str
first_part [] = []
first_part (s ∷ ss) = s

unfoldable pub lookup_host : HttpRequest → Str
lookup_host req = to_lower (first_part (split b':' req.host))

unfoldable pub is_child : ChainMode → Bool
is_child ChainMode.child = true
is_child _ = false

unfoldable pub is_parent : ChainMode → Bool
is_parent ChainMode.parent = true
is_parent _ = false

unfoldable pub is_alone : ChainMode → Bool
is_alone ChainMode.alone = true
is_alone _ = false

abbrev pub or_empty : Option Str → Str
or_empty none = []
or_empty (some s) = s

-- The redirect codes that are kept; any other becomes 302.
unfoldable pub redirect_status : ℕ → ℕ
redirect_status code =
    if eqb code 301
    then 301
    else if eqb code 302
    then 302
    else if eqb code 307
    then 307
    else if eqb code 308
    then 308
    else 302

module _ (host_of_addr : Str → Option Str) (parse_url : Str → Option (Str × Str)) (p : Params) where
  -- "trust our parent": the key of the chain, or a trusted proxy.
  unfoldable pub is_from_parent : HttpRequest → Bool
  is_from_parent req =
      if is_child p.chain_mode && (p.chain_psk == header psk_header req.headers)
      then true
      else (is_alone p.chain_mode && p.have_trusted_proxies)
        && has (or_empty (host_of_addr req.remote_addr)) p.trusted_proxies

  unfoldable pub request_proto : HttpRequest → Str
  request_proto req =
      if is_from_parent req
      then header proto_header req.headers
      else if req.tls
      then lit "https"
      else lit "http"

  unfoldable pub client_ip : HttpRequest → Str
  client_ip req = elim (host_of_addr req.remote_addr) [
    | none ↦ lit "invalid-" ++ req.remote_addr
    | some ip ↦ ip
  ]

  -- The header of the request that goes on, set step by step.
  unfoldable pub with_psk : Domain → Map Str Str → Map Str Str
  with_psk d h = if is_parent p.chain_mode && d.chained then put psk_header p.chain_psk h else h

  unfoldable pub with_real_ip : Bool → Str → Map Str Str → Map Str Str
  with_real_ip from_parent ip h =
      if from_parent then remove psk_header h else put real_ip_header ip h

  unfoldable pub with_forwarded_for : Bool → Str → Map Str Str → Map Str Str
  with_forwarded_for from_parent ip h =
      if p.force_x_forwarded_for && not from_parent then put forwarded_for_header ip h else h

  unfoldable pub forwarded_headers : Domain → Str → Bool → HttpRequest → Map Str Str
  forwarded_headers d proto from_parent req =
      with_forwarded_for from_parent (client_ip req)
        (with_real_ip from_parent (client_ip req) (with_psk d (put proto_header proto req.headers)))

  -- `serveReverseProxy`: the request that httputil.ReverseProxy gets.
  unfoldable pub forwarded : Domain → Str → Bool → HttpRequest → Option (Str × Str) → Reply
  forwarded d proto from_parent req none = panicked
  forwarded d proto from_parent req (some (scheme, host)) = proxied d (record req {
    url_scheme = scheme;
    url_host = host;
    headers = forwarded_headers d proto from_parent req;
    remote_addr = if p.force_x_forwarded_for then lit "invalid" else req.remote_addr;
  })

  unfoldable pub serve_reverse_proxy : Domain → Str → Bool → HttpRequest → Reply
  serve_reverse_proxy d proto from_parent req =
      forwarded d proto from_parent req (parse_url d.target_url)

  -- handleRequest after the limits.
  unfoldable pub answer : Domain → Str → Bool → HttpRequest → Reply
  answer d proto from_parent req =
      if not (is_nil d.redirect_to)
      then redirect (proto ++ (lit "://" ++ (d.redirect_to ++ req.url)))
          (redirect_status d.redirect_code)
      else if (proto == lit "http") && d.redirect_to_https
      then redirect (lit "https://" ++ (req.host ++ req.url)) 302
      else serve_reverse_proxy d proto from_parent req

  -- The rate controllers with their running requests, by profile.
  unfoldable pub controller_of : Str → Map Str Server → Str
  controller_of profile limits = if has profile limits then profile else lit "default"

  unfoldable pub check_limit : Select → Wait → ℕ → Str → Server → Option (Server × Bool)
  check_limit sel w now ip s =
      if is_active s.rc && not (is_vip ip s.rc) then arrive ip now sel w s else some (s, true)

  unfoldable pub after_limit :
      Str
      → Domain
      → Str
      → HttpRequest
      → Map Str Server
      → Option (Server × Bool)
      → Option (Reply × Map Str Server)
  after_limit profile d proto req limits none = none
  after_limit profile d proto req limits (some (s, ok)) =
      some ((if ok then answer d proto false req else too_many_requests), put profile s limits)

  unfoldable pub limit_request :
      Select
      → Wait
      → ℕ
      → Domain
      → Str
      → HttpRequest
      → Map Str Server
      → Str
      → Option Server
      → Option (Reply × Map Str Server)
  limit_request sel w now d proto req limits profile none = some (panicked, limits)
  limit_request sel w now d proto req limits profile (some s) =
      after_limit profile d proto req limits
        (check_limit sel w now (or_empty (host_of_addr req.remote_addr)) s)

  unfoldable pub route_request :
      Select
      → Wait
      → ℕ
      → HttpRequest
      → Map Str Server
      → Option Domain
      → Option (Reply × Map Str Server)
  route_request sel w now req limits none = some (server_error, limits)
  route_request sel w now req limits (some d) =
      let profile = controller_of d.rate_profile limits in
      if is_from_parent req
      then some (answer d (request_proto req) true req, limits)
      else limit_request sel w now d (request_proto req) req limits profile (get profile limits)

  -- `handleRequest`, up to the deferred `FinishRequest`; `none` is a request that still waits.
  unfoldable pub handle_request :
      Select
      → Wait
      → ℕ
      → HttpRequest
      → DomainDatabase
      → Map Str Server
      → Option (Reply × Map Str Server)
  handle_request sel w now req d limits =
      if not (is_nil (header watchdog_header req.headers))
      then some (watchdog_ok, limits)
      else route_request sel w now req limits (get_by_name (lookup_host req) d)

-- `RefreshReverseProxies`: the target of each route that is not chained.
unfoldable pub refreshed : Domain → Domain
refreshed d = if d.chained then d else record d {
  target_url = lit "http://" ++ (d.destination_host ++ (lit ":" ++ itoa_int d.destination_port));
}

unfoldable pub refresh_routes : Map Str Domain → Map Str Domain
refresh_routes [] = []
refresh_routes ((k, d) ∷ m) = (k, refreshed d) ∷ refresh_routes m

unfoldable pub refresh_reverse_proxies : DomainDatabase → DomainDatabase
refresh_reverse_proxies d = record d { db = refresh_routes d.db }

-- `ReloadDomains`: an error of `Reload` is logged only.
unfoldable pub reload_domains : Bool → DomainDatabase → DomainDatabase
reload_domains opens d = refresh_reverse_proxies (load opens d).0
