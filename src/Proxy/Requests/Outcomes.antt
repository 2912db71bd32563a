-- ===== src/Proxy/Requests/Outcomes.antt =====
-- What may be relied on behind the proxy, whatever a client sends.
use mulch.Prelude.{
  ℕ, ◌≡◌, true, false, not, ◌&&◌, Option, none, some, arith, if◌then◌else◌, ◌==◌, Bool-cases,
  Option-cases, inl, inr,
}
use mulch.Text.{Str, lit, str_eq, str_beq}
use mulch.Text.Words.{is_nil}
use mulch.GoMap.{Map, get}
use mulch.Domain.{Domain}
use mulch.Proxy.Rates.{Select, Wait}
use mulch.Proxy.Rates.Steps.{Server}
use mulch.Proxy.Domains.{DomainDatabase, get_by_name}
use mulch.Proxy.Requests.{
  Params, HttpRequest, psk_header, proto_header, real_ip_header, client_ip, answer, route_request,
  handle_request, is_from_parent, request_proto, proxied, lookup_host, controller_of,
  forwarded_headers,
}
use mulch.Proxy.Requests.Forwarded.{client_headers, parent_headers, serve-proxied, limit-proxied}

module _ (host_of_addr : Str → Option Str) (parse_url : Str → Option (Str × Str)) (p : Params) where
  module _ (sel : Select) (w : Wait) (now : ℕ) (req : HttpRequest) (db : DomainDatabase)
      (limits limits' : Map Str Server) (d' : Domain) (req' : HttpRequest) where
    route-none : ¬ (
        route_request host_of_addr parse_url p sel w now req limits none
        ≡ some (proxied d' req', limits'))
    unfolding route_request
    route-none h = ground arith

    route-answer :
        (d : Domain)
        → route_request host_of_addr parse_url p sel w now req limits (some d)
          ≡ some (proxied d' req', limits')
        → answer host_of_addr parse_url p d
            (request_proto host_of_addr parse_url p req)
            (is_from_parent host_of_addr parse_url p req)
            req
          ≡ proxied d' req'
    unfolding route_request
    route-answer d h =
        let proto = request_proto host_of_addr parse_url p req in
        let profile = controller_of host_of_addr parse_url p d.rate_profile limits in
        elim (Bool-cases (is_from_parent host_of_addr parse_url p req)) [
          | inl e ↦ ground (arith, h, e)
          | inr e ↦ ground (
            arith,
            h,
            e,
            limit-proxied host_of_addr parse_url p sel w now req limits limits' d' req' d proto
                profile (get profile limits),
          )
        ]

    handle-answer :
        handle_request host_of_addr parse_url p sel w now req db limits
          ≡ some (proxied d' req', limits')
        → (get_by_name (lookup_host req) db ≡ some d')
          × (req'.headers
              ≡ forwarded_headers host_of_addr parse_url p d'
                  (request_proto host_of_addr parse_url p req)
                  (is_from_parent host_of_addr parse_url p req)
                  req)
          × (is_nil d'.redirect_to ≡ true)
          × (((request_proto host_of_addr parse_url p req == lit "http") && d'.redirect_to_https)
              ≡ false)
    unfolding handle_request
    handle-answer h = elim (Option-cases (get_by_name (lookup_host req) db)) [
      | inl e ↦ absurd (route-none (ground (arith, h, e)))
      | inr (d, e) ↦
          let proto = request_proto host_of_addr parse_url p req in
          let from_parent = is_from_parent host_of_addr parse_url p req in
          let a = route-answer d (ground (arith, h, e)) in
          let s = serve-proxied host_of_addr parse_url p d proto req from_parent d' req' a in
          (
            ground (arith, s.0, e),
            ground (arith, s.0, s.1),
            ground (arith, s.0, s.2),
            ground (arith, s.0, s.3),
          )
    ]

    -- A request that does not come from the parent and is forwarded carries, whatever headers the client
    -- sent, the address of the connection and the protocol that was used; the route is that of the
    -- host, it redirects nowhere, and over http it does not ask for https.
    pub handle_request-client :
        handle_request host_of_addr parse_url p sel w now req db limits
          ≡ some (proxied d' req', limits')
        → is_from_parent host_of_addr parse_url p req ≡ false
        → (get_by_name (lookup_host req) db ≡ some d')
          × (get real_ip_header req'.headers ≡ some (client_ip host_of_addr parse_url p req))
          × (get proto_header req'.headers ≡ some (if req.tls then lit "https" else lit "http"))
          × (is_nil d'.redirect_to ≡ true)
          × ((not req.tls && d'.redirect_to_https) ≡ false)
    unfolding request_proto str_beq
    handle_request-client h client =
        let proto = request_proto host_of_addr parse_url p req in
        let a = handle-answer h in
        let c = client_headers host_of_addr parse_url p d' proto req in
        (
          a.0,
          ground (arith, a.1, client, c.0),
          ground (arith, a.1, client, c.1),
          a.2,
          ground (arith, a.3, client),
        )

    -- The key of the proxy chain never goes on to a machine: a request from the parent is forwarded
    -- without it, to the route of its host.
    pub handle_request-parent :
        handle_request host_of_addr parse_url p sel w now req db limits
          ≡ some (proxied d' req', limits')
        → is_from_parent host_of_addr parse_url p req ≡ true
        → (get_by_name (lookup_host req) db ≡ some d') × (get psk_header req'.headers ≡ none)
    handle_request-parent h parent =
        let proto = request_proto host_of_addr parse_url p req in
        let a = handle-answer h in
        (a.0, ground (arith, a.1, parent, parent_headers host_of_addr parse_url p d' proto req))
