-- ===== src/Proxy/Requests/Forwarded.antt =====
-- The headers of a request that is forwarded.
use mulch.Prelude.{ℕ, ◌≡◌, Bool, true, false, ◌&&◌, Option, none, some, arith, if◌then◌else◌, ◌==◌}
use mulch.Text.{Str, lit, str_eq, str_beq}
use mulch.Text.Words.{is_nil}
use mulch.GoMap.{Map, get, put, remove}
use mulch.GoMap.Laws.{get-put, get-remove}
use mulch.Domain.{Domain}
use mulch.Proxy.Rates.{Select, Wait}
use mulch.Proxy.Rates.Steps.{Server}
use mulch.Proxy.Requests.{
  Params, HttpRequest, psk_header, proto_header, real_ip_header, forwarded_for_header, client_ip,
  with_psk, with_real_ip, with_forwarded_for, forwarded_headers, forwarded, serve_reverse_proxy,
  answer, after_limit, limit_request, proxied,
}

get-put_header :
    (a b v : Str) (h : Map Str Str) → get b (put a v h) ≡ (if a == b then some v else get b h)
get-put_header a b v h = get-put a b v h

get-remove_header :
    (a b : Str) (h : Map Str Str) → get b (remove a h) ≡ (if a == b then none else get b h)
get-remove_header a b h = get-remove a b h

module _ (host_of_addr : Str → Option Str) (parse_url : Str → Option (Str × Str)) (p : Params) where
  module _ (d : Domain) (proto : Str) (req : HttpRequest) where
    pub client_headers :
        let h = forwarded_headers host_of_addr parse_url p d proto false req in
        (get real_ip_header h ≡ some (client_ip host_of_addr parse_url p req))
        × (get proto_header h ≡ some proto)
    unfolding forwarded_headers with_forwarded_for with_real_ip with_psk str_beq
    client_headers =
        let ip = client_ip host_of_addr parse_url p req in
        let h0 = put proto_header proto req.headers in
        let h1 = with_psk host_of_addr parse_url p d h0 in
        let h2 = put real_ip_header ip h1 in
        (
          ground (
            arith,
            get-put_header forwarded_for_header real_ip_header ip h2,
            get-put_header real_ip_header real_ip_header ip h1,
          ),
          ground (
            arith,
            get-put_header forwarded_for_header proto_header ip h2,
            get-put_header real_ip_header proto_header ip h1,
            get-put_header psk_header proto_header p.chain_psk h0,
            get-put_header proto_header proto_header proto req.headers,
          ),
        )

    pub parent_headers :
        get psk_header (forwarded_headers host_of_addr parse_url p d proto true req) ≡ none
    unfolding forwarded_headers with_forwarded_for with_real_ip str_beq
    parent_headers =
        let h1 = with_psk host_of_addr parse_url p d (put proto_header proto req.headers) in
        ground (arith, get-remove_header psk_header psk_header h1)

    pub serve-proxied :
        (from_parent : Bool) (d' : Domain) (req' : HttpRequest)
        → answer host_of_addr parse_url p d proto from_parent req ≡ proxied d' req'
        → (d' ≡ d)
          × (req'.headers ≡ forwarded_headers host_of_addr parse_url p d proto from_parent req)
          × (is_nil d.redirect_to ≡ true)
          × (((proto == lit "http") && d.redirect_to_https) ≡ false)
    unfolding answer serve_reverse_proxy forwarded
    serve-proxied from_parent d' req' h = ground arith

  module _ (sel : Select) (w : Wait) (now : ℕ) (req : HttpRequest) (limits limits' : Map Str Server)
      (d' : Domain) (req' : HttpRequest) where
    pub limit-proxied :
        (d : Domain) (proto profile : Str) (o : Option Server)
        → limit_request host_of_addr parse_url p sel w now d proto req limits profile o
          ≡ some (proxied d' req', limits')
        → answer host_of_addr parse_url p d proto false req ≡ proxied d' req'
    unfolding limit_request after_limit
    limit-proxied d proto profile none h = ground arith
    limit-proxied d proto profile (some s) h = ground arith
