-- ===== src/Proxy.antt =====
-- cmd/mulch-proxy: the reverse proxy, its routes and its limits on the rate of requests.
pub mod Domains
pub mod Rates
pub mod Ports
pub mod Requests
