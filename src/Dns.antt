-- ===== src/Dns.antt =====
-- The DNS providers: providers/dns.
pub mod Calls
pub mod Client
pub mod Triples
pub mod Cloudflare
pub mod Texts
pub mod Route53
pub mod Googlecloud
pub mod Digitalocean
