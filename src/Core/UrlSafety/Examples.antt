-- ===== src/Core/UrlSafety/Examples.antt =====
-- Addresses and redirects of url_safety.rs.
use ai_model_downloader.Base.{
  nat_eq, string_eq, ℕ, ◌<◌, ◌≡◌, refl, ◌↔◌, Option, none, some, List, [], ◌∷◌, arith, length, All,
  Texts,
}
use ai_model_downloader.Core.Error.{DownloadError, ok, err}
use ai_model_downloader.Core.UrlSafety.{
  Url, IpAddr, Ipv6Addr, is_localhost, check_each, validate_resolved_ip, validate_redirect,
  validate_public_http_url, reject_forbidden_ip, reject_forbidden_ipv4, reject_forbidden_ipv6,
  to_ipv4_mapped,
}
use ai_model_downloader.Core.UrlSafety.Blocks6.{IsAllowed, reject_forbidden_ip-IsAllowed}
use ai_model_downloader.Core.UrlSafety.Redirect.{IsPlain, validate_redirect-IsAllowed}

abbrev example_ip : IpAddr
example_ip = IpAddr.v4 (record { o0 = 93; o1 = 184; o2 = 216; o3 = 34 })

abbrev mapped_private : Ipv6Addr
mapped_private = record { s0 = 0; s1 = 0; s2 = 0; s3 = 0; s4 = 0; s5 = 0xffff; s6 = 2560; s7 = 1 }

refuses_mapped : reject_forbidden_ip (IpAddr.v6 mapped_private) ≡ err DownloadError.config
unfolding reject_forbidden_ip reject_forbidden_ipv6 to_ipv4_mapped reject_forbidden_ipv4
refuses_mapped = refl

reject_forbidden_ip-IsAllowed_example :
    (reject_forbidden_ip (IpAddr.v6 mapped_private) ≡ ok tt) ↔ IsAllowed (IpAddr.v6 mapped_private)
reject_forbidden_ip-IsAllowed_example =
    reject_forbidden_ip-IsAllowed (IpAddr.v6 mapped_private) (omega arith)

abbrev example_host : Texts
example_host = b'e' ∷ b'x' ∷ b'.' ∷ b'i' ∷ b'o' ∷ []

abbrev example_url : Url
example_url = record {
  scheme = "https";
  username = [];
  password = none;
  host_str = some example_host;
  port_or_known_default = some 443;
}

abbrev no_literal : Texts → Option IpAddr
no_literal host = none

abbrev one_address : Texts → ℕ → Option (List IpAddr)
one_address host port = some (example_ip ∷ [])

followed : validate_redirect no_literal one_address example_url 10 3 ≡ ok (example_ip ∷ [])
unfolding validate_redirect validate_public_http_url validate_resolved_ip check_each
    reject_forbidden_ip reject_forbidden_ipv4 is_localhost
followed = refl

validate_redirect-IsAllowed_example :
    (3 < 10)
    × IsPlain example_url
    × (0 < length (example_ip ∷ []))
    × All IsAllowed (example_ip ∷ [])
validate_redirect-IsAllowed_example =
    validate_redirect-IsAllowed no_literal one_address example_url 10 3 (example_ip ∷ [])
      ((omega arith), tt) followed
