-- ===== src/Core/UrlSafety.antt =====
-- crates/tachyon-core/src/url_safety.rs. A text is the list of its characters' codes; a URL is what the
-- crate `url` answers about it, and parsing and resolving a host are arguments.
mod Masks
mod Blocks
mod Blocks6
mod Redirect
mod Examples
use Prim.Native.String.{String}
use Prim.Native.Nat.{bit_and}
use ai_model_downloader.Base.{
  lookup, insert, remove, Eq, nat_eq, string_eq, lookup-insert, lookup-remove, ℕ, zero, suc, ◌+◌,
  ◌-◌, ◌*◌, ◌/◌, ◌%◌, ◌^◌, ◌≤◌, ◌<◌, min, max, ◌≡◌, refl, sym, ap, ◌∙◌, subst, ◌≢◌, ◌↔◌, ◌⊎◌, inl,
  inr, Bool, true, false, not, ◌&&◌, ◌||◌, Option, none, some, List, [], ◌∷◌, ◌++◌, map, arith,
  dec_lt, ℕ_discrete, ltb, leb, ◌==◌, if◌then◌else◌, ltb→lt, lt→ltb, leb→le, le→leb, ==_iff, lt→leb,
  ne→==, Bool-cases, Option-cases, u8, u32, u64, u64_max, checked_add, length, get_elem?, set, take,
  drop, length-append, length-drop, length-set, All, Texts, codes, is_empty, is_some, same_text,
  to_lower, trim_start, trim_onto, trim_end, extend, before_last,
}
use ai_model_downloader.Core.Error.{DownloadError, DownloadResult, ok, err, panic, ◌>>=◌}

pub record Ipv4Addr : Type 0 where
  pub o0 : ℕ
  pub o1 : ℕ
  pub o2 : ℕ
  pub o3 : ℕ

pub record Ipv6Addr : Type 0 where
  pub s0 : ℕ
  pub s1 : ℕ
  pub s2 : ℕ
  pub s3 : ℕ
  pub s4 : ℕ
  pub s5 : ℕ
  pub s6 : ℕ
  pub s7 : ℕ

pub data IpAddr : Type 0 where
  v4 : Ipv4Addr → IpAddr
  v6 : Ipv6Addr → IpAddr

abbrev pub is_private : Ipv4Addr → Bool
is_private ip =
    ip.o0 == 10
    || (ip.o0 == 172 && (leb 16 ip.o1 && leb ip.o1 31) || (ip.o0 == 192 && ip.o1 == 168))

abbrev pub is_unspecified : Ipv4Addr → Bool
is_unspecified ip = ip.o0 == 0 && (ip.o1 == 0 && (ip.o2 == 0 && ip.o3 == 0))

-- Loopback, private, link-local, unspecified and the address of cloud metadata.
abbrev pub is_local : Ipv4Addr → Bool
is_local ip =
    ip.o0 == 127
    || (is_private ip
        || (ip.o0 == 169 && ip.o1 == 254
            || (is_unspecified ip
                || (ip.o0 == 169 && (ip.o1 == 254 && (ip.o2 == 169 && ip.o3 == 254))))))

abbrev pub in_24 : ℕ → ℕ → ℕ → Ipv4Addr → Bool
in_24 a b c ip = ip.o0 == a && (ip.o1 == b && ip.o2 == c)

unfoldable pub reject_forbidden_ipv4 : Ipv4Addr → DownloadResult (Unit {0})
reject_forbidden_ipv4 ip =
    if is_local ip
    then err DownloadError.config
    else if leb 224 ip.o0
    then err DownloadError.config
    else if ip.o0 == 100 && bit_and ip.o1 0xC0 == 0x40
    then err DownloadError.config
    else if in_24 192 0 2 ip || (in_24 198 51 100 ip || in_24 203 0 113 ip)
    then err DownloadError.config
    else if ip.o0 == 198 && (ip.o1 == 18 || ip.o1 == 19)
    then err DownloadError.config
    else if in_24 192 0 0 ip
    then err DownloadError.config
    else ok tt

-- The segments that `to_ipv4_mapped`, `is_loopback` and `is_unspecified` want to be zero.
abbrev pub five_zero : Ipv6Addr → Bool
five_zero ip = ip.s0 == 0 && (ip.s1 == 0 && (ip.s2 == 0 && (ip.s3 == 0 && ip.s4 == 0)))

unfoldable pub to_ipv4_mapped : Ipv6Addr → Option Ipv4Addr
to_ipv4_mapped ip =
    if five_zero ip && ip.s5 == 0xffff
    then some (record { o0 = ip.s6 / 256; o1 = ip.s6 % 256; o2 = ip.s7 / 256; o3 = ip.s7 % 256 })
    else none

-- Loopback or unspecified.
abbrev pub is_low : Ipv6Addr → Bool
is_low ip = five_zero ip && (ip.s5 == 0 && (ip.s6 == 0 && leb ip.s7 1))

unfoldable pub reject_unmapped : Ipv6Addr → DownloadResult (Unit {0})
reject_unmapped ip =
    if is_low ip
      || (bit_and ip.s0 0xff00 == 0xff00
          || (bit_and ip.s0 0xfe00 == 0xfc00 || bit_and ip.s0 0xffc0 == 0xfe80))
    then err DownloadError.config
    else if bit_and ip.s0 0xFFC0 == 0xFEC0
    then err DownloadError.config
    else ok tt

abbrev pub reject_either : Option Ipv4Addr → Ipv6Addr → DownloadResult (Unit {0})
reject_either (some mapped) ip = reject_forbidden_ipv4 mapped
reject_either none ip = reject_unmapped ip

unfoldable pub reject_forbidden_ipv6 : Ipv6Addr → DownloadResult (Unit {0})
reject_forbidden_ipv6 ip = reject_either (to_ipv4_mapped ip) ip

unfoldable pub reject_forbidden_ip : IpAddr → DownloadResult (Unit {0})
reject_forbidden_ip (IpAddr.v4 ip) = reject_forbidden_ipv4 ip
reject_forbidden_ip (IpAddr.v6 ip) = reject_forbidden_ipv6 ip

-- What the crate `url` answers about a parsed URL.
pub record Url : Type 0 where
  pub scheme : String
  pub username : List ℕ
  pub password : Option (List ℕ)
  pub host_str : Option (List ℕ)
  pub port_or_known_default : Option ℕ

abbrev pub localhost : Texts
localhost = b'l' ∷ b'o' ∷ b'c' ∷ b'a' ∷ b'l' ∷ b'h' ∷ b'o' ∷ b's' ∷ b't' ∷ []

-- `eq_ignore_ascii_case("localhost")`.
unfoldable pub is_localhost : Texts → Bool
is_localhost host = same_text (map to_lower host) localhost

abbrev pub is_http : String → Bool
is_http scheme = string_eq.beq scheme "http" || string_eq.beq scheme "https"

-- The loop over the addresses of a host.
unfoldable pub check_each : List IpAddr → DownloadResult (List IpAddr)
check_each [] = ok []
check_each (ip ∷ ips) =
    let rest = check_each ips in
    reject_forbidden_ip ip >>= (λ _. rest >>= (λ checked. ok (ip ∷ checked)))

abbrev pub some_ip : List IpAddr → DownloadResult (List IpAddr)
some_ip [] = err DownloadError.network
some_ip (ip ∷ ips) = ok (ip ∷ ips)

abbrev pub or_443 : Option ℕ → ℕ
or_443 (some p) = p
or_443 none = 443

abbrev pub check_answer : Option (List IpAddr) → DownloadResult (List IpAddr)
check_answer none = err DownloadError.network
check_answer (some ips) = check_each ips >>= some_ip

abbrev pub check_literal : Option IpAddr → DownloadResult (Unit {0})
check_literal (some ip) = reject_forbidden_ip ip
check_literal none = ok tt

-- `str::parse::<IpAddr>`, and `to_socket_addrs` of a host and a port, `none` where it fails.
module _ (parse_ip : Texts → Option IpAddr) (resolve : Texts → ℕ → Option (List IpAddr)) where
  abbrev pub check_host : Option Texts → DownloadResult (Unit {0})
  check_host none = err DownloadError.config
  check_host (some host) =
      let name = trim_end b'.' host in
      if is_localhost name then err DownloadError.config else check_literal (parse_ip name)

  unfoldable pub validate_public_http_url : Url → DownloadResult (Unit {0})
  validate_public_http_url url =
      if not (is_http url.scheme)
      then err DownloadError.config
      else if not (is_empty url.username) || is_some url.password
      then err DownloadError.config
      else check_host url.host_str

  abbrev pub resolve_name : Option IpAddr → Texts → ℕ → DownloadResult (List IpAddr)
  resolve_name (some ip) host port = reject_forbidden_ip ip >>= (λ _. ok (ip ∷ []))
  resolve_name none host port = check_answer (resolve host port)

  abbrev pub resolve_host : Option Texts → Option ℕ → DownloadResult (List IpAddr)
  resolve_host none port = err DownloadError.config
  resolve_host (some host) port = resolve_name (parse_ip host) host (or_443 port)

  unfoldable pub validate_resolved_ip : Url → DownloadResult (List IpAddr)
  validate_resolved_ip url = resolve_host url.host_str url.port_or_known_default

  unfoldable pub validate_redirect : Url → ℕ → ℕ → DownloadResult (List IpAddr)
  validate_redirect url max_redirects current_redirect =
      if leb max_redirects current_redirect
      then err DownloadError.protocol
      else (validate_public_http_url url >>= (λ _. validate_resolved_ip url))
