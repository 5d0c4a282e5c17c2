-- ===== src/Core/UrlSafety/Blocks6.antt =====
-- url_safety.rs: the IPv6 addresses that are refused, as blocks.
use ai_model_downloader.Base.{
  nat_eq, string_eq, ℕ, ◌+◌, ◌*◌, ◌/◌, ◌%◌, ◌<◌, ◌≡◌, refl, ap, subst, ◌≢◌, ◌↔◌, ◌⊎◌, inl, inr,
  Bool, true, false, ◌&&◌, none, some, arith, ◌==◌, Bool-cases,
}
use ai_model_downloader.Core.Error.{ok}
use ai_model_downloader.Core.UrlSafety.{
  Ipv4Addr, Ipv6Addr, IpAddr, five_zero, is_low, to_ipv4_mapped, reject_unmapped,
  reject_forbidden_ipv4, reject_forbidden_ipv6, reject_forbidden_ip, reject_either,
}
use ai_model_downloader.Core.UrlSafety.Blocks.{IsPublic, number, reject_forbidden_ipv4-IsPublic}
use ai_model_downloader.Core.UrlSafety.Masks.{multicast, unique_local, link_local, site_local}

-- The 96 high bits and the 32 low bits of an address.
abbrev pub high : Ipv6Addr → ℕ
high ip =
    ((((ip.s0 * 65536 + ip.s1) * 65536 + ip.s2) * 65536 + ip.s3) * 65536 + ip.s4) * 65536 + ip.s5

abbrev pub low : Ipv6Addr → ℕ
low ip = ip.s6 * 65536 + ip.s7

-- In ::ffff:0:0/96 the low bits are a public IPv4 address; elsewhere the address is outside ::/127,
-- fc00::/7, fe80::/10, fec0::/10 and ff00::/8.
pub record IsPublic6 (ip : Ipv6Addr) : Type 0 where
  pub mapped : high ip ≡ 0xffff → IsPublic (low ip)
  pub not_low : high ip ≡ 0 → 1 < low ip
  pub not_local : (ip.s0 < 0xfc00) ⊎ ((0xfdff < ip.s0) × (ip.s0 < 0xfe80))

pub record Segments (ip : Ipv6Addr) : Type 0 where
  pub b0 : ip.s0 < 65536
  pub b1 : ip.s1 < 65536
  pub b2 : ip.s2 < 65536
  pub b3 : ip.s3 < 65536
  pub b4 : ip.s4 < 65536
  pub b5 : ip.s5 < 65536
  pub b6 : ip.s6 < 65536
  pub b7 : ip.s7 < 65536

module _ (ip : Ipv6Addr) (b : Segments ip) where
  embedded : Ipv4Addr
  embedded = record { o0 = ip.s6 / 256; o1 = ip.s6 % 256; o2 = ip.s7 / 256; o3 = ip.s7 % 256 }

  abbrev is_mapped : Bool
  is_mapped = five_zero ip && ip.s5 == 0xffff

  embedded-number : number embedded ≡ low ip
  unfolding embedded
  embedded-number = omega arith

  embedded-IsPublic : (reject_forbidden_ipv4 embedded ≡ ok tt) ↔ IsPublic (low ip)
  unfolding embedded
  embedded-IsPublic =
      subst (λ n. (reject_forbidden_ipv4 embedded ≡ ok tt) ↔ IsPublic n) embedded-number
        (reject_forbidden_ipv4-IsPublic embedded (omega (arith, b.b6)) (omega arith)
          (omega (arith, b.b7)) (omega arith))

  mapped-high : is_mapped ≡ true → high ip ≡ 0xffff
  mapped-high h = ground arith

  high-mapped : is_mapped ≡ false → high ip ≢ 0xffff
  high-mapped h = ground (arith, b.b1, b.b2, b.b3, b.b4, b.b5)

  first_zero : is_mapped ≡ true → ip.s0 ≡ 0
  first_zero h = ground arith

  low-is_low : (is_low ip ≡ false) ↔ (high ip ≡ 0 → 1 < low ip)
  low-is_low = (λ h. λ z. ground arith, λ h. ground (arith, b.b7))

  unmapped_sound :
      reject_unmapped ip ≡ ok tt
      → (is_low ip ≡ false) × ((ip.s0 < 0xfc00) ⊎ ((0xfdff < ip.s0) × (ip.s0 < 0xfe80)))
  unfolding reject_unmapped
  unmapped_sound h = ground (
    arith,
    b.b0,
    multicast ip.s0 b.b0,
    unique_local ip.s0 b.b0,
    link_local ip.s0 b.b0,
    site_local ip.s0 b.b0,
  )

  unmapped_complete :
      is_low ip ≡ false
      → (ip.s0 < 0xfc00) ⊎ ((0xfdff < ip.s0) × (ip.s0 < 0xfe80))
      → reject_unmapped ip ≡ ok tt
  unfolding reject_unmapped
  unmapped_complete h k = rw h (
      ground (
        arith,
        multicast ip.s0 b.b0,
        unique_local ip.s0 b.b0,
        link_local ip.s0 b.b0,
        site_local ip.s0 b.b0,
      ))

  embeds : is_mapped ≡ true → to_ipv4_mapped ip ≡ some embedded
  unfolding to_ipv4_mapped embedded
  embeds m = rw m refl

  embeds_none : is_mapped ≡ false → to_ipv4_mapped ip ≡ none
  unfolding to_ipv4_mapped
  embeds_none m = rw m refl

  mapped_lem : is_mapped ≡ true → reject_forbidden_ipv6 ip ≡ reject_forbidden_ipv4 embedded
  unfolding reject_forbidden_ipv6
  mapped_lem m = ap (λ o. reject_either o ip) (embeds m)

  unmapped_lem : is_mapped ≡ false → reject_forbidden_ipv6 ip ≡ reject_unmapped ip
  unfolding reject_forbidden_ipv6
  unmapped_lem m = ap (λ o. reject_either o ip) (embeds_none m)

  ipv6_iff : (reject_forbidden_ipv6 ip ≡ ok tt) ↔ IsPublic6 ip
  ipv6_iff = elim (Bool-cases is_mapped) [
    | inl m ↦ rw (mapped_lem m) (
      λ h. record {
        mapped = λ e. embedded-IsPublic.0 h;
        not_low = λ z. absurd (omega (arith, mapped-high m));
        not_local = inl (omega (arith, first_zero m));
      },
      λ p. embedded-IsPublic.1 (p.mapped (mapped-high m)),
    )
    | inr m ↦ rw (unmapped_lem m) (
      λ h. record {
        mapped = λ e. absurd (high-mapped m e);
        not_low = low-is_low.0 (unmapped_sound h).0;
        not_local = (unmapped_sound h).1;
      },
      λ p. unmapped_complete (low-is_low.1 p.not_low) p.not_local,
    )
  ]

-- The octets of an IPv4 address are bytes, the segments of an IPv6 address 16-bit words.
abbrev pub IsAddress : IpAddr → Type 0
IsAddress (IpAddr.v4 ip) = (ip.o0 < 256) × (ip.o1 < 256) × (ip.o2 < 256) × (ip.o3 < 256)
IsAddress (IpAddr.v6 ip) = Segments ip

abbrev pub IsAllowed : IpAddr → Type 0
IsAllowed (IpAddr.v4 ip) = IsPublic (number ip)
IsAllowed (IpAddr.v6 ip) = IsPublic6 ip

-- An address is accepted exactly when it is allowed: an IPv4 address that lies in none of the special
-- blocks (loopback, private, link-local, unspecified, multicast, reserved, shared, documentation,
-- benchmark, IETF), read as ranges of 32-bit numbers; an IPv6 address outside ::/127, fc00::/7,
-- fe80::/10, fec0::/10 and ff00::/8 that, if it is an IPv4-mapped one, embeds such an IPv4 address.
pub reject_forbidden_ip-IsAllowed :
    (ip : IpAddr) → IsAddress ip → (reject_forbidden_ip ip ≡ ok tt) ↔ IsAllowed ip
unfolding reject_forbidden_ip
reject_forbidden_ip-IsAllowed (IpAddr.v4 ip) (a, b, c, d) =
    reject_forbidden_ipv4-IsPublic ip a b c d
reject_forbidden_ip-IsAllowed (IpAddr.v6 ip) b = ipv6_iff ip b
