-- ===== src/Core/UrlSafety/Blocks.antt =====
-- url_safety.rs: the addresses that are refused, as blocks.
use ai_model_downloader.Core.UrlSafety.Masks.{shared_space}
use ai_model_downloader.Base.{
  nat_eq, string_eq, ℕ, ◌+◌, ◌-◌, ◌*◌, ◌^◌, ◌<◌, ◌≡◌, refl, ◌↔◌, ◌⊎◌, false, ◌&&◌, ◌||◌, List, [],
  ◌∷◌, arith, leb, ◌==◌, All,
}
use ai_model_downloader.Core.Error.{ok}
use Prim.Native.Nat.{bit_and}
use ai_model_downloader.Core.UrlSafety.{
  Ipv4Addr, is_local, in_24, is_private, reject_forbidden_ipv4,
}

-- An address as a number of 32 bits.
abbrev pub address : ℕ → ℕ → ℕ → ℕ → ℕ
address a b c d = a * 16777216 + b * 65536 + c * 256 + d

-- The first and the last address of a CIDR block.
abbrev block : ℕ → ℕ → ℕ → ℕ → ℕ → ℕ × ℕ
block a b c d len = (address a b c d, address a b c d + 2 ^ (32 - len) - 1)

-- The blocks that the comments of the code and their RFCs name.
abbrev pub special_blocks : List (ℕ × ℕ)
special_blocks =
    block 127 0 0 0 8
    ∷ block 10 0 0 0 8
    ∷ block 172 16 0 0 12
    ∷ block 192 168 0 0 16
    ∷ block 169 254 0 0 16
    ∷ block 0 0 0 0 32
    ∷ block 224 0 0 0 4
    ∷ block 240 0 0 0 4
    ∷ block 100 64 0 0 10
    ∷ block 192 0 2 0 24
    ∷ block 198 51 100 0 24
    ∷ block 203 0 113 0 24
    ∷ block 198 18 0 0 15
    ∷ block 192 0 0 0 24
    ∷ []

abbrev pub number : Ipv4Addr → ℕ
number ip = address ip.o0 ip.o1 ip.o2 ip.o3

-- Outside every block.
abbrev pub IsPublic : ℕ → Type 0
IsPublic n = All (λ b. (n < b.0) ⊎ (b.1 < n)) special_blocks

module _ (ip : Ipv4Addr) (h0 : ip.o0 < 256) (h1 : ip.o1 < 256) (h2 : ip.o2 < 256)
    (h3 : ip.o3 < 256) where
  sound : reject_forbidden_ipv4 ip ≡ ok tt → IsPublic (number ip)
  unfolding reject_forbidden_ipv4
  sound h = ground (arith, shared_space ip.o1 h1)

  abbrev Apart : ℕ × ℕ → Type 0
  Apart b = (number ip < b.0) ⊎ (b.1 < number ip)

  not_private :
      Apart (block 10 0 0 0 8)
      → Apart (block 172 16 0 0 12)
      → Apart (block 192 168 0 0 16)
      → is_private ip ≡ false
  not_private a b c = ground arith

  not_local :
      Apart (block 127 0 0 0 8)
      → Apart (block 169 254 0 0 16)
      → Apart (block 0 0 0 0 32)
      → is_private ip ≡ false
      → is_local ip ≡ false
  not_local a b c p = rw p (ground arith)

  not_high : Apart (block 224 0 0 0 4) → Apart (block 240 0 0 0 4) → leb 224 ip.o0 ≡ false
  not_high a b = ground arith

  not_shared : Apart (block 100 64 0 0 10) → (ip.o0 == 100 && bit_and ip.o1 0xC0 == 0x40) ≡ false
  not_shared a = rw (shared_space ip.o1 h1) (ground arith)

  not_24 : (a b c : ℕ) → Apart (address a b c 0, address a b c 0 + 255) → in_24 a b c ip ≡ false
  not_24 a b c p = ground arith

  not_benchmark :
      Apart (block 198 18 0 0 15) → (ip.o0 == 198 && (ip.o1 == 18 || ip.o1 == 19)) ≡ false
  not_benchmark a = ground arith

  complete : IsPublic (number ip) → reject_forbidden_ipv4 ip ≡ ok tt
  unfolding reject_forbidden_ipv4
  complete
        (
          b127,
          (
            b10,
            (
              b172,
              (b192, (b169, (b0, (b224, (b240, (b100, (d1, (d2, (d3, (b198, (ietf, _))))))))))),
            ),
          ),
        ) =
      rw
        (
          not_local b127 b169 b0 (not_private b10 b172 b192),
          not_high b224 b240,
          not_shared b100,
          not_24 192 0 2 d1,
          not_24 198 51 100 d2,
          not_24 203 0 113 d3,
          not_benchmark b198,
          not_24 192 0 0 ietf,
        )
        refl

  pub reject_forbidden_ipv4-IsPublic : (reject_forbidden_ipv4 ip ≡ ok tt) ↔ IsPublic (number ip)
  reject_forbidden_ipv4-IsPublic = (sound, complete)
