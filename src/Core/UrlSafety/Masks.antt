-- ===== src/Core/UrlSafety/Masks.antt =====
-- url_safety.rs: its masks on octets and segments, as ranges.
use ai_model_downloader.Base.{
  nat_eq, string_eq, ℕ, zero, suc, ◌+◌, ◌<◌, ◌≡◌, refl, sym, subst, Bool, true, false, not, ◌&&◌,
  arith, leb, ◌==◌, if◌then◌else◌,
}
use Prim.Native.Nat.{bit_and}

-- Whether a test passes at each of `n` numbers from `k` on.
passes : (ℕ → Bool) → ℕ → ℕ → Bool
passes test k zero = true
passes test k (suc n) = let later = passes test (suc k) n in if test k then later else false

passes-at : (test : ℕ → Bool) (k n i : ℕ) → i < n → passes test k n ≡ true → test (k + i) ≡ true
unfolding passes
passes-at test k zero i l h = absurd (omega arith)
passes-at test k (suc n) zero l h = let e : k + 0 ≡ k = omega arith in rw e (ground arith)
passes-at test k (suc n) (suc i) l h =
    let e : k + suc i ≡ suc k + i = omega arith in
    rw e (passes-at test (suc k) n i (omega arith) (ground arith))

abbrev same_bool : Bool → Bool → Bool
same_bool true b = b
same_bool false b = not b

same_bool-eq : (a b : Bool) → same_bool a b ≡ true → a ≡ b
same_bool-eq true b h = sym h
same_bool-eq false b h = ground arith

-- A mask that compares the high bits says that a number lies in a range.
abbrev agrees : ℕ → ℕ → ℕ → ℕ → Bool
agrees mask v last x = same_bool (bit_and x mask == v) (leb v x && leb x last)

read_table :
    (n mask v last x : ℕ)
    → passes (agrees mask v last) 0 n ≡ true
    → x < n
    → (bit_and x mask == v) ≡ (leb v x && leb x last)
read_table n mask v last x t h =
    let e : 0 + x ≡ x = omega arith in
    same_bool-eq _ _
      (subst (λ y. agrees mask v last y ≡ true) e (passes-at (agrees mask v last) 0 n x h t))

shared_table : passes (agrees 0xC0 0x40 0x7F) 0 256 ≡ true
unfolding passes
shared_table = refl

pub shared_space : (x : ℕ) → x < 256 → (bit_and x 0xC0 == 0x40) ≡ (leb 0x40 x && leb x 0x7F)
shared_space x h = read_table 256 0xC0 0x40 0x7F x shared_table h

multicast_table : passes (agrees 0xff00 0xff00 0xffff) 0 65536 ≡ true
unfolding passes
multicast_table = refl

unique_local_table : passes (agrees 0xfe00 0xfc00 0xfdff) 0 65536 ≡ true
unfolding passes
unique_local_table = refl

link_local_table : passes (agrees 0xffc0 0xfe80 0xfebf) 0 65536 ≡ true
unfolding passes
link_local_table = refl

site_local_table : passes (agrees 0xFFC0 0xFEC0 0xfeff) 0 65536 ≡ true
unfolding passes
site_local_table = refl

module _ (x : ℕ) (h : x < 65536) where
  pub multicast : (bit_and x 0xff00 == 0xff00) ≡ (leb 0xff00 x && leb x 0xffff)
  multicast = read_table 65536 0xff00 0xff00 0xffff x multicast_table h

  pub unique_local : (bit_and x 0xfe00 == 0xfc00) ≡ (leb 0xfc00 x && leb x 0xfdff)
  unique_local = read_table 65536 0xfe00 0xfc00 0xfdff x unique_local_table h

  pub link_local : (bit_and x 0xffc0 == 0xfe80) ≡ (leb 0xfe80 x && leb x 0xfebf)
  link_local = read_table 65536 0xffc0 0xfe80 0xfebf x link_local_table h

  pub site_local : (bit_and x 0xFFC0 == 0xFEC0) ≡ (leb 0xFEC0 x && leb x 0xfeff)
  site_local = read_table 65536 0xFFC0 0xFEC0 0xfeff x site_local_table h
