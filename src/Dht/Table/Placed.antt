-- ===== src/Dht/Table/Placed.antt =====
-- node.rs and kbucket.rs: the bucket of a distance.
use ai_model_downloader.Base.{
  nat_eq, string_eq, ℕ, zero, suc, ◌+◌, ◌-◌, ◌*◌, ◌/◌, ◌%◌, ◌^◌, ◌≤◌, ◌<◌, ◌≡◌, refl, sym, ap, ◌∙◌,
  subst, ◌↔◌, inl, inr, none, some, arith, ◌==◌, ==_iff, lt→leb, Bool-cases, some-eq,
}
use native.Mathlib.Nat.{
  pow-le-pow_right, mul-le-mul_left, mul-div-le, lt-mul-div-succ, div-lt_iff_lt-mul, mod-eq_of_lt,
}
use ai_model_downloader.Dht.Table.{byte_zeros, zeros_from, index_of, leading_zeros, xor_distance}

byte_zeros_range :
    (b : ℕ)
    → b < 256
    → 0 < b
    → (b < 2 ^ (8 - byte_zeros b)) × (2 ^ (7 - byte_zeros b) ≤ b) × (byte_zeros b ≤ 7)
unfolding byte_zeros
byte_zeros_range b h p = ground arith

two_pow_suc : (n : ℕ) → 2 ^ suc n ≡ 2 * 2 ^ n
two_pow_suc n = omega arith

big_pow_suc : (n : ℕ) → 256 ^ suc n ≡ 256 * 256 ^ n
big_pow_suc n = omega arith

two_pow_add : (m n : ℕ) → 2 ^ (m + n) ≡ 2 ^ m * 2 ^ n
two_pow_add zero n = let e : 0 + n ≡ n = omega arith in rw e (omega arith)
two_pow_add (suc m) n =
    let e : suc m + n ≡ suc (m + n) = omega arith in
    rw e (grind (arith, two_pow_add m n, two_pow_suc (m + n), two_pow_suc m))

pow_bits : (k : ℕ) → 256 ^ k ≡ 2 ^ (8 * k)
pow_bits zero = omega arith
pow_bits (suc k) =
    let e : 8 * suc k ≡ 8 + 8 * k = omega arith in
    rw e (omega (arith, two_pow_add 8 (8 * k), big_pow_suc k, pow_bits k))

two_pow_pos : (n : ℕ) → 0 < 2 ^ n
two_pow_pos zero = omega arith
two_pow_pos (suc n) = omega (arith, two_pow_pos n)

-- A number of k bytes whose high byte is not zero.
high_byte :
    (k d : ℕ)
    → d < 256 ^ suc k
    → 0 < d / 256 ^ k
    → (d / 256 ^ k < 256)
      × (256 ^ k * 2 ^ (7 - byte_zeros (d / 256 ^ k)) ≤ d)
      × (d < 256 ^ k * 2 ^ (8 - byte_zeros (d / 256 ^ k)))
high_byte k d h p =
    let pos : 0 < 256 ^ k = omega (arith, pow_bits k, two_pow_pos (8 * k)) in
    let small : d / 256 ^ k < 256 = (div-lt_iff_lt-mul pos).1 (omega (arith, big_pow_suc k)) in
    let (up, low, _) = byte_zeros_range (d / 256 ^ k) small p in
    (
      small,
      omega (arith, mul-le-mul_left (256 ^ k) low, mul-div-le d (256 ^ k)),
      omega (arith, mul-le-mul_left (256 ^ k) up, lt-mul-div-succ d pos),
    )

-- The index of a distance of k bytes that is not zero names its highest bit.
abbrev Places : ℕ → ℕ → Type 0
Places d z = (z < 160) × (2 ^ (159 - z) ≤ d) × (d < 2 ^ (160 - z))

-- The place of the high byte's highest bit.
high_byte-Places :
    (k d : ℕ)
    → k ≤ 19
    → d < 256 ^ suc k
    → 0 < d / 256 ^ k
    → Places d ((19 - k) * 8 + byte_zeros (d / 256 ^ k))
high_byte-Places k d h l p =
    let (small, low, up) = high_byte k d l p in
    let (_, _, most) = byte_zeros_range (d / 256 ^ k) small p in
    let z = byte_zeros (d / 256 ^ k) in
    let e : 159 - ((19 - k) * 8 + z) ≡ 8 * k + (7 - z) = omega arith in
    let e' : 160 - ((19 - k) * 8 + z) ≡ 8 * k + (8 - z) = omega arith in
    (
      omega arith,
      rw e (rw (two_pow_add (8 * k) (7 - z)) (rw (← pow_bits k) low)),
      rw e' (rw (two_pow_add (8 * k) (8 - z)) (rw (← pow_bits k) up)),
    )

below_byte : (k d : ℕ) → d < 256 ^ suc k → d / 256 ^ k < 256
below_byte k d l =
    (div-lt_iff_lt-mul (omega (arith, pow_bits k, two_pow_pos (8 * k)))).1
      (omega (arith, big_pow_suc k))

no_byte : (k d : ℕ) → d / 256 ^ k ≡ 0 → d < 256 ^ k
no_byte k d e =
    let l = lt-mul-div-succ d {b = 256 ^ k} (omega (arith, pow_bits k, two_pow_pos (8 * k))) in
    let l' : d < 256 ^ k * 1 = subst (λ q. d < 256 ^ k * (q + 1)) e l in omega arith

zeros_from-Places : (k d : ℕ) → k ≤ 20 → d < 256 ^ k → 0 < d → Places d (zeros_from k d)
unfolding zeros_from
zeros_from-Places zero d h l p = absurd (omega arith)
zeros_from-Places (suc k) d h l p =
    let whole : d / 256 ^ k % 256 ≡ d / 256 ^ k = mod-eq_of_lt (below_byte k d l) in
    rw whole (elim (Bool-cases (d / 256 ^ k == 0)) [
      | inl e ↦
          rw e (zeros_from-Places k d (omega arith) (no_byte k d ((==_iff (d / 256 ^ k) 0).0 e)) p)
      | inr e ↦ rw e (high_byte-Places k d (omega arith) l (ground arith))
    ])

leading_zeros-zero : leading_zeros 0 ≡ 160
unfolding leading_zeros zeros_from
leading_zeros-zero = refl

-- Two powers of two that bound one number are the same.
same_power : (i j d : ℕ) → 2 ^ i ≤ d → d < 2 ^ (i + 1) → 2 ^ j ≤ d → d < 2 ^ (j + 1) → ¬ (i < j)
same_power i j d a b p q h =
    let m : 2 ^ (i + 1) ≤ 2 ^ j = pow-le-pow_right (omega arith) (omega arith) in omega arith

module _ (local remote : ℕ) (near : xor_distance local remote < 256 ^ 20) where
  index_of_far :
      0 < xor_distance local remote
      → let i = 159 - leading_zeros (xor_distance local remote) in
        (index_of local remote ≡ some i)
        × (i < 160)
        × (2 ^ i ≤ xor_distance local remote)
        × (xor_distance local remote < 2 ^ (i + 1))
  unfolding index_of leading_zeros
  index_of_far p =
      let (below, low, up) =
        zeros_from-Places 20 (xor_distance local remote) (omega arith) near p in
      let z = zeros_from 20 (xor_distance local remote) in
      let e : 160 - z ≡ 159 - z + 1 = omega arith in
      (
        rw (lt→leb z 160 below) refl,
        omega arith,
        low,
        subst (λ t. xor_distance local remote < 2 ^ t) e up,
      )

  index_of_self : xor_distance local remote ≡ 0 → index_of local remote ≡ none
  unfolding index_of
  index_of_self e = rw (e, leading_zeros-zero) refl

  abbrev IsPlace : ℕ → Type 0
  IsPlace i = (2 ^ i ≤ xor_distance local remote) × (xor_distance local remote < 2 ^ (i + 1))

  index_of_only : (i : ℕ) → IsPlace i → index_of local remote ≡ some i
  index_of_only i (a, b) =
      let (at, _, p, q) = index_of_far (omega (arith, two_pow_pos i)) in
      let j = 159 - leading_zeros (xor_distance local remote) in
      let le = same_power i j (xor_distance local remote) a b p q in
      let ge = same_power j i (xor_distance local remote) p q a b in at ∙ ap some (ground arith)

  index_of_found : (i : ℕ) → index_of local remote ≡ some i → (i < 160) × IsPlace i
  index_of_found i h = elim (Bool-cases (xor_distance local remote == 0)) [
    | inl e ↦ absurd (not_self ((==_iff (xor_distance local remote) 0).0 e))
    | inr e ↦
        let (at, a, b, c) = index_of_far (ground arith) in
        subst (λ j. (j < 160) × IsPlace j) (some-eq (sym at ∙ h)) (a, (b, c))
  ]
    where
      not_self : xor_distance local remote ≡ 0 → ⊥
      not_self e = let n = index_of_self e in cc

  -- The bucket of a node at a distance below 2^160 is that of the highest bit of the distance: bucket i
  -- exactly where the distance is at least 2^i and below 2^(i + 1).
  pub index_of_iff :
      (i : ℕ)
      → (index_of local remote ≡ some i)
        ↔ ((2 ^ i ≤ xor_distance local remote) × (xor_distance local remote < 2 ^ (i + 1)))
  index_of_iff i = (λ h. (index_of_found i h).1, index_of_only i)
