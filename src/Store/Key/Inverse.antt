-- ===== src/Store/Key/Inverse.antt =====
-- unsafe_key after safe_key, crates/tachyon-store/src/store.rs.
use ai_model_downloader.Base.{
  nat_eq, string_eq, ℕ, ◌/◌, ◌%◌, ◌<◌, ◌≤◌, ◌⊎◌, ◌≡◌, refl, ap, ◌∙◌, ◌≢◌, inl, inr, true, false,
  some, List, [], ◌∷◌, arith, ◌==◌, ne→==, Bool-cases, All,
}
use ai_model_downloader.Store.Key.{
  percent, is_safe, hex_digit, safe_key, hex_value, from_hex, decoded, unsafe_key,
}

hex_value-hex_digit : (n : ℕ) → n < 16 → hex_value (hex_digit n) ≡ some n
unfolding hex_value hex_digit
hex_value-hex_digit n h = ground arith

not_plus : (n : ℕ) → n < 16 → (hex_digit n == 43) ≡ false
unfolding hex_digit
not_plus n h = ground arith

from_hex_byte : (b : ℕ) → b < 256 → from_hex (hex_digit (b / 16)) (hex_digit (b % 16)) ≡ some b
unfolding from_hex
from_hex_byte b h =
    rw
      (
        not_plus (b / 16) (omega arith),
        hex_value-hex_digit (b / 16) (omega arith),
        hex_value-hex_digit (b % 16) (omega arith),
      )
      (ap some (omega arith))

safe_not_percent : (b : ℕ) → is_safe b ≡ true → b ≢ percent
unfolding is_safe
safe_not_percent b h e = ground arith

unsafe_key-plain : (c : ℕ) (cs : List ℕ) → c ≢ percent → unsafe_key (c ∷ cs) ≡ c ∷ unsafe_key cs
unfolding unsafe_key
unsafe_key-plain c [] n = refl
unsafe_key-plain c (d ∷ []) n = refl
unsafe_key-plain c (d ∷ e ∷ cs) n = rw (ne→== c percent n) refl

-- A digit, a letter, `_`, `-` or `%`.
abbrev pub Allowed : ℕ → Type 0
Allowed c =
    ((b'0' ≤ c) × (c ≤ b'9'))
    ⊎ (((b'A' ≤ c) × (c ≤ b'Z'))
        ⊎ (((b'a' ≤ c) × (c ≤ b'z')) ⊎ ((c ≡ b'_') ⊎ ((c ≡ b'-') ⊎ (c ≡ b'%')))))

safe-Allowed : (c : ℕ) → is_safe c ≡ true → Allowed c
unfolding is_safe
safe-Allowed c h = ground arith

digit-Allowed : (n : ℕ) → n < 16 → Allowed (hex_digit n)
unfolding hex_digit
digit-Allowed n h = ground arith

-- Every key, whatever its bytes, is read back from the name of its file, and that name has only
-- letters, digits, `_`, `-` and `%`.
pub unsafe_key-safe_key :
    (bytes : List ℕ)
    → All (λ b. b < 256) bytes
    → (unsafe_key (safe_key bytes) ≡ bytes) × All Allowed (safe_key bytes)
unfolding safe_key unsafe_key
unsafe_key-safe_key [] h = (refl, tt)
unsafe_key-safe_key (b ∷ bs) (h, hs) =
    let (back, allowed) = unsafe_key-safe_key bs hs in
    elim (Bool-cases (is_safe b)) [
      | inl s ↦ rw s (
        unsafe_key-plain b (safe_key bs) (safe_not_percent b s) ∙ ap (◌∷◌ b) back,
        (safe-Allowed b s, allowed),
      )
      | inr s ↦ rw s (
        ap (λ o. decoded o (hex_digit (b / 16)) (hex_digit (b % 16)) (unsafe_key (safe_key bs)))
              (from_hex_byte b h)
            ∙ ap (◌∷◌ b) back,
        (
          inr (inr (inr (inr (inr refl)))),
          (digit-Allowed (b / 16) (omega arith), (digit-Allowed (b % 16) (omega arith), allowed)),
        ),
      )
    ]
