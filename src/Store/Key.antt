-- ===== src/Store/Key.antt =====
-- crates/tachyon-store/src/store.rs, safe_key and unsafe_key: the names of the files that hold the
-- values of the keys. A string is the list of its UTF-8 bytes. unsafe_key is modelled on ASCII names,
-- where a character is a byte, up to the final `from_utf8_lossy`.
mod Inverse
mod Examples
use ai_model_downloader.Base.{
  lookup, insert, remove, Eq, nat_eq, string_eq, lookup-insert, lookup-remove, ℕ, zero, suc, ◌+◌,
  ◌-◌, ◌*◌, ◌/◌, ◌%◌, ◌^◌, ◌≤◌, ◌<◌, min, max, ◌≡◌, refl, sym, ap, ◌∙◌, subst, ◌≢◌, ◌↔◌, ◌⊎◌, inl,
  inr, Bool, true, false, not, ◌&&◌, ◌||◌, Option, none, some, List, [], ◌∷◌, ◌++◌, map, arith,
  dec_lt, ℕ_discrete, ltb, leb, ◌==◌, if◌then◌else◌, ltb→lt, lt→ltb, leb→le, le→leb, ==_iff, lt→leb,
  ne→==, Bool-cases, Option-cases, u8, u32, u64, u64_max, checked_add, length, get_elem?, set, take,
  drop, length-append, length-drop, length-set, All,
}

abbrev pub percent : ℕ
percent = 37

abbrev between : ℕ → ℕ → ℕ → Bool
between low high c = leb low c && leb c high

-- Letters, digits, `_` and `-`.
unfoldable pub is_safe : ℕ → Bool
is_safe c = (between 48 57 c || (between 65 90 c || between 97 122 c)) || (c == 95 || c == 45)

-- A digit of `{:02X}`.
unfoldable pub hex_digit : ℕ → ℕ
hex_digit n = if ltb n 10 then 48 + n else 55 + n

unfoldable pub safe_key : List ℕ → List ℕ
unfolding is_safe hex_digit
safe_key [] = []
safe_key (b ∷ bs) =
    let rest = safe_key bs in
    if is_safe b then b ∷ rest else percent ∷ hex_digit (b / 16) ∷ hex_digit (b % 16) ∷ rest

unfoldable pub hex_value : ℕ → Option ℕ
hex_value c =
    if between 48 57 c
    then some (c - 48)
    else if between 65 70 c
    then some (c - 55)
    else if between 97 102 c
    then some (c - 87)
    else none

abbrev join_digits : Option ℕ → Option ℕ → Option ℕ
join_digits none lo = none
join_digits (some hi) none = none
join_digits (some hi) (some lo) = some (hi * 16 + lo)

-- `u8::from_str_radix` on two characters; it takes a leading `+`.
unfoldable pub from_hex : ℕ → ℕ → Option ℕ
unfolding hex_value
from_hex c d = if c == 43 then hex_value d else join_digits (hex_value c) (hex_value d)

abbrev decoded : Option ℕ → ℕ → ℕ → List ℕ → List ℕ
decoded none c d rest = percent ∷ c ∷ d ∷ rest
decoded (some b) c d rest = b ∷ rest

-- A `%` takes the two characters after it, or what there is of them.
unfoldable pub unsafe_key : List ℕ → List ℕ
unfolding from_hex
unsafe_key [] = []
unsafe_key (c ∷ []) = c ∷ []
unsafe_key (c ∷ d ∷ []) = c ∷ d ∷ []
unsafe_key (c ∷ d ∷ e ∷ cs) =
    let plain = unsafe_key (d ∷ e ∷ cs) in
    let rest = unsafe_key cs in if c == percent then decoded (from_hex d e) d e rest else c ∷ plain
