-- ===== src/Core/Filename.antt =====
-- crates/tachyon-core/src/filename.rs: sanitize_filename. A text is the list of its characters' codes;
-- loops over an index are recursions on the characters that are left.
pub mod Extract
mod Safe
mod Examples
use ai_model_downloader.Base.{
  lookup, insert, remove, Eq, nat_eq, string_eq, lookup-insert, lookup-remove, ℕ, zero, suc, ◌+◌,
  ◌-◌, ◌*◌, ◌/◌, ◌%◌, ◌^◌, ◌≤◌, ◌<◌, min, max, ◌≡◌, refl, sym, ap, ◌∙◌, subst, ◌≢◌, ◌↔◌, ◌⊎◌, inl,
  inr, Bool, true, false, not, ◌&&◌, ◌||◌, Option, none, some, List, [], ◌∷◌, ◌++◌, map, arith,
  dec_lt, ℕ_discrete, ltb, leb, ◌==◌, if◌then◌else◌, ltb→lt, lt→ltb, leb→le, le→leb, ==_iff, lt→leb,
  ne→==, Bool-cases, Option-cases, some-eq, u8, u32, u64, u64_max, checked_add, length, get_elem?,
  set, take, drop, length-append, length-drop, length-set, All, Texts, codes, is_empty, is_some,
  same_text, to_lower, trim_start, trim_onto, trim_end, extend, before_last,
}

abbrev pub space : ℕ
space = 32

-- `char::is_whitespace`.
unfoldable pub is_whitespace : ℕ → Bool
is_whitespace c =
    (leb 9 c && leb c 13)
    || (c == space
        || (c == 0x85
            || (c == 0xA0
                || (c == 0x1680
                    || ((leb 0x2000 c && leb c 0x200A)
                        || (c == 0x2028
                            || (c == 0x2029 || (c == 0x202F || (c == 0x205F || c == 0x3000)))))))))

abbrev pub is_separator : ℕ → Bool
is_separator c = c == b'/' || c == b'\\'

unfoldable pub is_dangerous : ℕ → Bool
is_dangerous c =
    c == b'/'
    || (c == b'\\'
        || (c == b':'
            || (c == b'*'
                || (c == b'?' || (c == b'"' || (c == b'<' || (c == b'>' || c == b'|')))))))

-- Whether the characters that are left begin with a dot, and with the end of a path component.
abbrev pub ends_component : Texts → Bool
ends_component [] = true
ends_component (c ∷ cs) = c == space || is_separator c

abbrev pub starts_component : Option ℕ → Bool
starts_component none = true
starts_component (some last) = last == space

abbrev pub replaced : ℕ → ℕ
replaced c = if is_separator c then space else c

-- The first pass, after the last character that was put out: separators become spaces, and a component
-- `..` goes.
unfoldable pub first_pass : Option ℕ → Texts → Texts
first_pass last [] = []
first_pass last (c ∷ []) = replaced c ∷ []
first_pass last (c ∷ d ∷ ds) =
    let skipped = first_pass last ds in
    let kept = replaced c ∷ first_pass (some (replaced c)) (d ∷ ds) in
    if (c == b'.' && d == b'.') && (starts_component last && ends_component ds)
    then skipped
    else kept

unfoldable pub trim_first : Texts → Texts
trim_first [] = []
trim_first (c ∷ cs) = let rest = trim_first cs in if is_whitespace c then rest else c ∷ cs

abbrev pub trim_last_onto : ℕ → Texts → Texts
trim_last_onto c [] = if is_whitespace c then [] else c ∷ []
trim_last_onto c (d ∷ ds) = c ∷ d ∷ ds

unfoldable pub trim_last : Texts → Texts
trim_last [] = []
trim_last (c ∷ cs) = trim_last_onto c (trim_last cs)

-- `str::trim`.
unfoldable pub trim : Texts → Texts
trim t = trim_last (trim_first t)

unfoldable pub filtered : Texts → Texts
filtered [] = []
filtered (c ∷ cs) = let rest = filtered cs in if is_dangerous c then rest else c ∷ rest

abbrev pub add_word : Texts → List Texts → List Texts
add_word [] ws = ws
add_word (c ∷ cs) ws = (c ∷ cs) ∷ ws

abbrev pub split_char : ℕ → Texts × List Texts → Texts × List Texts
split_char c (w, ws) = if is_whitespace c then ([], add_word w ws) else (c ∷ w, ws)

-- The word that a text begins with, and the later ones.
unfoldable pub split_from : Texts → Texts × List Texts
split_from [] = ([], [])
split_from (c ∷ cs) = split_char c (split_from cs)

unfoldable pub split_whitespace : Texts → List Texts
split_whitespace t = let (w, ws) = split_from t in add_word w ws

unfoldable pub all_dots : Texts → Bool
all_dots [] = true
all_dots (c ∷ cs) = c == b'.' && all_dots cs

unfoldable pub without_dots : List Texts → List Texts
without_dots [] = []
without_dots (w ∷ ws) = let rest = without_dots ws in if all_dots w then rest else w ∷ rest

unfoldable pub join : List Texts → Texts
join [] = []
join (w ∷ []) = w
join (w ∷ v ∷ vs) = w ++ (space ∷ join (v ∷ vs))

abbrev pub unknown : Texts
unknown = b'u' ∷ b'n' ∷ b'k' ∷ b'n' ∷ b'o' ∷ b'w' ∷ b'n' ∷ []

abbrev pub or_unknown : Texts → Texts
or_unknown [] = unknown
or_unknown (c ∷ cs) = c ∷ cs

-- The second pass.
abbrev pub cleaned : Texts → Texts
cleaned [] = unknown
cleaned (c ∷ cs) = or_unknown (join (without_dots (split_whitespace (filtered (c ∷ cs)))))

unfoldable pub sanitize_filename : Texts → Texts
sanitize_filename name = cleaned (trim (first_pass none name))
