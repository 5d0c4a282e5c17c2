-- ===== src/Core/Filename/Safe.antt =====
-- filename.rs: which names sanitize_filename returns.
use ai_model_downloader.Base.{
  nat_eq, string_eq, ℕ, ◌<◌, ◌≡◌, ◌≢◌, refl, inl, inr, false, Option, none, List, [], ◌∷◌, ◌++◌,
  arith, Bool-cases, length, All, Texts,
}
use ai_model_downloader.Core.Filename.Extract.{extract_filename, extract_filename_from_url}
use ai_model_downloader.Core.Filename.{
  space, is_whitespace, is_dangerous, first_pass, trim, filtered, add_word, split_char, split_from,
  split_whitespace, all_dots, without_dots, join, unknown, or_unknown, cleaned, sanitize_filename,
}

abbrev Harmless : Texts → Type 0
Harmless t = All (λ c. is_dangerous c ≡ false) t

-- Neither a separator nor a character that Windows reserves.
abbrev pub Plain : ℕ → Type 0
Plain c =
    (c ≢ b'/')
    × (c ≢ b'\\')
    × (c ≢ b':')
    × (c ≢ b'*')
    × (c ≢ b'?')
    × (c ≢ b'"')
    × (c ≢ b'<')
    × (c ≢ b'>')
    × (c ≢ b'|')

-- A name of a file: plain characters, at least one, and one of them no dot, as in `.` and `..`.
pub record IsName (t : Texts) : Type 0 where
  pub plain : All Plain t
  pub some_char : 0 < length t
  pub not_dots : ¬ All (λ c. c ≡ b'.') t

harmless-Plain : (c : ℕ) → is_dangerous c ≡ false → Plain c
unfolding is_dangerous
harmless-Plain c d = (
  (λ q. ground arith),
  (λ q. ground arith),
  (λ q. ground arith),
  (λ q. ground arith),
  (λ q. ground arith),
  (λ q. ground arith),
  (λ q. ground arith),
  (λ q. ground arith),
  (λ q. ground arith),
)

all-Plain : (t : Texts) → Harmless t → All Plain t
all-Plain [] h = tt
all-Plain (c ∷ cs) (d, h) = (harmless-Plain c d, all-Plain cs h)

not_dots_of : (t : Texts) → all_dots t ≡ false → ¬ All (λ c. c ≡ b'.') t
unfolding all_dots
not_dots_of [] h a = cc
not_dots_of (c ∷ cs) h (q, a) = not_dots_of cs (ground (arith, h, q)) a

named : (t : Texts) → Harmless t → 0 < length t → all_dots t ≡ false → IsName t
named t h l d = record { plain = all-Plain t h; some_char = l; not_dots = not_dots_of t d }

filtered-Harmless : (t : Texts) → Harmless (filtered t)
unfolding filtered
filtered-Harmless [] = tt
filtered-Harmless (c ∷ cs) = elim (Bool-cases (is_dangerous c)) [
  | inl d ↦ rw d (filtered-Harmless cs)
  | inr d ↦ rw d (d, filtered-Harmless cs)
]

add_word-All :
    (w : Texts) (ws : List Texts) → Harmless w → All Harmless ws → All Harmless (add_word w ws)
add_word-All [] ws h a = a
add_word-All (c ∷ cs) ws h a = (h, a)

split_char-All :
    (c : ℕ) (r : Texts × List Texts)
    → is_dangerous c ≡ false
    → Harmless r.0
    → All Harmless r.1
    → Harmless (split_char c r).0 × All Harmless (split_char c r).1
split_char-All c (w, ws) d h a = elim (Bool-cases (is_whitespace c)) [
  | inl s ↦ rw s (tt, add_word-All w ws h a)
  | inr s ↦ rw s ((d, h), a)
]

split_from-All :
    (t : Texts) → Harmless t → Harmless (split_from t).0 × All Harmless (split_from t).1
unfolding split_from
split_from-All [] h = (tt, tt)
split_from-All (c ∷ cs) (d, h) =
    let (w, ws) = split_from-All cs h in split_char-All c (split_from cs) d w ws

split_whitespace-All : (t : Texts) → Harmless t → All Harmless (split_whitespace t)
unfolding split_whitespace
split_whitespace-All t h =
    let (w, ws) = split_from-All t h in add_word-All (split_from t).0 (split_from t).1 w ws

without_dots-All : (ws : List Texts) → All Harmless ws → All Harmless (without_dots ws)
unfolding without_dots
without_dots-All [] a = tt
without_dots-All (w ∷ ws) (h, a) = elim (Bool-cases (all_dots w)) [
  | inl d ↦ rw d (without_dots-All ws a)
  | inr d ↦ rw d (h, without_dots-All ws a)
]

without_dots_none : (ws : List Texts) → All (λ w. all_dots w ≡ false) (without_dots ws)
unfolding without_dots
without_dots_none [] = tt
without_dots_none (w ∷ ws) = elim (Bool-cases (all_dots w)) [
  | inl d ↦ rw d (without_dots_none ws)
  | inr d ↦ rw d (d, without_dots_none ws)
]

append-Harmless : (t u : Texts) → Harmless t → Harmless u → Harmless (t ++ u)
append-Harmless [] u h k = k
append-Harmless (c ∷ cs) u (d, h) k = (d, append-Harmless cs u h k)

join-Harmless : (ws : List Texts) → All Harmless ws → Harmless (join ws)
unfolding join is_dangerous
join-Harmless [] a = tt
join-Harmless (w ∷ []) (h, a) = h
join-Harmless (w ∷ v ∷ vs) (h, a) =
    append-Harmless w (space ∷ join (v ∷ vs)) h (refl, join-Harmless (v ∷ vs) a)

append_dots : (t u : Texts) → all_dots t ≡ false → all_dots (t ++ u) ≡ false
unfolding all_dots
append_dots [] u h = cc
append_dots (c ∷ cs) u h = ground (arith, append_dots cs u)

join_dots : (w : Texts) (ws : List Texts) → all_dots w ≡ false → all_dots (join (w ∷ ws)) ≡ false
unfolding join
join_dots w [] h = h
join_dots w (v ∷ vs) h = append_dots w (space ∷ join (v ∷ vs)) h

unknown-IsName : IsName unknown
unfolding is_dangerous all_dots
unknown-IsName =
    named unknown (refl, (refl, (refl, (refl, (refl, (refl, (refl, tt))))))) (omega arith) refl

or_unknown-IsName :
    (t : Texts) → Harmless t → (0 < length t → all_dots t ≡ false) → IsName (or_unknown t)
or_unknown-IsName [] h d = unknown-IsName
or_unknown-IsName (c ∷ cs) h d = named (c ∷ cs) h (omega arith) (d (omega arith))

joined-IsName :
    (ws : List Texts)
    → All Harmless ws
    → All (λ w. all_dots w ≡ false) ws
    → IsName (or_unknown (join ws))
unfolding join
joined-IsName [] a d = unknown-IsName
joined-IsName (w ∷ ws) a (d, ds) =
    or_unknown-IsName (join (w ∷ ws)) (join-Harmless (w ∷ ws) a) (λ p. join_dots w ws d)

cleaned-IsName : (t : Texts) → IsName (cleaned t)
cleaned-IsName [] = unknown-IsName
cleaned-IsName (c ∷ cs) =
    let ws = split_whitespace (filtered (c ∷ cs)) in
    joined-IsName (without_dots ws)
      (without_dots-All ws (split_whitespace-All (filtered (c ∷ cs)) (filtered-Harmless (c ∷ cs))))
      (without_dots_none ws)

sanitize_filename-IsName : (name : Texts) → IsName (sanitize_filename name)
unfolding sanitize_filename
sanitize_filename-IsName name = cleaned-IsName (trim (first_pass none name))

-- Whatever the URL, the header and the answers of the parser and of the decoder are, the extracted name
-- holds no separator nor another reserved character and is neither empty nor made of dots alone; so is
-- the one that comes from the URL alone.
pub extract_filename-IsName :
    (from_utf8 : List ℕ → Option Texts) (as_bytes : Texts → List ℕ)
    (url_path : Texts → Option Texts) (url : Texts) (content_disposition : Option Texts)
    → IsName (extract_filename from_utf8 as_bytes url_path url content_disposition)
      × IsName (extract_filename_from_url from_utf8 as_bytes url_path url)
unfolding extract_filename extract_filename_from_url
extract_filename-IsName from_utf8 as_bytes url_path url content_disposition =
    (sanitize_filename-IsName _, sanitize_filename-IsName _)
