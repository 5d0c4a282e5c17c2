-- ===== src/Core/Filename/Extract.antt =====
-- filename.rs: the name of a file from a URL and from the Content-Disposition header. Parsing a URL and
-- UTF-8 are arguments.
use ai_model_downloader.Base.{
  nat_eq, string_eq, ℕ, ◌+◌, ◌-◌, ◌*◌, Bool, false, ◌&&◌, ◌||◌, Option, none, some, List, [], ◌∷◌,
  leb, ◌==◌, if◌then◌else◌, Texts, codes, trim_start, trim_end,
}
use ai_model_downloader.Core.Filename.{trim, sanitize_filename, unknown}

unfoldable pub hex_digit : ℕ → Option ℕ
hex_digit byte =
    if leb b'0' byte && leb byte b'9'
    then some (byte - b'0')
    else if leb b'a' byte && leb byte b'f'
    then some (byte - b'a' + 10)
    else if leb b'A' byte && leb byte b'F'
    then some (byte - b'A' + 10)
    else none

abbrev pub pair_of : Option ℕ → Option ℕ → Option ℕ
pair_of none l = none
pair_of (some h) none = none
pair_of (some h) (some l) = some (h * 16 + l)

unfoldable pub parse_hex_pair : ℕ → ℕ → Option ℕ
parse_hex_pair high low = pair_of (hex_digit high) (hex_digit low)

abbrev pub or_literal : Option ℕ → Texts → Texts → Texts
or_literal (some byte) after literal = byte ∷ after
or_literal none after literal = literal

-- The loop over the bytes.
unfoldable pub decode_bytes : List ℕ → List ℕ
decode_bytes [] = []
decode_bytes (a ∷ []) = a ∷ []
decode_bytes (a ∷ b ∷ []) = a ∷ decode_bytes (b ∷ [])
decode_bytes (a ∷ b ∷ c ∷ rest) =
    let after = decode_bytes rest in
    let literal = a ∷ decode_bytes (b ∷ c ∷ rest) in
    if a == b'%' then or_literal (parse_hex_pair b c) after literal else literal

abbrev pub has : ℕ → Texts → Bool
has c [] = false
has c (d ∷ ds) = d == c || has c ds

-- `rsplit(c).next()`: the text after the last `c`, or all of it.
unfoldable pub after_last : ℕ → Texts → Texts
after_last c [] = []
after_last c (d ∷ ds) =
    let later = after_last c ds in if has c ds then later else if d == c then ds else d ∷ ds

-- The text after the first `c`.
abbrev pub after_first : ℕ → Texts → Option Texts
after_first c [] = none
after_first c (d ∷ ds) = let later = after_first c ds in if d == c then some ds else later

abbrev pub later_part : ℕ → Option Texts → Option Texts
later_part c none = none
later_part c (some t) = after_first c t

-- The third part of `splitn(3, '\'')`.
abbrev pub third_part : Texts → Option Texts
third_part t = later_part b'\'' (after_first b'\'' t)

abbrev pub join_part : ℕ → ℕ → List Texts → List Texts
join_part c d [] = if d == c then [] ∷ [] ∷ [] else (d ∷ []) ∷ []
join_part c d (p ∷ ps) = if d == c then [] ∷ p ∷ ps else (d ∷ p) ∷ ps

-- `split(c)`.
abbrev pub split : ℕ → Texts → List Texts
split c [] = [] ∷ []
split c (d ∷ ds) = join_part c d (split c ds)

abbrev pub strip_prefix : Texts → Texts → Option Texts
strip_prefix [] t = some t
strip_prefix (p ∷ ps) [] = none
strip_prefix (p ∷ ps) (c ∷ cs) = let rest = strip_prefix ps cs in if p == c then rest else none

abbrev pub non_empty : Option Texts → Option Texts
non_empty none = none
non_empty (some []) = none
non_empty (some (c ∷ cs)) = some (c ∷ cs)

abbrev pub first_fallback : Option Texts → Option Texts → Option Texts
first_fallback (some old) name = some old
first_fallback none name = name

-- A parameter of the header ends the search with a name, or leaves a fallback.
pub data Judged : Type 0 where
  found : Texts → Judged
  continues : Option Texts → Judged

abbrev pub found_or : Option Texts → Option Texts → Judged
found_or (some name) fallback = found name
found_or none fallback = continues fallback

abbrev pub plain_param : Option Texts → Option Texts → Judged
plain_param none fallback = continues fallback
plain_param (some name) fallback =
    continues
      (first_fallback fallback (non_empty (some (trim_start b'"' (trim_end b'"' (trim name))))))

abbrev pub filename_star : Texts
filename_star = codes "filename*="

abbrev pub filename_plain : Texts
filename_plain = codes "filename="

abbrev pub or_name : Option Texts → Texts → Texts
or_name (some name) other = name
or_name none other = other

-- `String::from_utf8`, `str::as_bytes`, and the path of a URL that parses.
module _ (from_utf8 : List ℕ → Option Texts) (as_bytes : Texts → List ℕ)
    (url_path : Texts → Option Texts) where
  unfoldable pub percent_decode : Texts → Option Texts
  percent_decode input = from_utf8 (decode_bytes (as_bytes input))

  abbrev pub decoded_part : Option Texts → Option Texts
  decoded_part none = none
  decoded_part (some encoded_name) = percent_decode encoded_name

  abbrev pub star_param : Option Texts → Texts → Option Texts → Judged
  star_param (some encoded) param fallback =
      found_or (non_empty (decoded_part (third_part encoded))) fallback
  star_param none param fallback = plain_param (strip_prefix filename_plain param) fallback

  abbrev pub judge : Texts → Option Texts → Judged
  judge param fallback = star_param (strip_prefix filename_star param) param fallback

  abbrev pub scan_on : Judged → (Option Texts → Option Texts) → Option Texts
  scan_on (found name) next = some name
  scan_on (continues fallback) next = next fallback

  -- The loop over the parameters.
  unfoldable pub scan : List Texts → Option Texts → Option Texts
  scan [] fallback = fallback
  scan (p ∷ ps) fallback = scan_on (judge (trim p) fallback) (scan ps)

  unfoldable pub parse_content_disposition : Texts → Option Texts
  parse_content_disposition value = scan (split b';' value) none

  abbrev pub segment_name : Texts → Option Texts
  segment_name [] = none
  segment_name (c ∷ cs) = percent_decode (c ∷ cs)

  abbrev pub path_name : Option Texts → Option Texts
  path_name none = none
  path_name (some path) = segment_name (after_last b'/' path)

  unfoldable pub extract_filename_from_url : Texts → Texts
  extract_filename_from_url url = sanitize_filename (or_name (path_name (url_path url)) unknown)

  abbrev pub header_name : Option Texts → Option Texts
  header_name none = none
  header_name (some value) = parse_content_disposition value

  unfoldable pub extract_filename : Texts → Option Texts → Texts
  extract_filename url content_disposition =
      sanitize_filename (or_name (header_name content_disposition) (extract_filename_from_url url))
