-- ===== src/Base/Chars.antt =====
-- Texts as lists of character codes, and what the models use of `str` and `char`.
use Prim.Native.Nat.{ℕ, ◌+◌}
use Prim.Native.Char.{code}
use Prim.Native.String.{String}
use mathlib.Core.Bool.{Bool, true, false, ◌&&◌}
use mathlib.Core.List.{List, [], ◌∷◌}
use mathlib.Core.Option.{Option, none, some}
use ai_model_downloader.Base.Tests.{if◌then◌else◌, ◌==◌, leb}

abbrev pub Texts : Type 0
Texts = List ℕ

abbrev pub codes : String → Texts
codes String.[] = []
codes (String.◌∷◌ c s) = code c ∷ codes s

abbrev pub is_empty : Texts → Bool
is_empty [] = true
is_empty (c ∷ cs) = false

abbrev pub is_some {ℓ} : {A : Type ℓ} → Option A → Bool
is_some none = false
is_some (some a) = true

abbrev pub same_text : Texts → Texts → Bool
same_text [] [] = true
same_text [] (d ∷ ds) = false
same_text (c ∷ cs) [] = false
same_text (c ∷ cs) (d ∷ ds) = c == d && same_text cs ds

abbrev pub to_lower : ℕ → ℕ
to_lower c = if leb b'A' c && leb c b'Z' then c + 32 else c

-- `trim_start_matches` and `trim_end_matches` of a character.
abbrev pub trim_start : ℕ → Texts → Texts
trim_start c [] = []
trim_start c (d ∷ ds) = let rest = trim_start c ds in if d == c then rest else d ∷ ds

abbrev pub trim_onto : ℕ → ℕ → Texts → Texts
trim_onto c d [] = if d == c then [] else d ∷ []
trim_onto c d (e ∷ es) = d ∷ e ∷ es

abbrev pub trim_end : ℕ → Texts → Texts
trim_end c [] = []
trim_end c (d ∷ ds) = trim_onto c d (trim_end c ds)

abbrev pub extend : ℕ → ℕ → Option Texts → Option Texts
extend c d (some t) = some (d ∷ t)
extend c d none = if d == c then some [] else none

-- The text before the last occurrence of a character: the first half of `rsplit_once`.
abbrev pub before_last : ℕ → Texts → Option Texts
before_last c [] = none
before_last c (d ∷ ds) = extend c d (before_last c ds)
