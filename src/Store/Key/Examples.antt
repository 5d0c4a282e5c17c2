-- ===== src/Store/Key/Examples.antt =====
-- safe_key and unsafe_key of store.rs on the key `a/b`.
use ai_model_downloader.Base.{nat_eq, string_eq, ℕ, ◌≡◌, refl, List, [], ◌∷◌, arith, All}
use ai_model_downloader.Store.Key.{safe_key, unsafe_key}
use ai_model_downloader.Store.Key.Inverse.{Allowed, unsafe_key-safe_key}

abbrev slashed : List ℕ
slashed = 97 ∷ 47 ∷ 98 ∷ []

slashed_name : safe_key slashed ≡ 97 ∷ 37 ∷ 50 ∷ 70 ∷ 98 ∷ []
unfolding safe_key
slashed_name = refl

unsafe_key-safe_key_example :
    (unsafe_key (safe_key slashed) ≡ slashed) × All Allowed (safe_key slashed)
unsafe_key-safe_key_example =
    unsafe_key-safe_key slashed (omega arith, (omega arith, (omega arith, tt)))
