-- ===== src/Engine/Write/Examples.antt =====
-- write_all_at of downloader.rs on five bytes, to a storage that takes three at a time.
use ai_model_downloader.Base.{nat_eq, string_eq, ℕ, ◌≡◌, refl, List, [], ◌∷◌, arith}
use ai_model_downloader.Engine.Async.{returns}
use ai_model_downloader.Engine.Storage.Memory.{memory}
use ai_model_downloader.Engine.Write.{Race, written, write_all_at}
use ai_model_downloader.Engine.Write.Whole.{Writes, write_all_at-Writes}
use ai_model_downloader.Engine.Write.Ends.{Works, write_all_at_ends}

abbrev empty_file : ℕ → ℕ
empty_file i = 0

abbrev five_bytes : List ℕ
five_bytes = 11 ∷ 12 ∷ 13 ∷ 14 ∷ 15 ∷ []

abbrev undisturbed : ℕ → Race
undisturbed i = written

memory-Works : Works memory
memory-Works s pos b [] = (1, refl, omega arith)
memory-Works s pos b (c ∷ []) = (2, refl, omega arith)
memory-Works s pos b (c ∷ d ∷ bs) = (3, refl, omega arith)

write_all_at-Writes_example :
    Writes memory empty_file 100 0 five_bytes
      (write_all_at memory undisturbed empty_file 100 five_bytes)
write_all_at-Writes_example = write_all_at-Writes memory undisturbed empty_file 100 five_bytes

write_all_at_ends_example :
    (write_all_at memory undisturbed empty_file 100 five_bytes).1 ≡ returns 5
write_all_at_ends_example =
    write_all_at_ends memory undisturbed empty_file 100 five_bytes memory-Works (λ j. refl)
      (omega arith)
