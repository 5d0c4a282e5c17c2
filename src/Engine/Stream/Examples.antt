-- ===== src/Engine/Stream/Examples.antt =====
-- download_single_fragment of downloader.rs on four bytes that arrive in two chunks.
use ai_model_downloader.Base.{nat_eq, string_eq, ℕ, none, List, [], ◌∷◌}
use ai_model_downloader.Core.Error.{ok}
use ai_model_downloader.Engine.Storage.Memory.{memory}
use ai_model_downloader.Engine.Write.{written}
use ai_model_downloader.Engine.Stream.{Item, Attempt, Range, answered, download_single_fragment}
use ai_model_downloader.Engine.Stream.Filled.{Fills, download_single_fragment-Fills}

abbrev blank : ℕ → ℕ
blank i = 0

abbrev second_range : Range
second_range = record { index = 1; start = 4; end = 7 }

abbrev chunk_of : List ℕ → Item
chunk_of bytes = record { control = none; chunk = ok bytes; races = λ i. written }

abbrev two_chunks : Attempt
two_chunks = record {
  control = none;
  opening = answered (ok (chunk_of (65 ∷ 66 ∷ 67 ∷ []) ∷ chunk_of (68 ∷ []) ∷ []));
  last_races = λ i. written;
  elapsed = 5;
}

download_single_fragment-Fills_example :
    Fills memory second_range two_chunks blank
      (download_single_fragment memory second_range two_chunks blank)
download_single_fragment-Fills_example =
    download_single_fragment-Fills memory second_range two_chunks blank
