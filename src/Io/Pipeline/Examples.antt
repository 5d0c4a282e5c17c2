-- ===== src/Io/Pipeline/Examples.antt =====
-- Batches of pipeline.rs.
use ai_model_downloader.Base.{nat_eq, string_eq, ◌≤◌, ◌≡◌, refl, List, [], ◌∷◌, arith, length}
use ai_model_downloader.Io.Pipeline.{Segment, merge, plan_batches, write_count}
use ai_model_downloader.Io.Pipeline.Same.{Content, write_all, plan_batches-Same}

abbrev adjacent : List Segment
adjacent = (0, 1 ∷ 2 ∷ []) ∷ (2, 3 ∷ []) ∷ (7, 4 ∷ []) ∷ []

two_batches : plan_batches 100 adjacent ≡ (0, 1 ∷ 2 ∷ 3 ∷ []) ∷ (7, 4 ∷ []) ∷ []
unfolding plan_batches merge
two_batches = refl

abbrev blank : Content
blank i = 0

plan_batches-Same_example :
    let batches = plan_batches 100 adjacent in
    (write_all batches blank ≡ write_all adjacent blank)
    × (length batches ≤ length adjacent)
    × (1 ≤ write_count 4 batches)
    × (write_count 4 batches ≤ 4)
plan_batches-Same_example =
    plan_batches-Same 100 4 adjacent blank (omega arith) (omega arith) (omega arith)
