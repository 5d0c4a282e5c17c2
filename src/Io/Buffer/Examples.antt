-- ===== src/Io/Buffer/Examples.antt =====
-- Pools of buffer.rs.
use ai_model_downloader.Base.{nat_eq, string_eq, ◌≡◌, refl, List, [], ◌∷◌, arith}
use ai_model_downloader.Io.Buffer.{new, with_prefill, push_new, alloc, release, prewarm}
use ai_model_downloader.Io.Buffer.Accounts.{
  Accounted, Call, allocs, writes, releases, prewarms, step, run, run-Accounted,
}

abbrev some_calls : List Call
some_calls = allocs ∷ allocs ∷ allocs ∷ writes 0 (1 ∷ 2 ∷ []) ∷ releases 0 ∷ prewarms ∷ allocs ∷ []

run-Accounted_example :
    Accounted (run (new 4096 2) some_calls) × Accounted (run (with_prefill 4096 2) some_calls)
run-Accounted_example = run-Accounted 4096 2 some_calls (omega arith)

reused_empty : (run (new 4096 2) some_calls).lent ≡ [] ∷ [] ∷ []
unfolding new run step alloc release prewarm push_new
reused_empty = refl
