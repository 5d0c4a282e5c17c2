-- ===== src/Engine/Plan/Count.antt =====
-- plan_fragments of orchestrator.rs: how many fragments a plan can have.
use ai_model_downloader.Base.{
  ℕ, ◌+◌, ◌*◌, ◌/◌, ◌≤◌, ◌<◌, ◌≡◌, true, some, List, [], ◌∷◌, arith, length, u64_max, lt→ltb, ne→==,
}
use ai_model_downloader.Core.Error.{ok}
use ai_model_downloader.Core.FragmentInfo.{FragmentInfo}
use ai_model_downloader.Engine.Plan.{
  SchedulerConfig, max_fragment_count, effective_size, plan_fragments,
}
use ai_model_downloader.Engine.Plan.Tiling.{Tiles, Cuts, cut_by-Cuts}

-- A tiling by pieces of at most `limit` needs so many of them.
pub covered-le-length :
    (limit file_size offset index : ℕ) (fs : List FragmentInfo)
    → Tiles limit file_size offset index fs
    → file_size ≤ offset + length fs * limit
covered-le-length limit file_size offset index [] t = omega arith
covered-le-length limit file_size offset index (f ∷ fs) (a, b, c, d, e, g, t) =
    omega (arith, covered-le-length limit file_size (offset + f.size) (index + 1) fs t)

-- With a suggested size and a server that has ranges, a file of 1 to 2^64 - 1 bytes is cut into
-- fragments that are at most as large as the suggestion, unless its size divided by the suggestion is
-- over a million.
pub suggested-Cuts :
    (c : SchedulerConfig) (bandwidth_bps file_size size : ℕ)
    → 0 < file_size
    → file_size ≤ u64_max
    → 0 < size
    → file_size / size ≤ max_fragment_count
    → Cuts size file_size 0 0 1000001 (plan_fragments c bandwidth_bps file_size true (some size))
unfolding plan_fragments
suggested-Cuts c bandwidth_bps file_size size p u z m =
    rw (ne→== file_size 0 (omega arith), lt→ltb 0 size z)
      (rw (uncapped file_size size m) at (cut_by-Cuts file_size size p u z))
  where
    uncapped :
        (file_size size : ℕ)
        → file_size / size ≤ max_fragment_count
        → effective_size file_size size ≡ size
    uncapped file_size size m = unfold effective_size in ground arith

-- The limit of a million is missed by one: a file of a million pieces of the suggested size and a part
-- of one more, of at most 2^64 - 1 bytes from a server that has ranges, is cut into 1,000,001 fragments.
pub count_over_limit :
    (c : SchedulerConfig) (bandwidth_bps size part : ℕ)
    → 0 < part
    → part < size
    → max_fragment_count * size + part ≤ u64_max
    → (fs : List FragmentInfo) × (plan_fragments c bandwidth_bps
          (max_fragment_count * size + part)
          true
          (some size)
        ≡ some (ok fs))
      × (length fs ≡ 1000001)
count_over_limit c bandwidth_bps size part p h u =
    let (fs, e, t, l) =
      suggested-Cuts c bandwidth_bps (max_fragment_count * size + part) size (omega arith) u
        (omega arith) (grind arith) in
    (fs, e, grind (arith, covered-le-length size (max_fragment_count * size + part) 0 0 fs t))
