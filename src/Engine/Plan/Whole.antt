-- ===== src/Engine/Plan/Whole.antt =====
-- plan_fragments of orchestrator.rs, whichever way the size of a fragment is found.
use ai_model_downloader.Core.Error.{ok}
use ai_model_downloader.Base.{
  nat_eq, string_eq, ℕ, zero, suc, ◌/◌, ◌≤◌, ◌<◌, min, max, ◌≡◌, refl, inl, inr, Bool, true, false,
  Option, none, some, [], ◌∷◌, arith, ◌==◌, lt→ltb, ne→==, Bool-cases, u64_max,
}
use ai_model_downloader.Core.FragmentInfo.{FragmentInfo}
use ai_model_downloader.Core.FragmentInfo as Info
use ai_model_downloader.Engine.Plan.{
  SchedulerConfig, compute_fragment_size, effective_size, whole, cut_by, cut_computed,
  cut_suggested, scale, bandwidth_halves, plan_fragments, clamp,
}
use ai_model_downloader.Engine.Plan.Tiling.{Cuts, cut_by-Cuts, piece}

-- The size of one piece for all, where the server has no ranges or the computed size is 0.
whole-Cuts :
    (file_size : ℕ)
    → 0 < file_size
    → file_size ≤ u64_max
    → Cuts file_size file_size 0 0 1000001 (whole file_size)
unfolding Info.new
whole-Cuts file_size p u = (
  piece 0 0 file_size ∷ [],
  ground arith,
  (refl, refl, omega arith, omega arith, omega arith, refl, omega arith),
  omega arith,
)

cut_by_any :
    (file_size size : ℕ)
    → 0 < file_size
    → file_size ≤ u64_max
    → (limit : ℕ) × Cuts limit file_size 0 0 1000001 (cut_by file_size size)
cut_by_any file_size zero p u = (file_size, unfold cut_by in whole-Cuts file_size p u)
cut_by_any file_size (suc size) p u =
    (effective_size file_size (suc size), cut_by-Cuts file_size (suc size) p u (omega arith))

computed_any :
    (c : SchedulerConfig) (bandwidth_bps file_size : ℕ)
    → c.min_fragment_size ≤ c.max_fragment_size
    → (size : ℕ) × (compute_fragment_size c file_size bandwidth_bps ≡ ok size)
unfolding compute_fragment_size clamp
computed_any c bandwidth_bps file_size h = elim (Bool-cases (file_size == 0)) [
  | inl e ↦ (0, ground arith)
  | inr e ↦ (
    min
        (max
          (scale (file_size / max c.default_target_fragments 1) (bandwidth_halves c bandwidth_bps))
          c.min_fragment_size)
        c.max_fragment_size,
    ground arith,
  )
]

cut_computed-Cuts :
    (c : SchedulerConfig) (bandwidth_bps file_size : ℕ)
    → c.min_fragment_size ≤ c.max_fragment_size
    → 0 < file_size
    → file_size ≤ u64_max
    → (limit : ℕ) × Cuts limit file_size 0 0 1000001
        (cut_computed file_size (compute_fragment_size c file_size bandwidth_bps))
cut_computed-Cuts c bandwidth_bps file_size h p u =
    let (size, e) = computed_any c bandwidth_bps file_size h in rw e (cut_by_any file_size size p u)

cut_suggested-Cuts :
    (c : SchedulerConfig) (bandwidth_bps file_size : ℕ) (suggested : Option ℕ)
    → c.min_fragment_size ≤ c.max_fragment_size
    → 0 < file_size
    → file_size ≤ u64_max
    → (limit : ℕ) × Cuts limit file_size 0 0 1000001
        (cut_suggested c bandwidth_bps file_size suggested)
cut_suggested-Cuts c bandwidth_bps file_size none h p u =
    cut_computed-Cuts c bandwidth_bps file_size h p u
cut_suggested-Cuts c bandwidth_bps file_size (some zero) h p u =
    cut_computed-Cuts c bandwidth_bps file_size h p u
cut_suggested-Cuts c bandwidth_bps file_size (some (suc size)) h p u =
    rw (lt→ltb 0 (suc size) (omega arith)) (cut_by_any file_size (suc size) p u)

plan-Cuts :
    (c : SchedulerConfig) (bandwidth_bps file_size : ℕ) (supports_range : Bool)
    (suggested : Option ℕ)
    → c.min_fragment_size ≤ c.max_fragment_size
    → 0 < file_size
    → file_size ≤ u64_max
    → (limit : ℕ) × (Cuts limit file_size 0 0 1000001
        (plan_fragments c bandwidth_bps file_size supports_range suggested))
unfolding plan_fragments
plan-Cuts c bandwidth_bps file_size true suggested h p u =
    rw (ne→== file_size 0 (omega arith))
      (cut_suggested-Cuts c bandwidth_bps file_size suggested h p u)
plan-Cuts c bandwidth_bps file_size false suggested h p u =
    rw (ne→== file_size 0 (omega arith)) (file_size, whole-Cuts file_size p u)

-- For every file size of 64 bits, bandwidth, suggestion and server, with the configured bounds in
-- order, planning ends without a panic; its fragments are numbered from 0, cover the file from its
-- first byte to its last without gap or overlap, and are at most 1,000,001.
pub plan_fragments_tile :
    (c : SchedulerConfig) (bandwidth_bps file_size : ℕ) (supports_range : Bool)
    (suggested : Option ℕ)
    → c.min_fragment_size ≤ c.max_fragment_size
    → file_size ≤ u64_max
    → (limit : ℕ) × (Cuts limit file_size 0 0 1000001
        (plan_fragments c bandwidth_bps file_size supports_range suggested))
plan_fragments_tile c bandwidth_bps zero supports_range suggested h u =
    (0, ([], unfold plan_fragments in refl, refl, omega arith))
plan_fragments_tile c bandwidth_bps (suc file_size) supports_range suggested h u =
    plan-Cuts c bandwidth_bps (suc file_size) supports_range suggested h (omega arith) u
