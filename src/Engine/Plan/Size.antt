-- ===== src/Engine/Plan/Size.antt =====
-- compute_fragment_size of fragment.rs and the rounding of its f64.
use ai_model_downloader.Base.{
  nat_eq, string_eq, ℕ, ◌*◌, ◌/◌, ◌^◌, ◌≤◌, ◌<◌, min, max, ◌≡◌, refl, ap, ◌∙◌, arith, ltb,
  if◌then◌else◌, lt→ltb, le→leb, ne→==, u64_max,
}
use ai_model_downloader.Core.Error.{ok}
use ai_model_downloader.Engine.Plan.{
  SchedulerConfig, excess_bits, as_f64, scale, clamp, bandwidth_halves, compute_fragment_size,
}

-- Below 2^53 every integer is an f64.
as_f64_exact : (n : ℕ) → n < 2 ^ 53 → as_f64 n ≡ n
unfolding as_f64 excess_bits
as_f64_exact n h = rw (lt→ltb n (2 ^ 53) h) (ground arith)

scale_exact :
    (base halves : ℕ)
    → base < 2 ^ 53
    → base * halves < 2 ^ 53
    → scale base halves ≡ base * halves / 2
unfolding scale
scale_exact base halves h k =
    ap (λ x. min (as_f64 (x * halves) / 2) u64_max) (as_f64_exact base h)
    ∙ ap (λ x. min (x / 2) u64_max) (as_f64_exact (base * halves) k)
    ∙ omega arith

share_bound : (file_size target : ℕ) → file_size < 2 ^ 51 → file_size / max target 1 < 2 ^ 51
share_bound file_size target h = grind arith

scale_by_bandwidth :
    (c : SchedulerConfig) (share bandwidth_bps : ℕ)
    → share < 2 ^ 51
    → scale share (bandwidth_halves c bandwidth_bps) ≡ (
        if ltb c.high_bandwidth_threshold bandwidth_bps
        then share * 2
        else if ltb c.medium_bandwidth_threshold bandwidth_bps
        then share * 3 / 2
        else share)
scale_by_bandwidth c share bandwidth_bps h = ground (
  arith,
  scale_exact share 4 (omega arith) (omega arith),
  scale_exact share 3 (omega arith) (omega arith),
  scale_exact share 2 (omega arith) (omega arith),
)

-- For a file of fewer than 2^51 bytes that is not empty, with the bounds in order, the size of a
-- fragment is the share of each of the targeted fragments, doubled above the high bandwidth and half
-- as large again above the medium one, brought between the bounds.
pub compute_fragment_size_exact :
    (c : SchedulerConfig) (file_size bandwidth_bps : ℕ)
    → 0 < file_size
    → file_size < 2 ^ 51
    → c.min_fragment_size ≤ c.max_fragment_size
    → let share = file_size / max c.default_target_fragments 1 in
      compute_fragment_size c file_size bandwidth_bps
      ≡ ok (
          min
            (max
              (if ltb c.high_bandwidth_threshold bandwidth_bps
                then share * 2
                else if ltb c.medium_bandwidth_threshold bandwidth_bps
                then share * 3 / 2
                else share)
              c.min_fragment_size)
            c.max_fragment_size)
unfolding compute_fragment_size clamp
compute_fragment_size_exact c file_size bandwidth_bps p l o =
    rw
      (
        ne→== file_size 0 (omega arith),
        scale_by_bandwidth c (file_size / max c.default_target_fragments 1) bandwidth_bps
            (share_bound file_size c.default_target_fragments l),
        le→leb c.min_fragment_size c.max_fragment_size o,
      )
      refl
