-- ===== src/Engine/Plan.antt =====
-- How a file is cut into fragments: compute_fragment_size of crates/tachyon-engine/src/fragment.rs
-- and plan_fragments of orchestrator.rs. The bandwidth estimate (an f64 average) is an argument.
pub mod Hashless
mod Size
mod Tiling
mod Whole
mod Count
mod Configured
mod Examples
use ai_model_downloader.Base.{
  ℕ, zero, suc, ◌+◌, ◌-◌, ◌*◌, ◌/◌, ◌%◌, ◌^◌, Bool, true, false, Option, none, some, List, [], ◌∷◌,
  leb, ltb, ◌==◌, ◌&&◌, ◌||◌, if◌then◌else◌, min, max, u64_max,
}
use ai_model_downloader.Core.Error.{DownloadResult, ok, err, panic, ◌>>=◌}
use ai_model_downloader.Core.FragmentInfo.{FragmentInfo}
use ai_model_downloader.Core.FragmentInfo as Info

-- The fields of `SchedulerConfig` that planning reads.
pub record SchedulerConfig : Type 0 where
  pub min_fragment_size : ℕ
  pub max_fragment_size : ℕ
  pub default_target_fragments : ℕ
  pub high_bandwidth_threshold : ℕ
  pub medium_bandwidth_threshold : ℕ

-- The bits of `n` above the 53 that an f64 keeps.
excess_bits : ℕ → ℕ → ℕ
excess_bits zero n = 0
excess_bits (suc fuel) n =
    let rest = excess_bits fuel (n / 2) in if ltb n (2 ^ 53) then 0 else suc rest

-- Rounding to the nearest multiple of `unit`, ties to the even one.
abbrev round_even : ℕ → ℕ → ℕ
round_even unit n =
    if ltb unit (2 * (n % unit)) || (2 * (n % unit) == unit && n / unit % 2 == 1)
    then (n / unit + 1) * unit
    else n / unit * unit

-- The value of an integer below 2^67, kept as an f64.
as_f64 : ℕ → ℕ
as_f64 n = round_even (2 ^ excess_bits 14 n) n

-- `(base as f64 * factor) as u64`; the factor is given in halves: 2.0 is 4, 1.5 is 3, 1.0 is 2.
unfoldable pub scale : ℕ → ℕ → ℕ
unfolding as_f64 excess_bits
scale base halves = min (as_f64 (as_f64 base * halves) / 2) u64_max

-- `u64::clamp` asserts that its bounds are in order.
unfoldable pub clamp : ℕ → ℕ → ℕ → DownloadResult ℕ
clamp x low high = if leb low high then ok (min (max x low) high) else panic

abbrev bandwidth_halves : SchedulerConfig → ℕ → ℕ
bandwidth_halves c bandwidth_bps =
    if ltb c.high_bandwidth_threshold bandwidth_bps
    then 4
    else if ltb c.medium_bandwidth_threshold bandwidth_bps
    then 3
    else 2

unfoldable pub compute_fragment_size : SchedulerConfig → ℕ → ℕ → DownloadResult ℕ
compute_fragment_size c file_size bandwidth_bps =
    if file_size == 0
    then ok 0
    else clamp
        (scale (file_size / max c.default_target_fragments 1) (bandwidth_halves c bandwidth_bps))
        c.min_fragment_size c.max_fragment_size

abbrev pub max_fragment_count : ℕ
max_fragment_count = 1000000

abbrev div_ceil : ℕ → ℕ → ℕ
div_ceil a b = (a + b - 1) / b

unfoldable pub effective_size : ℕ → ℕ → ℕ
effective_size file_size frag_size =
    if ltb max_fragment_count (file_size / frag_size)
    then div_ceil file_size max_fragment_count
    else frag_size

-- `push`, then the check that the next index is a `u32`. A panic leaves no list.
abbrev push_fragment :
    DownloadResult FragmentInfo
    → Bool
    → Option (DownloadResult (List FragmentInfo))
    → Option (DownloadResult (List FragmentInfo))
push_fragment panic _ rest = some panic
push_fragment (err e) _ rest = some (err e)
push_fragment (ok f) false rest = some panic
push_fragment (ok f) true none = none
push_fragment (ok f) true (some (ok fs)) = some (ok (f ∷ fs))
push_fragment (ok f) true (some (err e)) = some (err e)
push_fragment (ok f) true (some panic) = some panic

-- The `while` loop; `none` means that the fuel ran out.
unfoldable pub cut : ℕ → ℕ → ℕ → ℕ → ℕ → Option (DownloadResult (List FragmentInfo))
cut zero frag_size file_size offset index = none
cut (suc fuel) frag_size file_size offset index =
    let size = min (file_size - offset) frag_size in
    let rest = cut fuel frag_size file_size (offset + size) (index + 1) in
    let step =
      push_fragment (Info.new index offset (offset + size - 1) size) (ltb index 4294967295) rest in
    if ltb offset file_size then step else some (ok [])

-- One fragment for the whole file.
abbrev whole : ℕ → Option (DownloadResult (List FragmentInfo))
whole file_size = some (Info.new 0 0 (file_size - 1) file_size >>= λ f. ok (f ∷ []))

-- Each round advances by a byte at least, so the size of the file is fuel enough.
unfoldable pub cut_by : ℕ → ℕ → Option (DownloadResult (List FragmentInfo))
unfolding effective_size cut
cut_by file_size frag_size =
    if frag_size == 0
    then whole file_size
    else cut (suc file_size) (effective_size file_size frag_size) file_size 0 0

abbrev cut_computed : ℕ → DownloadResult ℕ → Option (DownloadResult (List FragmentInfo))
cut_computed file_size (ok size) = cut_by file_size size
cut_computed file_size (err e) = some (err e)
cut_computed file_size panic = some panic

abbrev cut_suggested :
    SchedulerConfig → ℕ → ℕ → Option ℕ → Option (DownloadResult (List FragmentInfo))
cut_suggested c bandwidth_bps file_size none =
    cut_computed file_size (compute_fragment_size c file_size bandwidth_bps)
cut_suggested c bandwidth_bps file_size (some size) =
    if ltb 0 size
    then cut_by file_size size
    else cut_computed file_size (compute_fragment_size c file_size bandwidth_bps)

unfoldable pub plan_fragments :
    SchedulerConfig → ℕ → ℕ → Bool → Option ℕ → Option (DownloadResult (List FragmentInfo))
plan_fragments c bandwidth_bps file_size supports_range suggested_frag_size =
    if file_size == 0
    then some (ok [])
    else if supports_range
    then cut_suggested c bandwidth_bps file_size suggested_frag_size
    else whole file_size
