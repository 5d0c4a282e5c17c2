-- ===== src/Core/RateLimit.antt =====
-- crates/tachyon-core/src/rate_limit.rs, for one caller at a time. Times are nanoseconds since one
-- second before the anchor, where `baseline_ns` starts; the clock is an argument, and acquire answers
-- how long it sleeps.
mod Rebased
mod Examples
use ai_model_downloader.Base.{
  lookup, insert, remove, Eq, nat_eq, string_eq, lookup-insert, lookup-remove, ℕ, zero, suc, ◌+◌,
  ◌-◌, ◌*◌, ◌/◌, ◌%◌, ◌^◌, ◌≤◌, ◌<◌, min, max, ◌≡◌, refl, sym, ap, ◌∙◌, subst, ◌≢◌, ◌↔◌, ◌⊎◌, inl,
  inr, Bool, true, false, not, ◌&&◌, ◌||◌, Option, none, some, List, [], ◌∷◌, ◌++◌, map, arith,
  dec_lt, ℕ_discrete, ltb, leb, ◌==◌, if◌then◌else◌, ltb→lt, lt→ltb, leb→le, le→leb, ==_iff, lt→leb,
  ne→==, Bool-cases, Option-cases, u8, u32, u64, u64_max, checked_add, length, get_elem?, set, take,
  drop, length-append, length-drop, length-set, All,
}

pub record RateLimiter : Type 0 where
  pub baseline_ns : ℕ
  pub debt : ℕ
  pub bytes_per_sec : ℕ

abbrev pub second : ℕ
second = 1000000000

-- 5 seconds.
abbrev pub max_acquire_wait : ℕ
max_acquire_wait = 5000000000

unfoldable pub new : ℕ → RateLimiter
new bytes_per_sec = record { baseline_ns = 0; debt = 0; bytes_per_sec = bytes_per_sec }

-- `saturating_sub` of signed times, then `as u64`.
unfoldable pub elapsed : ℕ → ℕ → ℕ
elapsed now baseline = if leb baseline now then now - baseline else 2 ^ 64 - (baseline - now)

unfoldable pub allowance : ℕ → ℕ → ℕ
allowance elapsed_ns rate = u64 (elapsed_ns * rate / second)

abbrev wait_for : ℕ → ℕ → ℕ → ℕ
wait_for total allowed rate =
    if ltb allowed total then min (u64 ((total - allowed) * second / rate)) max_acquire_wait else 0

unfoldable pub acquire : ℕ → ℕ → RateLimiter → RateLimiter × ℕ
unfolding elapsed allowance
acquire now bytes l =
    if (l.bytes_per_sec == 0) || (bytes == 0)
    then (l, 0)
    else let total = u64 (l.debt + bytes) in
      (
        record l { debt = total },
        wait_for total (allowance (elapsed now l.baseline_ns) l.bytes_per_sec) l.bytes_per_sec,
      )

unfoldable pub update_rate : ℕ → ℕ → RateLimiter → RateLimiter
unfolding elapsed allowance
update_rate now bytes_per_sec l =
    if bytes_per_sec == 0
    then record l { bytes_per_sec = 0 }
    else if l.bytes_per_sec == 0
    then record { baseline_ns = now; debt = 0; bytes_per_sec = bytes_per_sec }
    else record {
      baseline_ns = now;
      debt = allowance (elapsed now l.baseline_ns) l.bytes_per_sec;
      bytes_per_sec = bytes_per_sec;
    }
