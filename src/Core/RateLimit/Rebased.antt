-- ===== src/Core/RateLimit/Rebased.antt =====
-- update_rate of crates/tachyon-core/src/rate_limit.rs on a limiter that nobody has used.
use ai_model_downloader.Base.{
  nat_eq, string_eq, ℕ, ◌+◌, ◌-◌, ◌*◌, ◌/◌, ◌≤◌, ◌<◌, min, ◌≡◌, refl, sym, ap, ◌∙◌, subst, arith,
  lt→ltb, le→leb, ne→==, u64, u64_max,
}
use ai_model_downloader.Core.RateLimit.{
  RateLimiter, second, max_acquire_wait, new, elapsed, allowance, acquire, update_rate, wait_for,
}

abbrev limiter : ℕ → ℕ → ℕ → RateLimiter
limiter baseline debt rate = record { baseline_ns = baseline; debt = debt; bytes_per_sec = rate }

allowance_exact :
    (now baseline gap rate : ℕ)
    → baseline ≤ now
    → now - baseline ≡ gap
    → gap * rate / second ≤ u64_max
    → allowance (elapsed now baseline) rate ≡ gap * rate / second
unfolding allowance elapsed
allowance_exact now baseline gap rate h g u = rw (le→leb baseline now h, g) (omega arith)

acquire_wait :
    (now bytes baseline debt rate allowed : ℕ)
    → 0 < rate
    → 0 < bytes
    → debt + bytes ≤ u64_max
    → allowance (elapsed now baseline) rate ≡ allowed
    → (acquire now bytes (limiter baseline debt rate)).1 ≡ wait_for (debt + bytes) allowed rate
unfolding acquire
acquire_wait now bytes baseline debt rate allowed r b u e =
    rw (ne→== rate 0 (omega arith), ne→== bytes 0 (omega arith), e)
      (ap (λ t. wait_for t allowed rate) (omega arith))

rebased :
    (now rate rate' : ℕ)
    → 0 < rate
    → 0 < rate'
    → now * rate / second ≤ u64_max
    → update_rate now rate' (limiter 0 0 rate) ≡ limiter now (now * rate / second) rate'
unfolding update_rate
rebased now rate rate' r r' u =
    rw
      (
        ne→== rate 0 (omega arith),
        ne→== rate' 0 (omega arith),
        allowance_exact now 0 now rate (omega arith) (omega arith) u,
      )
      refl

-- A limiter that has given no byte and has saved up `used` of them lets a request of no more bytes pass
-- at once; after a change of its rate the same request has to wait for `used` bytes and its own, at the
-- new rate, or for 5 seconds. Both rates are positive, and the two amounts together are below 2^64.
pub update_rate_charges_idle :
    (now rate rate' bytes used : ℕ)
    → 0 < rate
    → 0 < rate'
    → 0 < bytes
    → used ≡ now * rate / second
    → used + bytes ≤ u64_max
    → bytes ≤ used
    → ((acquire now bytes (new rate)).1 ≡ 0)
      × ((acquire now bytes (update_rate now rate' (new rate))).1
          ≡ min (u64 ((used + bytes) * second / rate')) max_acquire_wait)
unfolding new
update_rate_charges_idle now rate rate' bytes used r r' b e u h = (
  acquire_wait now bytes 0 0 rate used r b (omega arith)
        (allowance_exact now 0 now rate (omega arith) (omega arith) (omega (arith, e)) ∙ sym e)
      ∙ passes,
  subst (λ l. (acquire now bytes l).1 ≡ wait_for (used + bytes) 0 rate')
        (ap (λ x. limiter now x rate') e ∙ sym (rebased now rate rate' r r' (omega (arith, e))))
        (acquire_wait now bytes now used rate' 0 r' b u
          (allowance_exact now now 0 rate' (omega arith) (omega arith) (omega arith) ∙ omega arith))
      ∙ waits,
)
  where
    passes : wait_for (0 + bytes) used rate ≡ 0
    passes = ground arith

    waits :
        wait_for (used + bytes) 0 rate'
        ≡ min (u64 ((used + bytes) * second / rate')) max_acquire_wait
    waits =
        rw (lt→ltb 0 (used + bytes) (omega arith))
          (ap (λ x. min (u64 (x * second / rate')) max_acquire_wait) (omega arith))
