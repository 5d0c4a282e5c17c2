-- ===== src/Core/RateLimit/Examples.antt =====
-- rate_limit.rs: a limiter of 100 bytes a second that is changed to 50 after 2 seconds.
use ai_model_downloader.Base.{nat_eq, string_eq, ◌+◌, ◌*◌, ◌/◌, min, ◌≡◌, refl, arith, u64}
use ai_model_downloader.Core.RateLimit.{second, max_acquire_wait, new, acquire, update_rate}
use ai_model_downloader.Core.RateLimit.Rebased.{update_rate_charges_idle}

update_rate_charges_idle_example :
    ((acquire 3000000000 10 (new 100)).1 ≡ 0)
    × ((acquire 3000000000 10 (update_rate 3000000000 50 (new 100))).1
        ≡ min (u64 ((300 + 10) * second / 50)) max_acquire_wait)
update_rate_charges_idle_example =
    update_rate_charges_idle 3000000000 100 50 10 300 (omega arith) (omega arith) (omega arith) refl
      (omega arith) (omega arith)
