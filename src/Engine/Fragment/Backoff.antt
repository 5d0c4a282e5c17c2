-- ===== src/Engine/Fragment/Backoff.antt =====
-- backoff_duration of fragment.rs and its bounds.
use ai_model_downloader.Base.{ℕ, zero, suc, ◌-◌, ◌^◌, ◌≤◌, ◌<◌, ◌≡◌, none, some, arith, min}
use ai_model_downloader.Engine.Fragment.{FragmentRecord, jitter, backoff_duration}

-- The base of a backoff is one of eleven powers of two.
pub record DrawBounds (k seed : ℕ) : Type 0 where
  pub below : jitter (2 ^ k) seed < 2 ^ k
  pub capped : 2 ^ k ≤ 1024

pub k-DrawBounds : (k seed : ℕ) → k ≤ 10 → DrawBounds k seed
unfolding jitter
k-DrawBounds zero seed h = omega arith
k-DrawBounds (suc zero) seed h = omega arith
k-DrawBounds (suc (suc zero)) seed h = omega arith
k-DrawBounds (suc (suc (suc zero))) seed h = omega arith
k-DrawBounds (suc (suc (suc (suc zero)))) seed h = omega arith
k-DrawBounds (suc (suc (suc (suc (suc zero))))) seed h = omega arith
k-DrawBounds (suc (suc (suc (suc (suc (suc zero)))))) seed h = omega arith
k-DrawBounds (suc (suc (suc (suc (suc (suc (suc zero))))))) seed h = omega arith
k-DrawBounds (suc (suc (suc (suc (suc (suc (suc (suc zero)))))))) seed h = omega arith
k-DrawBounds (suc (suc (suc (suc (suc (suc (suc (suc (suc zero))))))))) seed h = omega arith
k-DrawBounds (suc (suc (suc (suc (suc (suc (suc (suc (suc (suc zero)))))))))) seed h = omega arith
k-DrawBounds (suc (suc (suc (suc (suc (suc (suc (suc (suc (suc (suc k))))))))))) seed h =
    absurd (omega arith)

-- With a seed the backoff is `2 ^ min retry_count 10` seconds less a draw that is smaller than that;
-- without one it is exactly that. So it is never 0 and never more than 1024 seconds.
pub backoff_duration_draw :
    (r : FragmentRecord) (seed : ℕ)
    → (backoff_duration r none ≡ 2 ^ min r.retry_count 10)
      × ((draw : ℕ) × (draw < 2 ^ min r.retry_count 10)
          × (backoff_duration r (some seed) ≡ 2 ^ min r.retry_count 10 - draw))
      × (backoff_duration r none ≤ 1024)
unfolding backoff_duration
backoff_duration_draw r seed = (
  omega (arith, bounds),
  (jitter (2 ^ min r.retry_count 10) seed, bounds.below, ground (arith, bounds)),
  omega (arith, bounds),
)
  where
    bounds : DrawBounds (min r.retry_count 10) seed
    bounds = k-DrawBounds (min r.retry_count 10) seed (omega arith)
