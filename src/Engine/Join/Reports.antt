-- ===== src/Engine/Join/Reports.antt =====
-- execute_fragmented_download of downloader.rs: the tasks that are spawned and their results.
use ai_model_downloader.Base.{
  nat_eq, string_eq, ℕ, zero, suc, ◌+◌, Bool, true, false, if◌then◌else◌, some-eq, ◌≡◌, refl, subst,
  some, List, [], ◌∷◌, arith, get_elem?,
}
use ai_model_downloader.Core.Error.{DownloadResult, ok, err, panic}
use mathlib.Core.List.{Memᴰ}
use ai_model_downloader.Engine.Fragment.{FragmentState, FragmentRecord}
use ai_model_downloader.Engine.Join.{
  Joined, panicked, failed, finished, Job, and_then, fragment_specs, finish_at, join, join_all,
  Outcome, crashes, fails, delivers, result_of, results_of, is_pending,
}
use ai_model_downloader.Engine.Join.Places.{state_at}

-- The fragments whose tasks have a result that is no panic.
abbrev pub reported : List Joined → List ℕ
reported [] = []
reported (panicked ∷ xs) = reported xs
reported (failed i e ∷ xs) = i ∷ reported xs
reported (finished i n d ∷ xs) = i ∷ reported xs

pub none_in_nil : {k : ℕ} → Memᴰ k [] → ⊥
none_in_nil h = elim h [ ]

pub and_then-ok :
    {A : Type 0} (p : A × DownloadResult (Unit {0})) (k : A → A × DownloadResult (Unit {0}))
    → (and_then p k).1 ≡ ok tt
    → (p.1 ≡ ok tt) × (and_then p k ≡ k p.0)
and_then-ok (a, ok u) k h = (refl, refl)
and_then-ok (a, err e) k h = cc
and_then-ok (a, panic) k h = cc

-- Where all tasks are joined without an error, each of them has reported.
report_one :
    (o : Outcome) (i : ℕ) (is : List ℕ) (xs : List Joined) (j : Job)
    → ((j' : Job) → (join_all xs j').1 ≡ ok tt → (k : ℕ) → Memᴰ k is → Memᴰ k (reported xs))
    → (and_then (join (result_of i o) j) (join_all xs)).1 ≡ ok tt
    → (k : ℕ) → Memᴰ k (i ∷ is)
    → Memᴰ k (reported (result_of i o ∷ xs))
unfolding join
report_one crashes i is xs j later h k m = cc
report_one (fails e) i is xs j later h k m = cc
report_one (delivers n d) i is xs j later h k (Memᴰ.head x) = Memᴰ.head x
report_one (delivers n d) i is xs j later h k (Memᴰ.tail x) =
    let first = finish_at i n d (get_elem? j.fragments i) j in
    let (a, b) = and_then-ok first (join_all xs) h in
    Memᴰ.tail (later first.0 (subst (λ p. p.1 ≡ ok tt) b h) k x)

pub all_report :
    (outcome : ℕ → Outcome) (is : List ℕ) (j : Job)
    → (join_all (results_of outcome is) j).1 ≡ ok tt
    → (k : ℕ) → Memᴰ k is
    → Memᴰ k (reported (results_of outcome is))
unfolding join_all
all_report outcome [] j h k m = absurd (none_in_nil m)
all_report outcome (i ∷ is) j h k m =
    report_one (outcome i) i is (results_of outcome is) j
      (λ j' h' k' m'. all_report outcome is j' h' k' m') h k m

-- The fragments are numbered from `n`.
abbrev pub Indexed : ℕ → List FragmentRecord → Type 0
Indexed n [] = Unit {0}
Indexed n (r ∷ rs) = ((r.info).index ≡ n) × Indexed (suc n) rs

in_rest : (b : Bool) (i k : ℕ) (rest : List ℕ) → Memᴰ k rest → Memᴰ k (if b then i ∷ rest else rest)
in_rest true i k rest m = Memᴰ.tail m
in_rest false i k rest m = m

-- The task of a fragment that is pending is spawned.
pub spawned :
    (n : ℕ) (fs : List FragmentRecord) (k : ℕ)
    → Indexed n fs
    → state_at fs k ≡ some FragmentState.pending
    → Memᴰ (n + k) (fragment_specs fs)
unfolding fragment_specs
spawned n [] k i h = cc
spawned n (r ∷ rs) zero (i, is) h =
    let e : r.state ≡ FragmentState.pending = some-eq h in rw e (Memᴰ.head (omega (arith, i)))
spawned n (r ∷ rs) (suc k) (i, is) h =
    let e : suc n + k ≡ n + suc k = omega arith in
    subst (λ x. Memᴰ x (fragment_specs (r ∷ rs))) e
      (in_rest (is_pending r.state) (r.info).index (suc n + k) (fragment_specs rs)
        (spawned (suc n) rs k is h))
