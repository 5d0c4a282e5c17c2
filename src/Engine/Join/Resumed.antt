-- ===== src/Engine/Join/Resumed.antt =====
-- plan of downloader.rs for a download that an earlier run has begun.
use ai_model_downloader.Base.{
  nat_eq, string_eq, ℕ, zero, suc, ◌≡◌, refl, sym, ap, ◌∙◌, subst, ◌≢◌, Bool, true, false, ◌||◌,
  Option, none, some, List, [], ◌∷◌, map, arith, ℕ_discrete, ltb, ◌==◌, if◌then◌else◌, ne→==,
  length, get_elem?,
}
use ai_model_downloader.Core.Error.{DownloadResult, ok, err, panic}
use ai_model_downloader.Core.FragmentInfo.{FragmentInfo}
use ai_model_downloader.Engine.Fragment.{
  FragmentState, FragmentRecord, new, start_download, complete_download_fast,
}
use ai_model_downloader.Engine.Join.{and_then, resume_in, resume_at, resume, plan_records}
use ai_model_downloader.Engine.Join.Places.{
  state_at, state_at-same, state_at-other, state_at-get_elem?,
}

abbrev pub elem : ℕ → List ℕ → Bool
elem k [] = false
elem k (i ∷ is) = (k == i) || elem k is

-- What resuming makes of a state, where its fragment is listed.
abbrev resumed_state : Bool → FragmentState → FragmentState
resumed_state true FragmentState.pending = FragmentState.done
resumed_state _ s = s

abbrev resumed_option : Bool → Option FragmentState → Option FragmentState
resumed_option b none = none
resumed_option b (some s) = some (resumed_state b s)

resume_in-state :
    (r : FragmentRecord)
    → ((resume_in r.state r).1 ≡ ok tt)
      × ((resume_in r.state r).0.state ≡ resumed_state true r.state)
unfolding start_download complete_download_fast
resume_in-state r = ground arith

resumed_never : (o : Option FragmentState) → resumed_option false o ≡ o
resumed_never o = ground arith

state_at-none : (fs : List FragmentRecord) (i : ℕ) → get_elem? fs i ≡ none → state_at fs i ≡ none
state_at-none [] i h = refl
state_at-none (f ∷ fs) zero h = cc
state_at-none (f ∷ fs) (suc i) h = state_at-none fs i h

eq_self : (k : ℕ) → (k == k) ≡ true
eq_self k = ground arith

-- At the place of the write, and elsewhere.
at_place :
    (fs fs' : List FragmentRecord) (i k : ℕ)
    → state_at fs' i ≡ resumed_option true (state_at fs i)
    → (i ≢ k → state_at fs' k ≡ state_at fs k)
    → state_at fs' k ≡ resumed_option (k == i) (state_at fs k)
at_place fs fs' i k here other = elim (ℕ_discrete i k) [
  | yes q ↦
      subst (λ x. state_at fs' x ≡ resumed_option (x == i) (state_at fs x)) q
        (here ∙ ap (λ b. resumed_option b (state_at fs i)) (sym (eq_self i)))
  | no q ↦
      other q
      ∙ sym (
          ap (λ b. resumed_option b (state_at fs k)) (ne→== k i (λ h. q (sym h)))
          ∙ resumed_never (state_at fs k))
]

resume_at-state :
    (i : ℕ) (o : Option FragmentRecord) (fs : List FragmentRecord) (k : ℕ)
    → get_elem? fs i ≡ o
    → ((resume_at i o fs).1 ≡ ok tt)
      × (state_at (resume_at i o fs).0 k ≡ resumed_option (k == i) (state_at fs k))
resume_at-state i none fs k e = (
  refl,
  at_place fs fs i k (state_at-none fs i e ∙ sym (ap (resumed_option true) (state_at-none fs i e)))
      (λ q. refl),
)
resume_at-state i (some r) fs k e = (
  (resume_in-state r).0,
  at_place fs _ i k
      (state_at-same fs i r _ e
        ∙ ap some (resume_in-state r).1
        ∙ sym (ap (resumed_option true) (state_at-get_elem? fs i r e)))
      (λ q. state_at-other fs i k _ q),
)

resumed_twice :
    (a b : Bool) (o : Option FragmentState)
    → resumed_option b (resumed_option a o) ≡ resumed_option (a || b) o
resumed_twice a b o = ground arith

and_then-returns :
    {A : Type 0} (p : A × DownloadResult (Unit {0})) (k : A → A × DownloadResult (Unit {0}))
    → p.1 ≡ ok tt
    → and_then p k ≡ k p.0
and_then-returns (a, ok u) k h = refl
and_then-returns (a, err e) k h = cc
and_then-returns (a, panic) k h = cc

resume-state :
    (is : List ℕ) (fs : List FragmentRecord) (k : ℕ)
    → ((resume is fs).1 ≡ ok tt)
      × (state_at (resume is fs).0 k ≡ resumed_option (elem k is) (state_at fs k))
unfolding resume
resume-state [] fs k = (refl, sym (resumed_never (state_at fs k)))
resume-state (i ∷ is) fs k =
    let (a, b) = resume_at-state i (get_elem? fs i) fs k refl in
    let (c, d) = resume-state is (resume_at i (get_elem? fs i) fs).0 k in
    let goes = and_then-returns (resume_at i (get_elem? fs i) fs) (resume is) a in
    (
      ap (λ p. p.1) goes ∙ c,
      ap (λ p. state_at p.0 k) goes
          ∙ d
          ∙ ap (resumed_option (elem k is)) b
          ∙ resumed_twice (k == i) (elem k is) (state_at fs k),
    )

planned-state :
    (max_retries : ℕ) (infos : List FragmentInfo) (k : ℕ)
    → state_at (map (λ info. new info max_retries) infos) k
      ≡ (if ltb k (length infos) then some FragmentState.pending else none)
unfolding new
planned-state max_retries [] k = ground arith
planned-state max_retries (f ∷ fs) zero = ground arith
planned-state max_retries (f ∷ fs) (suc k) =
    planned-state max_retries fs k
    ∙ ap (λ b. if b then some FragmentState.pending else none) (ground arith)

-- Planning always succeeds on a list of completed fragments, in whatever order, with repetitions or
-- out of range: the fragments of the plan that are listed are done, all others are pending.
pub plan_records-state :
    (max_retries : ℕ) (completed : List ℕ) (infos : List FragmentInfo) (k : ℕ)
    → ((plan_records max_retries completed infos).1 ≡ ok tt)
      × (state_at (plan_records max_retries completed infos).0 k ≡ (
          if ltb k (length infos)
          then some (if elem k completed then FragmentState.done else FragmentState.pending)
          else none))
unfolding plan_records
plan_records-state max_retries completed infos k =
    let (a, b) = resume-state completed (map (λ info. new info max_retries) infos) k in
    (
      a,
      b ∙ ap (resumed_option (elem k completed)) (planned-state max_retries infos k) ∙ ground arith,
    )
