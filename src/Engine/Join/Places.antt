-- ===== src/Engine/Join/Places.antt =====
-- The state of the fragment at a place, and what a write to the list does to it.
use ai_model_downloader.Base.{
  nat_eq, string_eq, ℕ, zero, suc, ◌≡◌, refl, ap, ◌≢◌, Option, none, some, List, [], ◌∷◌, get_elem?,
  set,
}
use ai_model_downloader.Engine.Fragment.{FragmentState, FragmentRecord}

abbrev pub state_at : List FragmentRecord → ℕ → Option FragmentState
state_at [] j = none
state_at (r ∷ rs) zero = some r.state
state_at (r ∷ rs) (suc j) = state_at rs j

pub state_at-same :
    (fs : List FragmentRecord) (i : ℕ) (r r' : FragmentRecord)
    → get_elem? fs i ≡ some r
    → state_at (set fs i r') i ≡ some r'.state
state_at-same [] i r r' h = cc
state_at-same (f ∷ fs) zero r r' h = refl
state_at-same (f ∷ fs) (suc i) r r' h = state_at-same fs i r r' h

pub state_at-other :
    (fs : List FragmentRecord) (i j : ℕ) (r' : FragmentRecord)
    → i ≢ j
    → state_at (set fs i r') j ≡ state_at fs j
state_at-other [] i j r' n = refl
state_at-other (f ∷ fs) zero zero r' n = absurd (n refl)
state_at-other (f ∷ fs) zero (suc j) r' n = refl
state_at-other (f ∷ fs) (suc i) zero r' n = refl
state_at-other (f ∷ fs) (suc i) (suc j) r' n = state_at-other fs i j r' (λ h. n (ap suc h))

pub state_at-get_elem? :
    (fs : List FragmentRecord) (i : ℕ) (r : FragmentRecord)
    → get_elem? fs i ≡ some r
    → state_at fs i ≡ some r.state
state_at-get_elem? [] i r h = cc
state_at-get_elem? (f ∷ fs) zero r h = cc
state_at-get_elem? (f ∷ fs) (suc i) r h = state_at-get_elem? fs i r h

pub get_elem?-state_at :
    (fs : List FragmentRecord) (i : ℕ) (s : FragmentState)
    → state_at fs i ≡ some s
    → (r : FragmentRecord) × (get_elem? fs i ≡ some r) × (r.state ≡ s)
get_elem?-state_at [] i s h = cc
get_elem?-state_at (f ∷ fs) zero s h = (f, refl, cc)
get_elem?-state_at (f ∷ fs) (suc i) s h = get_elem?-state_at fs i s h
