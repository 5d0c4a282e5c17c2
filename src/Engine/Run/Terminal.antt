-- ===== src/Engine/Run/Terminal.antt =====
-- downloader.rs: how run ends, and what verify asks for.
use ai_model_downloader.Base.{
  nat_eq, string_eq, ◌≡◌, refl, sym, ap, subst, ◌⊎◌, inl, inr, Bool, true, false, ◌||◌, Option,
  none, some, List, [], ◌∷◌, arith, if◌then◌else◌, Bool-cases, All,
}
use ai_model_downloader.Core.Error.{DownloadError, DownloadResult, ok, err, panic}
use ai_model_downloader.Engine.Async.{Async, returns, throws, panics, waits, exhausted}
use Prim.Native.String.{String}
use ai_model_downloader.Core.State.{DownloadState, try_transition, is_valid_transition}
use ai_model_downloader.Core.FragmentInfo.{FragmentInfo}
use ai_model_downloader.Engine.Fragment.{FragmentRecord}
use ai_model_downloader.Engine.Run.{
  Task, Meets, Step, ◌then◌, verify_one, verify_each, verify, complete, is_cancelled,
  is_cancelled_error, forced, apply_terminal_error, ended, run_inner, run,
}

forced_target : (s target : DownloadState) → forced target (try_transition s target) ≡ target
unfolding try_transition
forced_target s target = elim (Bool-cases (is_valid_transition s target)) [
  | inl h ↦ rw h refl
  | inr h ↦ rw h refl
]

-- The state that an error leaves, whatever the state before.
apply_terminal_error_target :
    (e : DownloadError) (s : DownloadState)
    → apply_terminal_error e s ≡ (
        if is_cancelled_error e || is_cancelled s
        then DownloadState.cancelled
        else DownloadState.failed)
unfolding apply_terminal_error
apply_terminal_error_target e s = forced_target s _

-- Where a run ends: completed if it returns; cancelled or failed if it throws, and cancelled in any
-- case if the error says so.
pub record Ends (r : Task × Async (Unit {0})) : Type 0 where
  pub returned : r.1 ≡ returns tt → r.0.state ≡ DownloadState.completed
  pub thrown :
      (e : DownloadError)
      → r.1 ≡ throws e
      → (r.0.state ≡ DownloadState.cancelled)
        ⊎ ((r.0.state ≡ DownloadState.failed) × (is_cancelled_error e ≡ false))

then_complete :
    (p : Task × Async (Unit {0}))
    → (p then complete).1 ≡ returns tt
    → (p then complete).0.state ≡ DownloadState.completed
then_complete (t, returns u) h = refl
then_complete (t, throws e) h = cc
then_complete (t, panics) h = cc
then_complete (t, waits) h = cc
then_complete (t, exhausted) h = cc

-- The two ways to end with an error.
abbrev Thrown : DownloadError → DownloadState → Type 0
Thrown e s =
    (s ≡ DownloadState.cancelled) ⊎ ((s ≡ DownloadState.failed) × (is_cancelled_error e ≡ false))

target : (e : DownloadError) (s : DownloadState) → Thrown e (apply_terminal_error e s)
target e s = elim (Bool-cases (is_cancelled_error e || is_cancelled s)) [
  | inl h ↦ inl (rw (apply_terminal_error_target e s, h) refl)
  | inr h ↦ inr (rw (apply_terminal_error_target e s, h) refl, ground arith)
]

same : {a b : DownloadError} → ◌≡◌ {A = Async (Unit {0})} (throws a) (throws b) → a ≡ b
same h = cc

ended-Ends :
    (p : Task × Async (Unit {0}))
    → (p.1 ≡ returns tt → p.0.state ≡ DownloadState.completed)
    → Ends (ended p)
ended-Ends (t, returns u) h = record { returned = h; thrown = λ e q. cc }
ended-Ends (t, throws e) h = record {
  returned = λ q. cc;
  thrown =
      λ x q. subst (λ y. Thrown y (apply_terminal_error e t.state)) (same q) (target e t.state);
}
ended-Ends (t, panics) h = record { returned = λ q. cc; thrown = λ e q. cc }
ended-Ends (t, waits) h = record { returned = λ q. cc; thrown = λ e q. cc }
ended-Ends (t, exhausted) h = record { returned = λ q. cc; thrown = λ e q. cc }

-- However the steps of a run go, it ends completed if it returns; if it throws it ends cancelled or
-- failed, and cancelled if the error is the cancellation.
pub run-Ends : (m : Meets) (t : Task) → Ends (run m t)
unfolding run run_inner
run-Ends m t = ended-Ends (run_inner m t) (then_complete _)

abbrev pub is_some : Option String → Bool
is_some none = false
is_some (some h) = true

abbrev pub has_digest : List FragmentRecord → Bool
has_digest [] = false
has_digest (r ∷ rs) = is_some (r.info).hash || has_digest rs

-- What the verification has found where it returns.
pub record Verified (digest : FragmentInfo → DownloadResult String)
    (fragments : List FragmentRecord) : Type 0 where
  pub matching : All (λ r. (h : String) → (r.info).hash ≡ some h → digest r.info ≡ ok h) fragments
  pub any_expected : has_digest fragments ≡ true

one-Verified :
    (o : Option String) (c : DownloadResult String) (next found : Step) (t : Task)
    → (verify_one o c next found t).1 ≡ returns tt
    → ((o ≡ none) × ((next t).1 ≡ returns tt))
      ⊎ ((h : String) × (o ≡ some h) × (c ≡ ok h) × ((found t).1 ≡ returns tt))
one-Verified none c next found t q = inl (refl, q)
one-Verified (some h) (err e) next found t q = cc
one-Verified (some h) panic next found t q = cc
one-Verified (some h) (ok c) next found t q = elim (Bool-cases (string_eq.beq c h)) [
  | inl e ↦ inr (h, refl, ap ok ((string_eq.beq_iff c h).0 e), rw e at q)
  | inr e ↦ cc (rw e at q)
]

each-Verified :
    (digest : FragmentInfo → DownloadResult String) (rs : List FragmentRecord) (b : Bool) (t : Task)
    → (verify_each digest rs b t).1 ≡ returns tt
    → All (λ r. (h : String) → (r.info).hash ≡ some h → digest r.info ≡ ok h) rs
      × ((b || has_digest rs) ≡ true)
unfolding verify_each
each-Verified digest [] true t q = (tt, refl)
each-Verified digest [] false t q = cc
each-Verified digest (r ∷ rs) b t q =
    elim (one-Verified (r.info).hash (digest r.info) (verify_each digest rs b)
      (verify_each digest rs true) t q) [
        | inl (e, k) ↦
            let (a, c) = each-Verified digest rs b t k in
            (((λ h k. cc), a), subst (λ o. (b || (is_some o || has_digest rs)) ≡ true) (sym e) c)
        | inr (x, e, c, k) ↦
            let (a, _) = each-Verified digest rs true t k in
            (
              ((λ h k. cc), a),
              subst (λ o. (b || (is_some o || has_digest rs)) ≡ true) (sym e) (ground arith),
            )
      ]

-- A verification that is asked for returns only if at least one fragment has an expected digest, and what
-- is read of every fragment that has one gives that digest.
pub verify-Verified :
    (digest : FragmentInfo → DownloadResult String) (t : Task)
    → (verify true digest t).1 ≡ returns tt
    → Verified digest t.fragments
unfolding verify
verify-Verified digest t q = elim (Bool-cases t.stored) [
  | inl s ↦
      let (a, b) =
        each-Verified digest t.fragments false
          (record t { state = DownloadState.verifying; stored = true }) (rw s at q) in
      record { matching = a; any_expected = b }
  | inr s ↦ cc (rw s at q)
]
