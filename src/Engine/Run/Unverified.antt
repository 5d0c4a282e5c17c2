-- ===== src/Engine/Run/Unverified.antt =====
-- downloader.rs: a run that is asked to check digests.
use ai_model_downloader.Base.{
  nat_eq, string_eq, ◌≡◌, refl, sym, ap, ◌∙◌, subst, inl, inr, Bool, true, false, Option, none,
  some, List, [], ◌∷◌, ltb, ◌==◌, if◌then◌else◌, Bool-cases, ℕ,
}
use Prim.Native.String.{String}
use ai_model_downloader.Core.Error.{DownloadError, DownloadResult, ok, err, panic}
use ai_model_downloader.Core.State.{DownloadState, try_transition, is_valid_transition}
use ai_model_downloader.Core.FragmentInfo.{FragmentInfo}
use ai_model_downloader.Engine.Async.{Async, returns, throws, panics, waits, exhausted}
use ai_model_downloader.Engine.Fragment.{FragmentRecord}
use ai_model_downloader.Engine.Join.{plan_records}
use ai_model_downloader.Engine.Join.Hashless.{Unhashed, plan_records-Unhashed}
use ai_model_downloader.Engine.Plan.{plan_fragments}
use ai_model_downloader.Engine.Plan.Hashless.{Planned, plan_fragments-Planned}
use ai_model_downloader.Engine.Run.{
  Task, Meets, Metadata, Raced, finished, stopped, Step, ◌then◌, probe, init_storage,
  check_cancelled, recorded, planned_as, size_or_zero, plan_of, plan, allocate_size, allocate,
  prepare_storage, transferred, execute_size, execute_of, execute, failed_with, verify_each,
  needs_storage, verify, verify_raced, complete, transfer_file, apply_terminal_error, ended,
  run_inner, run,
}

then-parts :
    (p : Task × Async (Unit {0})) (next : Step)
    → (p then next).1 ≡ returns tt
    → (p.1 ≡ returns tt) × ((p then next) ≡ next p.0)
then-parts (t, returns u) next h = (refl, refl)
then-parts (t, throws e) next h = cc
then-parts (t, panics) next h = cc
then-parts (t, waits) next h = cc
then-parts (t, exhausted) next h = cc

recorded-fragments :
    (p : List FragmentRecord × DownloadResult (Unit {0})) (t : Task)
    → Unhashed p.0
    → Unhashed (recorded p t).0.fragments
recorded-fragments (fs, a) t h = h

planned_as-Unhashed :
    (max_retries : ℕ) (completed : List ℕ) (o : Option (DownloadResult (List FragmentInfo)))
    (t : Task)
    → Planned o
    → (planned_as max_retries completed o t).1 ≡ returns tt
    → Unhashed (planned_as max_retries completed o t).0.fragments
planned_as-Unhashed max_retries completed none t a h = cc
planned_as-Unhashed max_retries completed (some (ok infos)) t a h =
    recorded-fragments (plan_records max_retries completed infos) t
      (plan_records-Unhashed max_retries completed infos a)
planned_as-Unhashed max_retries completed (some (err e)) t a h = cc
planned_as-Unhashed max_retries completed (some panic) t a h = cc

plan_of-Unhashed :
    (m : Meets) (o : Option Metadata) (t : Task)
    → (plan_of m o t).1 ≡ returns tt
    → Unhashed (plan_of m o t).0.fragments
plan_of-Unhashed m none t h = cc
plan_of-Unhashed m (some md) t h =
    planned_as-Unhashed m.max_retries m.completed_fragments
      (plan_fragments m.scheduler m.bandwidth_bps (size_or_zero md.file_size) md.supports_range
        m.suggested_frag_size)
      t
      (plan_fragments-Planned m.scheduler m.bandwidth_bps (size_or_zero md.file_size)
        md.supports_range m.suggested_frag_size)
      h

plan-Unhashed : (m : Meets) (t : Task) → (plan m t).1 ≡ returns tt → Unhashed (plan m t).0.fragments
unfolding plan
plan-Unhashed m t h = plan_of-Unhashed m t.metadata t h

allocate_size_kept :
    (o : Option ℕ) (r : DownloadResult (Unit {0})) (t : Task) → (allocate_size o r t).0 ≡ t
allocate_size_kept none r t = refl
allocate_size_kept (some n) r t = elim (Bool-cases (ltb 0 n)) [
  | inl e ↦ rw e refl
  | inr e ↦ rw e refl
]

allocate_kept :
    (o : Option Metadata) (stored : Bool) (r : DownloadResult (Unit {0})) (t : Task)
    → (allocate o stored r t).1 ≡ returns tt
    → (stored ≡ true) × ((allocate o stored r t).0 ≡ t)
allocate_kept none stored r t h = cc
allocate_kept (some md) false r t h = cc
allocate_kept (some md) true r t h = (refl, allocate_size_kept md.file_size r t)

prepare_kept :
    (r : Raced (DownloadResult (Unit {0}))) (t : Task)
    → (prepare_storage r t).1 ≡ returns tt
    → (t.stored ≡ true) × ((prepare_storage r t).0 ≡ t)
prepare_kept stopped t h = cc
prepare_kept (finished r) t h = allocate_kept t.metadata t.stored r t h

-- A task with its storage and fragments without expected digests.
record Ready (t : Task) : Type 0 where
  stored : t.stored ≡ true
  unhashed : Unhashed t.fragments

transferred-Ready :
    (x : DownloadState × Async (Unit {0})) (t : Task) → Ready t → Ready (transferred x t).0
transferred-Ready (s, r) t v = record { stored = v.stored; unhashed = v.unhashed }

execute_size-Ready :
    (o : Option ℕ) (x : DownloadState × Async (Unit {0})) (t : Task)
    → Ready t
    → Ready (execute_size o x t).0
execute_size-Ready none x t v = transferred-Ready x t v
execute_size-Ready (some n) x t v = elim (Bool-cases (n == 0)) [
  | inl e ↦ rw e (record { stored = v.stored; unhashed = v.unhashed })
  | inr e ↦ rw e (transferred-Ready x t v)
]

execute_of-Ready :
    (o : Option Metadata) (x : DownloadState × Async (Unit {0})) (t : Task)
    → Ready t
    → Ready (execute_of o x t).0
execute_of-Ready none x t v = v
execute_of-Ready (some md) x t v = execute_size-Ready md.file_size x t v

execute-Ready : (x : DownloadState × Async (Unit {0})) (t : Task) → Ready t → Ready (execute x t).0
unfolding execute
execute-Ready x t v =
    execute_of-Ready t.metadata x (record t { state = DownloadState.downloading })
      (record { stored = v.stored; unhashed = v.unhashed })

transfer_file-Ready :
    (m : Meets) (t : Task) → (transfer_file m t).1 ≡ returns tt → Ready (transfer_file m t).0
unfolding transfer_file
transfer_file-Ready m t h =
    let checked =
      probe m.probed t.metadata t then init_storage m.opened then check_cancelled m.cancelled in
    let planned = checked then plan m in
    let prepared = planned then prepare_storage m.prepared in
    let (prepares, to_execute) = then-parts prepared (execute m.transfer) h in
    let (plans, to_prepare) = then-parts planned (prepare_storage m.prepared) prepares in
    let (checks, to_plan) = then-parts checked (plan m) plans in
    let (has, kept) =
      prepare_kept m.prepared planned.0 (subst (λ p. p.1 ≡ returns tt) to_prepare prepares) in
    let at_plan : Unhashed planned.0.fragments =
      subst (λ p. Unhashed p.0.fragments) (sym to_plan)
        (plan-Unhashed m checked.0 (subst (λ p. p.1 ≡ returns tt) to_plan plans)) in
    let at_prepared : Ready prepared.0 =
      subst (λ p. Ready p.0) (sym to_prepare)
        (subst Ready (sym kept) (record { stored = has; unhashed = at_plan })) in
    subst (λ p. Ready p.0) (sym to_execute) (execute-Ready m.transfer prepared.0 at_prepared)

verify_each_none :
    (digest : FragmentInfo → DownloadResult String) (rs : List FragmentRecord) (t : Task)
    → Unhashed rs
    → verify_each digest rs false t ≡ failed_with DownloadError.no_expected_checksum t
unfolding verify_each
verify_each_none digest [] t a = refl
verify_each_none digest (r ∷ rs) t (h, a) = rw h (verify_each_none digest rs t a)

verify_none :
    (digest : FragmentInfo → DownloadResult String) (t : Task)
    → Ready t
    → verify true digest t ≡ failed_with DownloadError.no_expected_checksum t
unfolding verify
verify_none digest t v =
    ap
      (λ b.
        needs_storage b (verify_each digest t.fragments false)
          (record t { state = DownloadState.verifying }))
      v.stored
    ∙ verify_each_none digest t.fragments (record t { state = DownloadState.verifying }) v.unhashed

-- What is left of a run after a transfer that returned.
ends_unverified :
    (digest : FragmentInfo → DownloadResult String) (p : Task × Async (Unit {0}))
    → p.1 ≡ returns tt
    → Ready p.0
    → let r = ended (p then verify_raced false true digest then complete) in
      (r.1 ≡ throws DownloadError.no_expected_checksum) × (r.0.state ≡ DownloadState.failed)
unfolding apply_terminal_error try_transition is_valid_transition
ends_unverified digest (t, returns u) h v =
    let e = verify_none digest t v in
    (ap (λ q. (ended (q then complete)).1) e, ap (λ q. (ended (q then complete)).0.state) e)
ends_unverified digest (t, throws e) h v = cc
ends_unverified digest (t, panics) h v = cc
ends_unverified digest (t, waits) h v = cc
ends_unverified digest (t, exhausted) h v = cc

-- Whatever the file and the server are: a run that is to check digests and whose transfer has succeeded
-- fails for want of an expected digest, unless it is stopped before the check.
pub run_unverified :
    (m : Meets) (t : Task)
    → m.verify_checksum ≡ true
    → m.verify_stopped ≡ false
    → (transfer_file m t).1 ≡ returns tt
    → ((run m t).1 ≡ throws DownloadError.no_expected_checksum)
      × ((run m t).0.state ≡ DownloadState.failed)
unfolding run run_inner
run_unverified m t checks on h =
    rw (checks, on) (ends_unverified m.digest (transfer_file m t) h (transfer_file-Ready m t h))
