-- ===== src/Engine/Full/Resumed.antt =====
-- execute_full_download of downloader.rs for a task whose first fragment an earlier run has completed.
use ai_model_downloader.Base.{
  nat_eq, string_eq, ℕ, ◌≡◌, sym, subst, ◌≢◌, inl, inr, List, ◌∷◌, arith, Bool-cases,
}
use ai_model_downloader.Core.Error.{DownloadError, DownloadResult, ok, err, panic}
use ai_model_downloader.Engine.Async.{Async, returns, throws, panics, waits, exhausted}
use ai_model_downloader.Engine.Control.{wait_control, watch_for_interrupt}
use ai_model_downloader.Engine.Storage.{AsyncStorage}
use ai_model_downloader.Engine.Write.Whole.{interrupt_never}
use ai_model_downloader.Engine.Fragment.{
  FragmentState, FragmentRecord, start_download, complete_download_fast,
}
use ai_model_downloader.Engine.Full.{
  Answered, answered, stopped, Meets, complete_first, Task, done_with, sized, looped, opened,
  hosted, allowed, execute_full_download,
}

complete_first_done :
    (pos elapsed : ℕ) (r : FragmentRecord) (rs : List FragmentRecord)
    → r.state ≡ FragmentState.done
    → (complete_first pos elapsed (r ∷ rs)).1 ≡ err DownloadError.fragment
unfolding complete_first start_download complete_download_fast
complete_first_done pos elapsed r rs h = ground arith

module _ (storage : AsyncStorage) where
  open storage use {State}

  done_with_never :
      (t : Task storage) (x : List FragmentRecord × DownloadResult (Unit {0}))
      → x.1 ≡ err DownloadError.fragment
      → (done_with storage t x).1 ≢ returns tt
  done_with_never t (fs, ok u) e = cc
  done_with_never t (fs, err e') e = λ h. cc
  done_with_never t (fs, panic) e = λ h. cc

  module _ (m : Meets) (t : Task storage) (r : FragmentRecord) (rs : List FragmentRecord)
      (first : t.fragments ≡ r ∷ rs) (is_done : r.state ≡ FragmentState.done) where
    looped_never : (x : State × Async ℕ) → (looped storage m t x).1 ≢ returns tt
    looped_never (s, returns pos) = elim (Bool-cases (sized storage m.expected_size pos)) [
      | inl z ↦ rw z (
          done_with_never (record t { stored = s }) (complete_first pos m.elapsed t.fragments)
            (subst (λ fs. (complete_first pos m.elapsed fs).1 ≡ err DownloadError.fragment)
              (sym first) (complete_first_done pos m.elapsed r rs is_done)))
      | inr z ↦ rw z (λ h. cc)
    ]
    looped_never (s, throws e) = λ h. cc
    looped_never (s, panics) = λ h. cc
    looped_never (s, waits) = λ h. cc
    looped_never (s, exhausted) = λ h. cc

    opened_never : (x : Answered) → (opened storage m x t).1 ≢ returns tt
    opened_never (stopped c) = interrupt_never (watch_for_interrupt c) tt
    opened_never (answered (err e)) = λ h. cc
    opened_never (answered panic) = λ h. cc
    opened_never (answered (ok pieces)) = looped_never _

    hosted_never : (x : DownloadResult (Unit {0})) → (hosted storage m x t).1 ≢ returns tt
    hosted_never (ok u) = opened_never m.answer
    hosted_never (err e) = λ h. cc
    hosted_never panic = λ h. cc

    allowed_never : (x : Async (Unit {0})) → (allowed storage m x t).1 ≢ returns tt
    allowed_never (returns u) = hosted_never m.host
    allowed_never (throws e) = λ h. cc
    allowed_never panics = λ h. cc
    allowed_never waits = λ h. cc
    allowed_never exhausted = λ h. cc

    -- A task whose first fragment is done already never succeeds in a download in one stream, even if
    -- all the bytes arrive and are written.
    pub execute_full_download_resumed : (execute_full_download storage m t).1 ≢ returns tt
    unfolding execute_full_download
    execute_full_download_resumed = allowed_never (wait_control m.control)
