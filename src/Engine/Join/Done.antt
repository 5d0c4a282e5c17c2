-- ===== src/Engine/Join/Done.antt =====
-- execute_fragmented_download of downloader.rs: the states of the fragments on the way.
use ai_model_downloader.Base.{
  nat_eq, string_eq, ℕ, ◌+◌, ◌≡◌, refl, sym, ap, ◌∙◌, subst, ◌≢◌, ◌⊎◌, inl, inr, Option, none, some,
  List, [], ◌∷◌, arith, ℕ_discrete, get_elem?, set,
}
use ai_model_downloader.Core.Error.{DownloadResult, ok, err, panic}
use mathlib.Core.List.{Memᴰ}
use ai_model_downloader.Core.State.{DownloadState}
use ai_model_downloader.Engine.Fragment.{
  FragmentState, FragmentRecord, start_download, complete_download_fast,
}
use ai_model_downloader.Engine.Join.{
  Joined, panicked, failed, finished, Job, and_then, fragment_specs, start_at, start_all, finish_at,
  add_bytes, join, join_all, started, synced, execute_fragmented, start_and_join, Outcome,
  results_of,
}
use ai_model_downloader.Engine.Join.Reports.{
  reported, none_in_nil, and_then-ok, all_report, Indexed, spawned,
}
use ai_model_downloader.Engine.Join.Places.{
  state_at, state_at-same, state_at-other, state_at-get_elem?,
}

-- The fragments of `is` are done, and those that were done still are.
abbrev Finishes : List ℕ → List FragmentRecord → List FragmentRecord → Type 0
Finishes is before after =
    (j : ℕ)
    → Memᴰ j is ⊎ (state_at before j ≡ some FragmentState.done)
    → state_at after j ≡ some FragmentState.done

complete_done :
    (r : FragmentRecord) (n d : ℕ)
    → (complete_download_fast r n d).1 ≡ ok tt
    → (complete_download_fast r n d).0.state ≡ FragmentState.done
unfolding complete_download_fast
complete_done r n d h = ground arith

start_pending : (r : FragmentRecord) → (start_download r).1 ≡ ok tt → r.state ≢ FragmentState.done
unfolding start_download
start_pending r h d = ground arith

-- A completion that is accepted leaves the fragment done, and the others as they were.
set-Finishes :
    (fs : List FragmentRecord) (i : ℕ) (r r' : FragmentRecord)
    → get_elem? fs i ≡ some r
    → r'.state ≡ FragmentState.done
    → Finishes (i ∷ []) fs (set fs i r')
set-Finishes fs i r r' e d k m = elim (ℕ_discrete i k) [
  | yes q ↦
      subst (λ x. state_at (set fs i r') x ≡ some FragmentState.done) q
        (state_at-same fs i r r' e ∙ ap some d)
  | no q ↦ state_at-other fs i k r' q ∙ kept q m
]
  where
    kept :
        i ≢ k
        → Memᴰ k (i ∷ []) ⊎ (state_at fs k ≡ some FragmentState.done)
        → state_at fs k ≡ some FragmentState.done
    kept q (inl (Memᴰ.head x)) = absurd (q (sym x))
    kept q (inl (Memᴰ.tail x)) = absurd (none_in_nil x)
    kept q (inr x) = x

add_bytes-ok :
    (n : ℕ) (p : Job × DownloadResult (Unit {0}))
    → (add_bytes n p).1 ≡ ok tt
    → (p.1 ≡ ok tt) × ((add_bytes n p).0.fragments ≡ p.0.fragments)
add_bytes-ok n (j, ok u) h = (refl, refl)
add_bytes-ok n (j, err e) h = cc
add_bytes-ok n (j, panic) h = cc

finish-Finishes :
    (i n d : ℕ) (o : Option FragmentRecord) (j : Job)
    → get_elem? j.fragments i ≡ o
    → (finish_at i n d o j).1 ≡ ok tt
    → Finishes (i ∷ []) j.fragments (finish_at i n d o j).0.fragments
finish-Finishes i n d none j e h = cc
finish-Finishes i n d (some r) j e h =
    let (a, b) = add_bytes-ok n _ h in
    subst (Finishes (i ∷ []) j.fragments) (sym b)
      (set-Finishes j.fragments i r (complete_download_fast r n d).0 e (complete_done r n d a))

join_all-Finishes :
    (xs : List Joined) (j : Job)
    → (join_all xs j).1 ≡ ok tt
    → Finishes (reported xs) j.fragments (join_all xs j).0.fragments
unfolding join_all join
join_all-Finishes [] j h = λ k m. elim m [ inl x ↦ absurd (none_in_nil x) | inr x ↦ x ]
join_all-Finishes (panicked ∷ xs) j h = cc
join_all-Finishes (failed i e ∷ xs) j h = cc
join_all-Finishes (finished i n d ∷ xs) j h =
    λ k m. rest (join_all-Finishes xs first.0 (subst (λ p. p.1 ≡ ok tt) split.1 h)) k m
  where
    first : Job × DownloadResult (Unit {0})
    first = finish_at i n d (get_elem? j.fragments i) j

    split : (first.1 ≡ ok tt) × (and_then first (join_all xs) ≡ join_all xs first.0)
    split = and_then-ok first (join_all xs) h

    now : Finishes (i ∷ []) j.fragments first.0.fragments
    now = finish-Finishes i n d (get_elem? j.fragments i) j refl split.0

    rest :
        Finishes (reported xs) first.0.fragments (join_all xs first.0).0.fragments
        → Finishes (i ∷ reported xs) j.fragments (and_then first (join_all xs)).0.fragments
    rest later k (inl (Memᴰ.head x)) =
        subst (λ p. state_at p.0.fragments k ≡ some FragmentState.done) (sym split.1)
          (later k (inr (now k (inl (Memᴰ.head x)))))
    rest later k (inl (Memᴰ.tail x)) =
        subst (λ p. state_at p.0.fragments k ≡ some FragmentState.done) (sym split.1)
          (later k (inl x))
    rest later k (inr x) =
        subst (λ p. state_at p.0.fragments k ≡ some FragmentState.done) (sym split.1)
          (later k (inr (now k (inr x))))

start-Finishes :
    (i : ℕ) (o : Option FragmentRecord) (fs : List FragmentRecord)
    → get_elem? fs i ≡ o
    → (start_at i o fs).1 ≡ ok tt
    → Finishes [] fs (start_at i o fs).0
start-Finishes i none fs e h k m = cc
start-Finishes i (some r) fs e h k (inl x) = absurd (none_in_nil x)
start-Finishes i (some r) fs e h k (inr x) =
    state_at-other fs i k _
      (λ q. start_pending r h (same (sym (state_at-get_elem? fs i r e) ∙ ap (state_at fs) q ∙ x)))
    ∙ x
  where
    same : {a b : FragmentState} → some a ≡ some b → a ≡ b
    same y = cc

start_all-Finishes :
    (is : List ℕ) (fs : List FragmentRecord)
    → (start_all is fs).1 ≡ ok tt
    → Finishes [] fs (start_all is fs).0
unfolding start_all
start_all-Finishes [] fs h k (inl x) = absurd (none_in_nil x)
start_all-Finishes [] fs h k (inr x) = x
start_all-Finishes (i ∷ is) fs h k m =
    let (a, b) = and_then-ok (start_at i (get_elem? fs i) fs) (start_all is) h in
    subst (λ p. state_at p.0 k ≡ some FragmentState.done) (sym b)
      (start_all-Finishes is _ (subst (λ p. p.1 ≡ ok tt) b h) k
        (inr (start-Finishes i (get_elem? fs i) fs refl a k m)))

synced-ok :
    (sync : DownloadResult (Unit {0})) (j : Job)
    → (synced sync j).1 ≡ ok tt
    → ((synced sync j).0.state ≡ DownloadState.completed)
      × ((synced sync j).0.fragments ≡ j.fragments)
synced-ok (ok u) j h = (refl, refl)
synced-ok (err e) j h = cc
synced-ok panic j h = cc

start_and_join-Finishes :
    (results : List Joined) (sync : DownloadResult (Unit {0})) (j : Job)
    → ((begun : Job)
        → (join_all results begun).1 ≡ ok tt
        → (k : ℕ) → state_at j.fragments k ≢ none
        → Memᴰ k (reported results) ⊎ (state_at j.fragments k ≡ some FragmentState.done))
    → (start_and_join results sync j).1 ≡ ok tt
    → let t = (start_and_join results sync j).0 in
      (t.state ≡ DownloadState.completed)
      × ((k : ℕ) → state_at j.fragments k ≢ none → state_at t.fragments k ≡ some FragmentState.done)
unfolding start_and_join
start_and_join-Finishes results sync j covered h =
    let (joined, to_sync) = and_then-ok (and_then begun (join_all results)) (synced sync) h in
    let (begins, to_join) = and_then-ok begun (join_all results) joined in
    let (completes, same) =
      synced-ok sync (and_then begun (join_all results)).0 (subst (λ p. p.1 ≡ ok tt) to_sync h) in
    (
      ap (λ p. p.0.state) to_sync ∙ completes,
      λ k n.
          ap (λ p. state_at p.0.fragments k) to_sync
          ∙ ap (λ fs. state_at fs k) same
          ∙ ap (λ p. state_at p.0.fragments k) to_join
          ∙ join_all-Finishes results begun.0 (subst (λ p. p.1 ≡ ok tt) to_join joined) k
              (onward k begins (covered begun.0 (subst (λ p. p.1 ≡ ok tt) to_join joined) k n)),
    )
  where
    begun : Job × DownloadResult (Unit {0})
    begun = started j (start_all (fragment_specs j.fragments) j.fragments)

    onward :
        (k : ℕ)
        → begun.1 ≡ ok tt
        → Memᴰ k (reported results) ⊎ (state_at j.fragments k ≡ some FragmentState.done)
        → Memᴰ k (reported results) ⊎ (state_at begun.0.fragments k ≡ some FragmentState.done)
    onward k b (inl x) = inl x
    onward k b (inr x) =
        inr (start_all-Finishes (fragment_specs j.fragments) j.fragments b k (inr x))

-- When a fragmented download returns, whatever the order in which its tasks end and whatever they answer:
-- if its fragments are numbered from 0 and each was pending or done (resumed) before it, and each task
-- that is spawned is joined, then every fragment is done and the download is completed.
pub execute_fragmented_done :
    (outcome : ℕ → Outcome) (arrange : List ℕ → List ℕ) (sync : DownloadResult (Unit {0})) (j : Job)
    → ((is : List ℕ) (k : ℕ) → Memᴰ k is → Memᴰ k (arrange is))
    → Indexed 0 j.fragments
    → ((k : ℕ)
        → state_at j.fragments k ≢ none
        → (state_at j.fragments k ≡ some FragmentState.pending)
          ⊎ (state_at j.fragments k ≡ some FragmentState.done))
    → (execute_fragmented outcome arrange sync j).1 ≡ ok tt
    → let t = (execute_fragmented outcome arrange sync j).0 in
      (t.state ≡ DownloadState.completed)
      × ((k : ℕ) → state_at j.fragments k ≢ none → state_at t.fragments k ≡ some FragmentState.done)
unfolding execute_fragmented
execute_fragmented_done outcome arrange sync j joins numbered ready h =
    start_and_join-Finishes (results_of outcome specs) sync j covered h
  where
    specs : List ℕ
    specs = arrange (fragment_specs j.fragments)

    covered :
        (begun : Job)
        → (join_all (results_of outcome specs) begun).1 ≡ ok tt
        → (k : ℕ) → state_at j.fragments k ≢ none
        → Memᴰ k (reported (results_of outcome specs))
          ⊎ (state_at j.fragments k ≡ some FragmentState.done)
    covered begun e k n = elim (ready k n) [
      | inl p ↦
          let from_zero : 0 + k ≡ k = omega arith in
          let mine : Memᴰ k (fragment_specs j.fragments) =
            subst (λ x. Memᴰ x (fragment_specs j.fragments)) from_zero
              (spawned 0 j.fragments k numbered p) in
          inl (all_report outcome specs begun e k (joins (fragment_specs j.fragments) k mine))
      | inr d ↦ inr d
    ]
