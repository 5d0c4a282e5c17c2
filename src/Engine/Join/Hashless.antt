-- ===== src/Engine/Join/Hashless.antt =====
-- plan of downloader.rs: its records have no expected digest where its fragments have none.
use ai_model_downloader.Base.{
  nat_eq, string_eq, ℕ, zero, suc, ◌≡◌, refl, ap, ◌∙◌, Option, none, some, List, [], ◌∷◌, map,
  arith, some-eq, get_elem?, set, All, sym,
}
use ai_model_downloader.Core.Error.{DownloadResult, ok, err, panic}
use ai_model_downloader.Core.FragmentInfo.{FragmentInfo}
use ai_model_downloader.Engine.Fragment.{
  FragmentRecord, new, start_download, complete_download_fast,
}
use ai_model_downloader.Engine.Join.{and_then, resume_in, resume_at, resume, plan_records}
use ai_model_downloader.Engine.Plan.Hashless.{Hashless}

abbrev pub Unhashed : List FragmentRecord → Type 0
Unhashed rs = All (λ r. (r.info).hash ≡ none) rs

resume_in-hash : (r : FragmentRecord) → ((resume_in r.state r).0.info).hash ≡ (r.info).hash
unfolding start_download complete_download_fast
resume_in-hash r = ground arith

get-hash :
    (rs : List FragmentRecord) (i : ℕ) (r : FragmentRecord)
    → Unhashed rs
    → get_elem? rs i ≡ some r
    → (r.info).hash ≡ none
get-hash [] i r a h = cc
get-hash (x ∷ rs) zero r (p, a) h =
    let e : x ≡ r = some-eq h in ap (λ (y : FragmentRecord). (y.info).hash) (sym e) ∙ p
get-hash (x ∷ rs) (suc i) r (p, a) h = get-hash rs i r a h

set-Unhashed :
    (rs : List FragmentRecord) (i : ℕ) (r : FragmentRecord)
    → Unhashed rs
    → (r.info).hash ≡ none
    → Unhashed (set rs i r)
set-Unhashed [] i r a h = tt
set-Unhashed (x ∷ rs) zero r (p, a) h = (h, a)
set-Unhashed (x ∷ rs) (suc i) r (p, a) h = (p, set-Unhashed rs i r a h)

resume_at-Unhashed :
    (i : ℕ) (o : Option FragmentRecord) (rs : List FragmentRecord)
    → get_elem? rs i ≡ o
    → Unhashed rs
    → Unhashed (resume_at i o rs).0
resume_at-Unhashed i none rs h a = a
resume_at-Unhashed i (some r) rs h a =
    set-Unhashed rs i (resume_in r.state r).0 a (resume_in-hash r ∙ get-hash rs i r a h)

and_then-Unhashed :
    (p : List FragmentRecord × DownloadResult (Unit {0}))
    (k : List FragmentRecord → List FragmentRecord × DownloadResult (Unit {0}))
    → Unhashed p.0
    → ((rs : List FragmentRecord) → Unhashed rs → Unhashed (k rs).0)
    → Unhashed (and_then p k).0
and_then-Unhashed (rs, ok u) k a f = f rs a
and_then-Unhashed (rs, err e) k a f = a
and_then-Unhashed (rs, panic) k a f = a

resume-Unhashed : (is : List ℕ) (rs : List FragmentRecord) → Unhashed rs → Unhashed (resume is rs).0
unfolding resume
resume-Unhashed [] rs a = a
resume-Unhashed (i ∷ is) rs a =
    and_then-Unhashed (resume_at i (get_elem? rs i) rs) (resume is)
      (resume_at-Unhashed i (get_elem? rs i) rs refl a) (λ rs' a'. resume-Unhashed is rs' a')

new-Unhashed :
    (max_retries : ℕ) (infos : List FragmentInfo)
    → Hashless infos
    → Unhashed (map (λ info. new info max_retries) infos)
unfolding new
new-Unhashed max_retries [] a = tt
new-Unhashed max_retries (f ∷ fs) (h, a) = (h, new-Unhashed max_retries fs a)

pub plan_records-Unhashed :
    (max_retries : ℕ) (completed : List ℕ) (infos : List FragmentInfo)
    → Hashless infos
    → Unhashed (plan_records max_retries completed infos).0
unfolding plan_records
plan_records-Unhashed max_retries completed infos a =
    resume-Unhashed completed (map (λ info. new info max_retries) infos)
      (new-Unhashed max_retries infos a)
