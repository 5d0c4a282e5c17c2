-- ===== src/Engine/Plan/Hashless.antt =====
-- plan_fragments of orchestrator.rs: its fragments have no expected digest.
use ai_model_downloader.Base.{
  nat_eq, ℕ, zero, suc, ◌+◌, ◌-◌, ◌≡◌, refl, inl, inr, Bool, true, false, Option, none, some, List,
  [], ◌∷◌, min, ltb, ◌==◌, if◌then◌else◌, Bool-cases, checked_add, All,
}
use ai_model_downloader.Core.Error.{DownloadResult, ok, err, panic, ◌>>=◌}
use ai_model_downloader.Core.FragmentInfo.{FragmentInfo, check_ends}
use ai_model_downloader.Core.FragmentInfo as Info
use ai_model_downloader.Engine.Plan.{
  SchedulerConfig, push_fragment, cut, effective_size, whole, cut_by, cut_computed, cut_suggested,
  compute_fragment_size, plan_fragments,
}

abbrev pub Hashless : List FragmentInfo → Type 0
Hashless fs = All (λ f. f.hash ≡ none) fs

abbrev One : DownloadResult FragmentInfo → Type 0
One (ok f) = f.hash ≡ none
One (err e) = Unit {0}
One panic = Unit {0}

abbrev pub Planned : Option (DownloadResult (List FragmentInfo)) → Type 0
Planned none = Unit {0}
Planned (some (ok fs)) = Hashless fs
Planned (some (err e)) = Unit {0}
Planned (some panic) = Unit {0}

Planned-if :
    (b : Bool) (x y : Option (DownloadResult (List FragmentInfo)))
    → Planned x
    → Planned y
    → Planned (if b then x else y)
Planned-if true x y h k = h
Planned-if false x y h k = k

check_ends-One : (a b : Option ℕ) (f : FragmentInfo) → f.hash ≡ none → One (check_ends a b f)
check_ends-One none b f h = tt
check_ends-One (some a) none f h = tt
check_ends-One (some a) (some b) f h = elim (Bool-cases (a == b)) [
  | inl e ↦ rw e h
  | inr e ↦ rw e tt
]

new-One : (index start end size : ℕ) → One (Info.new index start end size)
unfolding Info.new
new-One index start end size = check_ends-One (checked_add end 1) (checked_add start size) _ refl

push-Planned :
    (r : DownloadResult FragmentInfo) (b : Bool)
    (rest : Option (DownloadResult (List FragmentInfo)))
    → One r
    → Planned rest
    → Planned (push_fragment r b rest)
push-Planned panic b rest h k = tt
push-Planned (err e) b rest h k = tt
push-Planned (ok f) false rest h k = tt
push-Planned (ok f) true none h k = tt
push-Planned (ok f) true (some (ok fs)) h k = (h, k)
push-Planned (ok f) true (some (err e)) h k = tt
push-Planned (ok f) true (some panic) h k = tt

cut-Planned :
    (fuel frag_size file_size offset index : ℕ)
    → Planned (cut fuel frag_size file_size offset index)
unfolding cut
cut-Planned zero frag_size file_size offset index = tt
cut-Planned (suc fuel) frag_size file_size offset index =
    let size = min (file_size - offset) frag_size in
    let rest = cut fuel frag_size file_size (offset + size) (index + 1) in
    Planned-if (ltb offset file_size)
      (push_fragment (Info.new index offset (offset + size - 1) size) (ltb index 4294967295) rest)
      (some (ok []))
      (push-Planned (Info.new index offset (offset + size - 1) size) (ltb index 4294967295) rest
        (new-One index offset (offset + size - 1) size)
        (cut-Planned fuel frag_size file_size (offset + size) (index + 1)))
      tt

single-Planned : (r : DownloadResult FragmentInfo) → One r → Planned (some (r >>= λ f. ok (f ∷ [])))
single-Planned (ok f) h = (h, tt)
single-Planned (err e) h = tt
single-Planned panic h = tt

whole-Planned : (file_size : ℕ) → Planned (whole file_size)
whole-Planned file_size =
    single-Planned (Info.new 0 0 (file_size - 1) file_size) (new-One 0 0 (file_size - 1) file_size)

cut_by-Planned : (file_size frag_size : ℕ) → Planned (cut_by file_size frag_size)
unfolding cut_by
cut_by-Planned file_size frag_size =
    Planned-if (frag_size == 0) (whole file_size)
      (cut (suc file_size) (effective_size file_size frag_size) file_size 0 0)
      (whole-Planned file_size)
      (cut-Planned (suc file_size) (effective_size file_size frag_size) file_size 0 0)

cut_computed-Planned : (file_size : ℕ) (r : DownloadResult ℕ) → Planned (cut_computed file_size r)
cut_computed-Planned file_size (ok size) = cut_by-Planned file_size size
cut_computed-Planned file_size (err e) = tt
cut_computed-Planned file_size panic = tt

cut_suggested-Planned :
    (c : SchedulerConfig) (bandwidth_bps file_size : ℕ) (s : Option ℕ)
    → Planned (cut_suggested c bandwidth_bps file_size s)
cut_suggested-Planned c bandwidth_bps file_size none =
    cut_computed-Planned file_size (compute_fragment_size c file_size bandwidth_bps)
cut_suggested-Planned c bandwidth_bps file_size (some size) =
    Planned-if (ltb 0 size) (cut_by file_size size)
      (cut_computed file_size (compute_fragment_size c file_size bandwidth_bps))
      (cut_by-Planned file_size size)
      (cut_computed-Planned file_size (compute_fragment_size c file_size bandwidth_bps))

-- No fragment of a plan has an expected digest.
pub plan_fragments-Planned :
    (c : SchedulerConfig) (bandwidth_bps file_size : ℕ) (supports_range : Bool) (s : Option ℕ)
    → Planned (plan_fragments c bandwidth_bps file_size supports_range s)
unfolding plan_fragments
plan_fragments-Planned c bandwidth_bps file_size supports_range s =
    let cuts = cut_suggested c bandwidth_bps file_size s in
    Planned-if (file_size == 0) (some (ok [])) (if supports_range then cuts else whole file_size) tt
      (Planned-if supports_range cuts (whole file_size)
        (cut_suggested-Planned c bandwidth_bps file_size s) (whole-Planned file_size))
