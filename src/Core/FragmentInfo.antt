-- ===== src/Core/FragmentInfo.antt =====
-- crates/tachyon-core/src/types.rs: the byte range of one fragment. `end` is inclusive.
use Prim.Native.String.{String}
use ai_model_downloader.Base.{ℕ, Option, none, some, ◌==◌, if◌then◌else◌, checked_add}
use ai_model_downloader.Core.Error.{DownloadResult, ok, panic}

pub record FragmentInfo : Type 0 where
  pub index : ℕ
  pub start : ℕ
  pub end : ℕ
  pub size : ℕ
  pub downloaded : ℕ
  pub hash : Option String

-- The two sums that `assert_eq!` compares; `none` is a sum that overflows, where `expect` panics.
abbrev pub check_ends : Option ℕ → Option ℕ → FragmentInfo → DownloadResult FragmentInfo
check_ends none _ f = panic
check_ends (some a) none f = panic
check_ends (some a) (some b) f = if a == b then ok f else panic

unfoldable pub new : ℕ → ℕ → ℕ → ℕ → DownloadResult FragmentInfo
new index start end size =
    check_ends (checked_add end 1) (checked_add start size)
      (record { index = index; start = start; end = end; size = size; downloaded = 0; hash = none })
