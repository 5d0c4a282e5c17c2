-- ===== src/Io/Pipeline.antt =====
-- crates/tachyon-io/src/pipeline.rs: the plan of a batch of writes. A segment is its offset and its bytes;
-- they come in the order that the sort by offset gave them.
mod Same
mod Examples
use ai_model_downloader.Base.{
  lookup, insert, remove, Eq, nat_eq, string_eq, lookup-insert, lookup-remove, ℕ, zero, suc, ◌+◌,
  ◌-◌, ◌*◌, ◌/◌, ◌%◌, ◌^◌, ◌≤◌, ◌<◌, min, max, ◌≡◌, refl, sym, ap, ◌∙◌, subst, ◌≢◌, ◌↔◌, ◌⊎◌, inl,
  inr, Bool, true, false, not, ◌&&◌, ◌||◌, Option, none, some, List, [], ◌∷◌, ◌++◌, map, arith,
  dec_lt, ℕ_discrete, ltb, leb, ◌==◌, if◌then◌else◌, ltb→lt, lt→ltb, leb→le, le→leb, ==_iff, lt→leb,
  ne→==, Bool-cases, Option-cases, some-eq, u8, u32, u64, u64_max, checked_add, length, get_elem?,
  set, take, drop, length-append, length-drop, length-set, All, Texts, codes, is_empty, is_some,
  same_text, to_lower, trim_start, trim_onto, trim_end, extend, before_last,
}

abbrev pub Segment : Type 0
Segment = ℕ × List ℕ

-- What is left after the loop.
abbrev pub last_batch : ℕ → List ℕ → List Segment
last_batch merged_start [] = []
last_batch merged_start (b ∷ bs) = (merged_start, b ∷ bs) ∷ []

-- The loop, with the batch that is being merged.
unfoldable pub merge : ℕ → ℕ → ℕ → List ℕ → List Segment → List Segment
merge flush_threshold merged_start merged_end merged [] = last_batch merged_start merged
merge flush_threshold merged_start merged_end merged ((off, bytes) ∷ segments) =
    let len = length bytes in
    let joined = merged ++ bytes in
    let flushed =
      (merged_start, joined)
      ∷ merge flush_threshold (u64 (off + len)) (u64 (off + len)) [] segments in
    let grown = merge flush_threshold merged_start (u64 (merged_end + len)) joined segments in
    let begun =
      (merged_start, merged) ∷ merge flush_threshold off (u64 (off + len)) bytes segments in
    if off == merged_end && ltb 0 len
    then (if leb flush_threshold (length joined) then flushed else grown)
    else begun

unfoldable pub plan_batches : ℕ → List Segment → List Segment
plan_batches flush_threshold [] = []
plan_batches flush_threshold ((off, bytes) ∷ segments) =
    merge flush_threshold off (u64 (off + length bytes)) bytes segments

-- The permits that a batch of writes asks for, of a semaphore of that capacity.
unfoldable pub write_count : ℕ → List Segment → ℕ
write_count semaphore_capacity batches =
    max (min (u32 (max (length batches) 1)) (u32 semaphore_capacity)) 1
