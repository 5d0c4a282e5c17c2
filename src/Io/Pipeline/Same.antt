-- ===== src/Io/Pipeline/Same.antt =====
-- pipeline.rs: what the planned batches write.
use ai_model_downloader.Base.{
  nat_eq, string_eq, ℕ, suc, ◌+◌, ◌^◌, ◌≤◌, ◌<◌, ◌≡◌, refl, sym, ap, ◌∙◌, inl, inr, ◌&&◌, List, [],
  ◌∷◌, ◌++◌, arith, ltb, leb, ◌==◌, if◌then◌else◌, Bool-cases, u64, u64_max, length, length-append,
  All,
}
use ai_model_downloader.Io.Pipeline.{Segment, last_batch, merge, plan_batches, write_count}

-- A file is a byte at each offset.
abbrev pub Content : Type 0
Content = ℕ → ℕ

abbrev pub put : Content → ℕ → ℕ → Content
put file off b i = if i == off then b else file i

pub write : ℕ → List ℕ → Content → Content
write off [] file = file
write off (b ∷ bs) file = write (off + 1) bs (put file off b)

pub write_all : List Segment → Content → Content
write_all [] file = file
write_all ((off, bytes) ∷ segments) file = write_all segments (write off bytes file)

write-append :
    (off : ℕ) (bs cs : List ℕ) (file : Content)
    → write off (bs ++ cs) file ≡ write (off + length bs) cs (write off bs file)
unfolding write
write-append off [] cs file = let e : off + 0 ≡ off = omega arith in rw e refl
write-append off (b ∷ bs) cs file =
    let e : off + suc (length bs) ≡ off + 1 + length bs = omega arith in
    rw e (write-append (off + 1) bs cs (put file off b))

-- The segments end below 2^64.
abbrev pub Fits : Segment → Type 0
Fits s = s.0 + length s.1 ≤ u64_max

last_batch-Same :
    (start : ℕ) (merged : List ℕ) (file : Content)
    → write_all (last_batch start merged) file ≡ write start merged file
unfolding write write_all
last_batch-Same start [] file = refl
last_batch-Same start (b ∷ bs) file = refl

-- A segment that follows the batch is written by the longer batch.
joined-write :
    (start end off : ℕ) (merged bytes : List ℕ) (file : Content)
    → end ≡ start + length merged
    → off ≡ end
    → write start (merged ++ bytes) file ≡ write off bytes (write start merged file)
joined-write start end off merged bytes file h e =
    write-append start merged bytes file
    ∙ ap (λ p. write p bytes (write start merged file)) (sym (e ∙ h))

merge-Same :
    (threshold start end : ℕ) (merged : List ℕ) (segments : List Segment) (file : Content)
    → end ≡ start + length merged
    → end ≤ u64_max
    → All Fits segments
    → write_all (merge threshold start end merged segments) file
      ≡ write_all segments (write start merged file)
unfolding merge write_all write
merge-Same threshold start end merged [] file h u a = last_batch-Same start merged file
merge-Same threshold start end merged ((off, bytes) ∷ segments) file h u (f, a) =
    let len = length bytes in
    elim (Bool-cases (off == end && ltb 0 len)) [
      | inl e ↦
          let at : off ≡ end = ground arith in
          let joined = joined-write start end off merged bytes file h at in
          rw e (elim (Bool-cases (leb threshold (length (merged ++ bytes)))) [
            | inl t ↦ rw t (
                merge-Same threshold (u64 (off + len)) (u64 (off + len)) [] segments
                  (write start (merged ++ bytes) file) (omega arith) (omega arith) a
                ∙ ap (write_all segments) joined)
            | inr t ↦ rw t (
                merge-Same threshold start (u64 (end + len)) (merged ++ bytes) segments file
                  (omega (arith, length-append merged bytes, h, f, at)) (omega arith) a
                ∙ ap (write_all segments) joined)
          ])
      | inr e ↦ rw e (
          merge-Same threshold off (u64 (off + len)) bytes segments (write start merged file)
            (omega (arith, f)) (omega arith) a)
    ]

plan-Same :
    (threshold : ℕ) (segments : List Segment) (file : Content)
    → All Fits segments
    → write_all (plan_batches threshold segments) file ≡ write_all segments file
unfolding plan_batches write_all
plan-Same threshold [] file a = refl
plan-Same threshold ((off, bytes) ∷ segments) file (f, a) =
    merge-Same threshold off (u64 (off + length bytes)) bytes segments file (omega (arith, f))
      (omega arith) a

count-merge :
    (threshold start end : ℕ) (merged : List ℕ) (segments : List Segment)
    → length (merge threshold start end merged segments) ≤ suc (length segments)
unfolding merge
count-merge threshold start end [] [] = omega arith
count-merge threshold start end (b ∷ bs) [] = omega arith
count-merge threshold start end merged ((off, bytes) ∷ segments) =
    let len = length bytes in
    let flushed = count-merge threshold (u64 (off + len)) (u64 (off + len)) [] segments in
    let grown = count-merge threshold start (u64 (end + len)) (merged ++ bytes) segments in
    let begun = count-merge threshold off (u64 (off + len)) bytes segments in
    elim (Bool-cases (off == end && ltb 0 len)) [
      | inl e ↦ rw e (elim (Bool-cases (leb threshold (length (merged ++ bytes)))) [
        | inl t ↦ rw t (omega arith)
        | inr t ↦ rw t (omega arith)
      ])
      | inr e ↦ rw e (omega arith)
    ]

count-plan :
    (threshold : ℕ) (segments : List Segment)
    → length (plan_batches threshold segments) ≤ length segments
unfolding plan_batches
count-plan threshold [] = omega arith
count-plan threshold ((off, bytes) ∷ segments) =
    count-merge threshold off (u64 (off + length bytes)) bytes segments

write_count_bounds :
    (capacity : ℕ) (batches : List Segment)
    → 0 < capacity
    → capacity < 2 ^ 32
    → (1 ≤ write_count capacity batches) × (write_count capacity batches ≤ capacity)
unfolding write_count
write_count_bounds capacity batches p u = (omega arith, omega arith)

-- For segments that end below 2^64, whatever their order, writing the planned batches one after another
-- leaves the same file as writing the segments; there are at most as many batches as segments, and the
-- permits asked for are at least one and at most the semaphore's, if these are from 1 to 2^32 - 1.
pub plan_batches-Same :
    (threshold capacity : ℕ) (segments : List Segment) (file : Content)
    → All Fits segments
    → 0 < capacity
    → capacity < 2 ^ 32
    → let batches = plan_batches threshold segments in
      (write_all batches file ≡ write_all segments file)
      × (length batches ≤ length segments)
      × (1 ≤ write_count capacity batches)
      × (write_count capacity batches ≤ capacity)
plan_batches-Same threshold capacity segments file a p u =
    let (low, high) = write_count_bounds capacity (plan_batches threshold segments) p u in
    (plan-Same threshold segments file a, count-plan threshold segments, low, high)
