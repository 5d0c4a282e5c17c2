-- ===== src/Scheduler/Queue.antt =====
-- crates/tachyon-scheduler/src/scheduler.rs. The `f64` progress and its comparison are arguments. A
-- `BinaryHeap` is the list of its entries, and its `pop` an argument that satisfies MaxHeap; a `HashMap`
-- is an association list.
mod Live
mod Kept
mod Examples
use Prim.Native.Nat.{Ordering, compare}
use mathlib.Core.List.{Memᴰ}
use ai_model_downloader.Base.{
  lookup, insert, Eq, nat_eq, string_eq, lookup-insert, lookup-remove, ℕ, zero, suc, ◌+◌, ◌-◌, ◌*◌,
  ◌/◌, ◌%◌, ◌^◌, ◌≤◌, ◌<◌, min, max, ◌≡◌, refl, sym, ap, ◌∙◌, subst, ◌≢◌, ◌↔◌, ◌⊎◌, inl, inr, Bool,
  true, false, not, ◌&&◌, ◌||◌, Option, none, some, List, [], ◌∷◌, ◌++◌, map, arith, dec_lt,
  ℕ_discrete, ltb, leb, ◌==◌, if◌then◌else◌, ltb→lt, lt→ltb, leb→le, le→leb, ==_iff, lt→leb, ne→==,
  Bool-cases, Option-cases, some-eq, u8, u32, u64, u64_max, checked_add, length, get_elem?, set,
  take, drop, length-append, length-drop, length-set, All, Texts, codes, is_empty, is_some,
  same_text, to_lower, trim_start, trim_onto, trim_end, extend, before_last,
}
use ai_model_downloader.Base as Base

pub data Priority : Type 0 where
  prefetch queue user_initiated : Priority

abbrev pub rank : Priority → ℕ
rank prefetch = 0
rank queue = 1
rank user_initiated = 2

pub record ScheduledTask (F : Type 0) : Type 0 where
  pub task_id : ℕ
  pub priority : Priority
  pub file_size : ℕ
  pub progress : F
  pub version : ℕ

unfoldable pub new_task : {F : Type 0} → ℕ → Priority → ℕ → F → ScheduledTask F
new_task id p size progress = record {
  task_id = id;
  priority = p;
  file_size = size;
  progress = progress;
  version = 0;
}

abbrev pub then_with : Ordering → Ordering → Ordering
then_with Ordering.eq next = next
then_with Ordering.lt next = Ordering.lt
then_with Ordering.gt next = Ordering.gt

abbrev pub or_equal : Option Ordering → Ordering
or_equal (some o) = o
or_equal none = Ordering.eq

module _ {F : Type 0} (is_nan : F → Bool) (nought : F) (partial_cmp : F → F → Option Ordering) where
  abbrev pub progress_of : F → F
  progress_of p = if is_nan p then nought else p

  -- `Ord::cmp`: of two entries the greater one leaves the queue first.
  unfoldable pub cmp : ScheduledTask F → ScheduledTask F → Ordering
  cmp a b = then_with (compare (rank a.priority) (rank b.priority)) (
      then_with (or_equal (partial_cmp (progress_of a.progress) (progress_of b.progress)))
        (then_with (compare b.file_size a.file_size) (compare a.task_id b.task_id)))

-- What `BinaryHeap::pop` promises of its entries: it takes a greatest one out, and nothing else.
pub record MaxHeap (F : Type 0) (order : ScheduledTask F → ScheduledTask F → Ordering)
    : Type 0 where
  pub pop : List (ScheduledTask F) → Option (ScheduledTask F × List (ScheduledTask F))
  pub pop-nil : pop [] ≡ none
  pub pop-cons :
      (t : ScheduledTask F) (ts : List (ScheduledTask F))
      → (r : ScheduledTask F × List (ScheduledTask F)) × (pop (t ∷ ts) ≡ some r)
  pub pop-length :
      (q : List (ScheduledTask F)) (t : ScheduledTask F) (rest : List (ScheduledTask F))
      → pop q ≡ some (t, rest)
      → length q ≡ suc (length rest)
  pub pop-greatest :
      (q : List (ScheduledTask F)) (t : ScheduledTask F) (rest : List (ScheduledTask F))
      → pop q ≡ some (t, rest)
      → (u : ScheduledTask F) → Memᴰ u q
      → order u t ≢ Ordering.gt
  pub pop-keeps :
      (q : List (ScheduledTask F)) (t : ScheduledTask F) (rest : List (ScheduledTask F))
      → pop q ≡ some (t, rest)
      → (u : ScheduledTask F) → Memᴰ u q
      → (u ≡ t) ⊎ Memᴰ u rest
  pub pop-adds_none :
      (q : List (ScheduledTask F)) (t : ScheduledTask F) (rest : List (ScheduledTask F))
      → pop q ≡ some (t, rest)
      → (u : ScheduledTask F) → (u ≡ t) ⊎ Memᴰ u rest
      → Memᴰ u q

pub record Scheduler (F : Type 0) : Type 0 where
  pub queue : List (ScheduledTask F)
  pub index : List (ℕ × ScheduledTask F)
  pub next_version : ℕ

unfoldable pub new : {F : Type 0} → Scheduler F
new = record { queue = []; index = []; next_version = 1 }

-- The task, the queue and the index that `pop` leaves.
abbrev pub Popped : Type 0 → Type 0
Popped F = Option (ScheduledTask F) × List (ScheduledTask F) × List (ℕ × ScheduledTask F)

module _ {F : Type 0} where
  -- The entry stands in the index, under an id, and in the queue.
  abbrev pub enqueue : ℕ → ScheduledTask F → Scheduler F → Scheduler F
  enqueue id task s = record s { queue = task ∷ s.queue; index = insert id task s.index }

  -- So does an entry with the next version.
  abbrev pub enqueue_next : ℕ → ScheduledTask F → Scheduler F → Scheduler F
  enqueue_next id task s =
      enqueue id (record task { version = s.next_version })
        (record s { next_version = u64 (s.next_version + 1) })

  unfoldable pub push : ScheduledTask F → Scheduler F → Scheduler F
  push task s =
      if task.version == 0 then enqueue_next task.task_id task s else enqueue task.task_id task s

  unfoldable pub len : Scheduler F → ℕ
  len s = length s.index

  unfoldable pub remove : ℕ → Scheduler F → Scheduler F × Option (ScheduledTask F)
  remove id s = (record s { index = Base.remove id s.index }, lookup id s.index)

  abbrev pub is_some_task : Option (ScheduledTask F) → Bool
  is_some_task none = false
  is_some_task (some t) = true

  unfoldable pub cancel : ℕ → Scheduler F → Scheduler F × Bool
  unfolding remove
  cancel id s = let (s', old) = remove id s in (s', is_some_task old)

  abbrev pub requeue :
      ℕ
      → (ScheduledTask F → ScheduledTask F)
      → Option (ScheduledTask F)
      → Scheduler F
      → Scheduler F × Option (ScheduledTask F)
  requeue id change none s = (s, none)
  requeue id change (some old) s =
      (enqueue_next id (change old) (record s { index = Base.remove id s.index }), some old)

  unfoldable pub update_priority :
      ℕ → Priority → Scheduler F → Scheduler F × Option (ScheduledTask F)
  update_priority id p s = requeue id (λ t. record t { priority = p }) (lookup id s.index) s

  unfoldable pub update_progress : ℕ → F → Scheduler F → Scheduler F × Option (ScheduledTask F)
  update_progress id p s = requeue id (λ t. record t { progress = p }) (lookup id s.index) s

  -- An entry whose version is no longer the one of the index is passed over.
  abbrev pub is_current : Option (ScheduledTask F) → ScheduledTask F → Bool
  is_current none t = false
  is_current (some e) t = e.version == t.version

  module _ {order : ScheduledTask F → ScheduledTask F → Ordering} (heap : MaxHeap F order) where
    abbrev pub take_top :
        Option (ScheduledTask F × List (ScheduledTask F))
        → (List (ScheduledTask F) → Popped F)
        → List (ScheduledTask F)
        → List (ℕ × ScheduledTask F)
        → Popped F
    take_top none again q index = (none, q, index)
    take_top (some (t, rest)) again q index =
        if is_current (lookup t.task_id index) t
        then (some t, rest, Base.remove t.task_id index)
        else again rest

    -- The `loop`, on fuel.
    unfoldable pub pop_from : ℕ → List (ScheduledTask F) → List (ℕ × ScheduledTask F) → Popped F
    pop_from zero q index = (none, q, index)
    pop_from (suc fuel) q index = take_top (heap.pop q) (λ rest. pop_from fuel rest index) q index

    unfoldable pub pop : Scheduler F → Scheduler F × Option (ScheduledTask F)
    pop s =
        let (task, queue', index') = pop_from (suc (length s.queue)) s.queue s.index in
        (record s { queue = queue'; index = index' }, task)
