-- ===== src/Scheduler/Queue/Kept.antt =====
-- scheduler.rs: the queue along the calls of its methods.
use Prim.Native.Nat.{Ordering}
use mathlib.Core.List.{Memᴰ}
use ai_model_downloader.Base.{
  lookup, insert, remove, Eq, nat_eq, string_eq, lookup-insert, lookup-remove, ℕ, zero, suc, ◌+◌,
  ◌-◌, ◌*◌, ◌/◌, ◌%◌, ◌^◌, ◌≤◌, ◌<◌, min, max, ◌≡◌, refl, sym, ap, ◌∙◌, subst, ◌≢◌, ◌↔◌, ◌⊎◌, inl,
  inr, Bool, true, false, not, ◌&&◌, ◌||◌, Option, none, some, List, [], ◌∷◌, ◌++◌, map, arith,
  dec_lt, ℕ_discrete, ltb, leb, ◌==◌, if◌then◌else◌, ltb→lt, lt→ltb, leb→le, le→leb, ==_iff, lt→leb,
  ne→==, Bool-cases, Option-cases, some-eq, u8, u32, u64, u64_max, checked_add, length, get_elem?,
  set, take, drop, length-append, length-drop, length-set, All, Texts, codes, is_empty, is_some,
  same_text, to_lower, trim_start, trim_onto, trim_end, extend, before_last,
}
use ai_model_downloader.Base as Base
use ai_model_downloader.Scheduler.Queue.{
  Priority, ScheduledTask, Scheduler, MaxHeap, Popped, new_task, is_current, take_top, pop_from,
  pop, push, update_priority, update_progress, requeue, enqueue_next,
}
use ai_model_downloader.Scheduler.Queue as Queue
use ai_model_downloader.Scheduler.Queue.Live.{
  IsLive, lookup-removed, Delivers, pop-Delivers, pop_from-sub,
}

pub data Call (F : Type 0) : Type 0 where
  pushes : ℕ → Priority → ℕ → F → Call F
  pops : Call F
  removes : ℕ → Call F
  reranks : ℕ → Priority → Call F
  progresses : ℕ → F → Call F

module _ {F : Type 0} where
  -- The versions that were given out are below the next one.
  pub record IsScheduler (s : Scheduler F) : Type 0 where
    pub live : IsLive s.queue s.index
    pub older : (t : ScheduledTask F) → Memᴰ t s.queue → t.version < s.next_version

  removed-IsLive :
      (id : ℕ) (q : List (ScheduledTask F)) (index : List (ℕ × ScheduledTask F))
      → IsLive q index
      → IsLive q (Base.remove id index)
  removed-IsLive id q index live = record {
    names = λ j e h. live.names j e (lookup-removed id j index e h).1;
    waits = λ j e h. live.waits j e (lookup-removed id j index e h).1;
    only = λ t e m h v. live.only t e m (lookup-removed id t.task_id index e h).1 v;
  }

  -- What the index holds after an insertion.
  inserted :
      (task e : ScheduledTask F) (j : ℕ) (index : List (ℕ × ScheduledTask F))
      → lookup j (insert task.task_id task index) ≡ some e
      → ((j ≡ task.task_id) × (e ≡ task)) ⊎ (lookup j index ≡ some e)
  inserted task e j index h = elim (Bool-cases (task.task_id == j)) [
    | inl same ↦ inl (ground arith, at (lookup-insert task.task_id j task index) same)
    | inr other ↦ inr (past (lookup-insert task.task_id j task index) other)
  ]
    where
      at :
          lookup j (insert task.task_id task index)
            ≡ (if task.task_id == j then some task else lookup j index)
          → (task.task_id == j) ≡ true
          → e ≡ task
      at law same = some-eq (sym h ∙ (rw same at law))

      past :
          lookup j (insert task.task_id task index)
            ≡ (if task.task_id == j then some task else lookup j index)
          → (task.task_id == j) ≡ false
          → lookup j index ≡ some e
      past law other = sym (rw other at law) ∙ h

  module _ (task : ScheduledTask F) (q : List (ScheduledTask F))
      (index : List (ℕ × ScheduledTask F)) (live : IsLive q index)
      (older : (t : ScheduledTask F) → Memᴰ t q → t.version < task.version) where
    only_inserted :
        (t e : ScheduledTask F)
        → Memᴰ t (task ∷ q)
        → lookup t.task_id (insert task.task_id task index) ≡ some e
        → e.version ≡ t.version
        → t ≡ e
    only_inserted t e m h v = elim (inserted task e t.task_id index h) [
      | inl (_, e0) ↦ new_entry m e0
      | inr h' ↦ old_entry m h'
    ]
      where
        new_entry : Memᴰ t (task ∷ q) → e ≡ task → t ≡ e
        new_entry (Memᴰ.head x) e0 = x ∙ sym e0
        new_entry (Memᴰ.tail m') e0 =
            absurd (omega (arith, older t m', ap (λ (x : ScheduledTask F). x.version) e0))

        old_entry : Memᴰ t (task ∷ q) → lookup t.task_id index ≡ some e → t ≡ e
        old_entry (Memᴰ.head x) h' = absurd (
            omega (
              arith,
              older e (live.waits t.task_id e h'),
              v,
              ap (λ (y : ScheduledTask F). y.version) x,
            ))
        old_entry (Memᴰ.tail m') h' = live.only t e m' h' v

    enqueued-IsLive : IsLive (task ∷ q) (insert task.task_id task index)
    enqueued-IsLive = record {
      names = λ j e h. elim (inserted task e j index h) [
        | inl (same, e0) ↦ ap (λ (x : ScheduledTask F). x.task_id) e0 ∙ sym same
        | inr h' ↦ live.names j e h'
      ];
      waits = λ j e h. elim (inserted task e j index h) [
        | inl (same, e0) ↦ Memᴰ.head e0
        | inr h' ↦ Memᴰ.tail (live.waits j e h')
      ];
      only = only_inserted;
    }

  enqueue_next-IsScheduler :
      (task : ScheduledTask F) (q : List (ScheduledTask F)) (index : List (ℕ × ScheduledTask F))
      (next : ℕ)
      → next < u64_max
      → IsLive q index
      → ((t : ScheduledTask F) → Memᴰ t q → t.version < next)
      → IsScheduler (
          enqueue_next task.task_id task (record { queue = q; index = index; next_version = next }))
  enqueue_next-IsScheduler task q index next room live older = record {
    live = enqueued-IsLive (record task { version = next }) q index live older;
    older = newer;
  }
    where
      newer :
          (t : ScheduledTask F)
          → Memᴰ t ((record task { version = next }) ∷ q)
          → t.version < u64 (next + 1)
      newer t (Memᴰ.head x) = omega (arith, ap (λ (y : ScheduledTask F). y.version) x)
      newer t (Memᴰ.tail m) = omega (arith, older t m)

  requeue-IsScheduler :
      (id : ℕ) (change : ScheduledTask F → ScheduledTask F) (o : Option (ScheduledTask F))
      (s : Scheduler F)
      → s.next_version < u64_max
      → lookup id s.index ≡ o
      → ((t : ScheduledTask F) → (change t).task_id ≡ t.task_id)
      → IsScheduler s
      → IsScheduler (requeue id change o s).0
  requeue-IsScheduler id change none s room h same v = v
  requeue-IsScheduler id change (some old) s room h same v =
      subst
        (λ i.
          IsScheduler (enqueue_next i (change old) (record s { index = Base.remove id s.index })))
        (same old ∙ v.live.names id old h)
        (enqueue_next-IsScheduler (change old) s.queue (Base.remove id s.index) s.next_version room
          (removed-IsLive id s.queue s.index v.live) v.older)

  module _ {order : ScheduledTask F → ScheduledTask F → Ordering} (heap : MaxHeap F order) where
    unfoldable pub step : Scheduler F → Call F → Scheduler F
    step s (pushes id p size progress) = push (new_task id p size progress) s
    step s pops = (pop heap s).0
    step s (removes id) = (Queue.remove id s).0
    step s (reranks id p) = (update_priority id p s).0
    step s (progresses id p) = (update_progress id p s).0

    unfoldable pub run : Scheduler F → List (Call F) → Scheduler F
    run s [] = s
    run s (c ∷ cs) = run (step s c) cs

    delivered-IsLive :
        (index : List (ℕ × ScheduledTask F)) (r : Popped F) → Delivers heap index r → IsLive r.1 r.2
    delivered-IsLive index (some t, queue', index') (_, _, _, live) = live
    delivered-IsLive index (none, queue', index') (same, empty) = record {
      names = λ j e h. absurd (nothing j e h);
      waits = λ j e h. absurd (nothing j e h);
      only = λ t e m h v. absurd (nothing t.task_id e h);
    }
      where
        nothing : (j : ℕ) (e : ScheduledTask F) → lookup j index' ≡ some e → ⊥
        nothing j e h = let gone = ap (lookup j) same ∙ empty j in cc

    pop-IsScheduler : (s : Scheduler F) → IsScheduler s → IsScheduler (pop heap s).0
    unfolding pop
    pop-IsScheduler s v = record {
      live =
          delivered-IsLive s.index (pop_from heap (suc (length s.queue)) s.queue s.index)
            (unfold pop in pop-Delivers heap s v.live);
      older = λ t m. v.older t (pop_from-sub heap (suc (length s.queue)) s.queue s.index t m);
    }

    step-IsScheduler :
        (s : Scheduler F) (c : Call F)
        → s.next_version < u64_max
        → IsScheduler s
        → IsScheduler (step s c)
    unfolding step push new_task Queue.remove update_priority update_progress
    step-IsScheduler s (pushes id p size progress) room v =
        enqueue_next-IsScheduler (new_task id p size progress) s.queue s.index s.next_version room
          v.live v.older
    step-IsScheduler s pops room v = pop-IsScheduler s v
    step-IsScheduler s (removes id) room v = record {
      live = removed-IsLive id s.queue s.index v.live;
      older = v.older;
    }
    step-IsScheduler s (reranks id p) room v =
        requeue-IsScheduler id (λ t. record t { priority = p }) (lookup id s.index) s room refl
          (λ t. refl) v
    step-IsScheduler s (progresses id p) room v =
        requeue-IsScheduler id (λ t. record t { progress = p }) (lookup id s.index) s room refl
          (λ t. refl) v

    requeue-next :
        (id : ℕ) (change : ScheduledTask F → ScheduledTask F) (o : Option (ScheduledTask F))
        (s : Scheduler F)
        → (requeue id change o s).0.next_version ≤ s.next_version + 1
    requeue-next id change none s = omega arith
    requeue-next id change (some old) s = omega arith

    step-next : (s : Scheduler F) (c : Call F) → (step s c).next_version ≤ s.next_version + 1
    unfolding step push new_task pop Queue.remove update_priority update_progress
    step-next s (pushes id p size progress) = omega arith
    step-next s pops = omega arith
    step-next s (removes id) = omega arith
    step-next s (reranks id p) =
        requeue-next id (λ t. record t { priority = p }) (lookup id s.index) s
    step-next s (progresses id p) =
        requeue-next id (λ t. record t { progress = p }) (lookup id s.index) s

    run_kept :
        (cs : List (Call F)) (s : Scheduler F)
        → s.next_version + length cs ≤ u64_max
        → IsScheduler s
        → IsScheduler (run s cs)
    unfolding run
    run_kept [] s room v = v
    run_kept (c ∷ cs) s room v =
        run_kept cs (step s c) (omega (arith, step-next s c)) (step-IsScheduler s c (omega arith) v)

-- After fewer than 2^64 - 1 calls on a new queue, with tasks that `ScheduledTask::new` made, each task of
-- the index waits in the queue under its id, an entry of the queue that has a task's id and version is
-- that task, and the versions in the queue were all given out.
pub run-IsScheduler :
    {F : Type 0} {order : ScheduledTask F → ScheduledTask F → Ordering} (heap : MaxHeap F order)
    (cs : List (Call F))
    → length cs < u64_max
    → IsScheduler (run heap Queue.new cs)
unfolding Queue.new lookup
run-IsScheduler {F} heap cs room = run_kept heap cs Queue.new (omega arith) (record {
  live = record { names = λ j e h. cc; waits = λ j e h. cc; only = λ t e m h v. elim m [ ] };
  older = λ t m. elim m [ ];
})
  where
    nothing : (e : ScheduledTask F) → none ≡ some e → ⊥
    nothing e h = cc
