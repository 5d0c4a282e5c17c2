-- ===== src/Scheduler/Queue/Live.antt =====
-- scheduler.rs: what pop returns.
use Prim.Native.Nat.{Ordering}
use mathlib.Core.List.{Memᴰ}
use ai_model_downloader.Base.{
  lookup, insert, remove, Eq, nat_eq, string_eq, lookup-insert, lookup-remove, ℕ, zero, suc, ◌+◌,
  ◌-◌, ◌*◌, ◌/◌, ◌%◌, ◌^◌, ◌≤◌, ◌<◌, min, max, ◌≡◌, refl, sym, ap, ◌∙◌, subst, ◌≢◌, ◌↔◌, ◌⊎◌, inl,
  inr, Bool, true, false, not, ◌&&◌, ◌||◌, Option, none, some, List, [], ◌∷◌, ◌++◌, map, arith,
  dec_lt, ℕ_discrete, ltb, leb, ◌==◌, if◌then◌else◌, ltb→lt, lt→ltb, leb→le, le→leb, ==_iff, lt→leb,
  ne→==, Bool-cases, Option-cases, some-eq, u8, u32, u64, u64_max, checked_add, length, get_elem?,
  set, take, drop, length-append, length-drop, length-set, All, Texts, codes, is_empty, is_some,
  same_text, to_lower, trim_start, trim_onto, trim_end, extend, before_last,
}
use ai_model_downloader.Base as Base
use ai_model_downloader.Scheduler.Queue.{
  ScheduledTask, Scheduler, MaxHeap, Popped, is_current, take_top, pop_from, pop,
}

module _ {F : Type 0} where
  -- Each task of the index waits in the queue under its id, and an entry of the queue that has its id and
  -- its version is that task.
  pub record IsLive (queue : List (ScheduledTask F)) (index : List (ℕ × ScheduledTask F))
      : Type 0 where
    pub names : (id : ℕ) (e : ScheduledTask F) → lookup id index ≡ some e → e.task_id ≡ id
    pub waits : (id : ℕ) (e : ScheduledTask F) → lookup id index ≡ some e → Memᴰ e queue
    pub only :
        (t e : ScheduledTask F)
        → Memᴰ t queue
        → lookup t.task_id index ≡ some e
        → e.version ≡ t.version
        → t ≡ e

  pub lookup-removed :
      (id j : ℕ) (index : List (ℕ × ScheduledTask F)) (e : ScheduledTask F)
      → lookup j (Base.remove id index) ≡ some e
      → (id ≢ j) × (lookup j index ≡ some e)
  lookup-removed id j index e h = elim (Bool-cases (id == j)) [
    | inl same ↦ absurd (gone (lookup-remove id j index) same)
    | inr other ↦ (ground arith, sym (kept (lookup-remove id j index) other) ∙ h)
  ]
    where
      gone :
          lookup j (Base.remove id index) ≡ (if id == j then none else lookup j index)
          → (id == j) ≡ true
          → ⊥
      gone law same = let law' = rw same at law in cc

      kept :
          lookup j (Base.remove id index) ≡ (if id == j then none else lookup j index)
          → (id == j) ≡ false
          → lookup j (Base.remove id index) ≡ lookup j index
      kept law other = rw other at law

  module _ {order : ScheduledTask F → ScheduledTask F → Ordering} (heap : MaxHeap F order) where
    -- A task that `pop` returns is the current one of its id, no task of the index is greater, and the
    -- rest stays; where it returns none the index is empty.
    abbrev pub Delivers : List (ℕ × ScheduledTask F) → Popped F → Type 0
    Delivers index (none, queue', index') = (index' ≡ index) × ((id : ℕ) → lookup id index ≡ none)
    Delivers index (some t, queue', index') =
        (lookup t.task_id index ≡ some t)
        × (index' ≡ Base.remove t.task_id index)
        × ((id : ℕ) (e : ScheduledTask F) → lookup id index ≡ some e → order e t ≢ Ordering.gt)
        × IsLive queue' index'

    -- The queue after its greatest entry has left.
    module _ (q rest : List (ScheduledTask F)) (t : ScheduledTask F)
        (index : List (ℕ × ScheduledTask F)) (took : heap.pop q ≡ some (t, rest))
        (live : IsLive q index) where
      current-eq :
          (e : ScheduledTask F)
          → lookup t.task_id index ≡ some e
          → (e.version == t.version) ≡ true
          → t ≡ e
      current-eq e at v =
          live.only t e (heap.pop-adds_none q t rest took t (inl refl)) at
            ((==_iff e.version t.version).0 v)

      delivered-IsLive : lookup t.task_id index ≡ some t → IsLive rest (Base.remove t.task_id index)
      delivered-IsLive at = record {
        names = λ id e h. live.names id e (lookup-removed t.task_id id index e h).1;
        waits = λ id e h.
            let (other, h') = lookup-removed t.task_id id index e h in
            elim (heap.pop-keeps q t rest took e (live.waits id e h')) [
              | inl same ↦
                  absurd (
                    other (ap (λ (x : ScheduledTask F). x.task_id) (sym same) ∙ live.names id e h'))
              | inr m ↦ m
            ];
        only = λ u e m h v.
            live.only u e (heap.pop-adds_none q t rest took u (inr m))
              (lookup-removed t.task_id u.task_id index e h).1 v;
      }

      passed-IsLive : is_current (lookup t.task_id index) t ≡ false → IsLive rest index
      passed-IsLive stale = record {
        names = live.names;
        waits = λ id e h. elim (heap.pop-keeps q t rest took e (live.waits id e h)) [
          | inl same ↦ absurd (
              not_stale (
                subst (λ x. lookup x.task_id index ≡ some x) same
                  (ap (λ i. lookup i index) (live.names id e h) ∙ h)))
          | inr m ↦ m
        ];
        only = λ u e m h v. live.only u e (heap.pop-adds_none q t rest took u (inr m)) h v;
      }
        where
          not_stale : lookup t.task_id index ≡ some t → ⊥
          not_stale at =
              let c : is_current (lookup t.task_id index) t ≡ true =
                ap (λ o. is_current o t) at ∙ (==_iff t.version t.version).1 refl in
              cc

      -- A current entry is the task of the index.
      current-lookup :
          (o : Option (ScheduledTask F))
          → lookup t.task_id index ≡ o
          → is_current o t ≡ true
          → lookup t.task_id index ≡ some t
      current-lookup none at c = cc
      current-lookup (some e) at c = at ∙ ap some (sym (current-eq e at c))

      take_top-Delivers :
          (again : List (ScheduledTask F) → Popped F)
          → (IsLive rest index → Delivers index (again rest))
          → Delivers index (take_top heap (some (t, rest)) again q index)
      take_top-Delivers again later = elim (Bool-cases (is_current (lookup t.task_id index) t)) [
        | inl c ↦
            let at = current-lookup (lookup t.task_id index) refl c in
            rw c (
              at,
              refl,
              λ id e h. heap.pop-greatest q t rest took e (live.waits id e h),
              delivered-IsLive at,
            )
        | inr c ↦ rw c (later (passed-IsLive c))
      ]

    empty_index :
        (index : List (ℕ × ScheduledTask F)) (o : Option (ScheduledTask F)) (id : ℕ)
        → IsLive [] index
        → lookup id index ≡ o
        → o ≡ none
    empty_index index none id live h = refl
    empty_index index (some e) id live h = absurd (no_entry (live.waits id e h))
      where
        no_entry : Memᴰ e [] → ⊥
        no_entry m = elim m [ ]

    pop_from-Delivers :
        (fuel : ℕ) (q : List (ScheduledTask F)) (index : List (ℕ × ScheduledTask F))
        → length q < fuel
        → IsLive q index
        → Delivers index (pop_from heap fuel q index)
    unfolding pop_from
    pop_from-Delivers zero q index l live = absurd (omega arith)
    pop_from-Delivers (suc fuel) [] index l live =
        rw heap.pop-nil (refl, λ id. empty_index index (lookup id index) id live refl)
    pop_from-Delivers (suc fuel) (u ∷ us) index l live =
        let ((t, rest), took) = heap.pop-cons u us in
        subst
          (λ o. Delivers index (take_top heap o (λ r. pop_from heap fuel r index) (u ∷ us) index))
          (sym took)
          (take_top-Delivers (u ∷ us) rest t index took live (λ r. pop_from heap fuel r index)
            (pop_from-Delivers fuel rest index
              (omega (arith, heap.pop-length (u ∷ us) t rest took))))

module _ {F : Type 0} {order : ScheduledTask F → ScheduledTask F → Ordering}
    (heap : MaxHeap F order) where
  take_top-sub :
      (o : Option (ScheduledTask F × List (ScheduledTask F)))
      (again : List (ScheduledTask F) → Popped F) (q : List (ScheduledTask F))
      (index : List (ℕ × ScheduledTask F)) (u : ScheduledTask F)
      → heap.pop q ≡ o
      → ((rest : List (ScheduledTask F)) → Memᴰ u (again rest).1 → Memᴰ u rest)
      → Memᴰ u (take_top heap o again q index).1
      → Memᴰ u q
  take_top-sub none again q index u took sub m = m
  take_top-sub (some (t, rest)) again q index u took sub m = heap.pop-adds_none q t rest took u (
      inr (elim (Bool-cases (is_current (lookup t.task_id index) t)) [
        | inl c ↦ rw c at m
        | inr c ↦ sub rest (rw c at m)
      ]))

  -- The queue that pop leaves has no entry that was not there.
  pub pop_from-sub :
      (fuel : ℕ) (q : List (ScheduledTask F)) (index : List (ℕ × ScheduledTask F))
      (u : ScheduledTask F)
      → Memᴰ u (pop_from heap fuel q index).1
      → Memᴰ u q
  unfolding pop_from
  pop_from-sub zero q index u m = m
  pop_from-sub (suc fuel) q index u m =
      take_top-sub (heap.pop q) (λ rest. pop_from heap fuel rest index) q index u refl
        (λ rest. pop_from-sub fuel rest index u) m

-- A call of pop on a queue whose tasks wait in it returns the current entry of a task, of which the
-- order puts no waiting task ahead, takes just that task from the index, and keeps the others waiting;
-- it returns none only where no task is left.
pub pop-Delivers :
    {F : Type 0} {order : ScheduledTask F → ScheduledTask F → Ordering} (heap : MaxHeap F order)
    (s : Scheduler F)
    → IsLive s.queue s.index
    → let (s', task) = pop heap s in Delivers heap s.index (task, s'.queue, s'.index)
unfolding pop
pop-Delivers heap s live =
    pop_from-Delivers heap (suc (length s.queue)) s.queue s.index (omega arith) live
