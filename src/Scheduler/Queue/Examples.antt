-- ===== src/Scheduler/Queue/Examples.antt =====
-- Queues of scheduler.rs on a concrete heap, with a progress in per cent.
use ai_model_downloader.Scheduler.Queue.Live.{Delivers, IsLive, pop-Delivers}
use ai_model_downloader.Scheduler.Queue.Kept.{
  Call, pushes, pops, removes, reranks, progresses, IsScheduler, step, run, run-IsScheduler,
}
use mathlib.Core.List.{Memᴰ}
use Prim.Native.Nat.{Ordering, compare}
use ai_model_downloader.Base.{
  lookup, insert, nat_eq, string_eq, ℕ, suc, ◌≡◌, refl, sym, ap, subst, ◌≢◌, ◌⊎◌, inl, inr, Bool,
  true, false, Option, none, some, List, [], ◌∷◌, arith, if◌then◌else◌, Bool-cases, some-eq, length,
}
use ai_model_downloader.Scheduler.Queue.{
  cmp, ScheduledTask, MaxHeap, pop, Scheduler, pop_from, push, new_task, queue, user_initiated,
}
use ai_model_downloader.Scheduler.Queue as Queue

abbrev Task : Type 0
Task = ScheduledTask ℕ

abbrev order : Task → Task → Ordering
order = cmp (λ p. false) 0 (λ p q. some (compare p q))

order_refl : (a : Task) → order a a ≢ Ordering.gt
unfolding cmp
order_refl a = ground arith

order_asym : (a b : Task) → order a b ≡ Ordering.gt → order b a ≢ Ordering.gt
unfolding cmp
order_asym a b h = ground arith

order_trans :
    (a b c : Task) → order a b ≢ Ordering.gt → order b c ≢ Ordering.gt → order a c ≢ Ordering.gt
unfolding cmp
order_trans a b c h k = ground arith

abbrev is_gt : Ordering → Bool
is_gt Ordering.gt = true
is_gt Ordering.lt = false
is_gt Ordering.eq = false

is_gt-eq : (o : Ordering) → is_gt o ≡ true → o ≡ Ordering.gt
is_gt-eq Ordering.gt h = refl
is_gt-eq Ordering.lt h = cc
is_gt-eq Ordering.eq h = cc

is_gt-ne : (o : Ordering) → is_gt o ≡ false → o ≢ Ordering.gt
is_gt-ne Ordering.gt h = λ e. cc
is_gt-ne Ordering.lt h = λ e. cc
is_gt-ne Ordering.eq h = λ e. cc

-- Takes a greatest entry out of a list.
pick : Task → List Task → Task × List Task
pick x [] = (x, [])
pick x (y ∷ ys) =
    let r = pick y ys in if is_gt (order r.0 x) then (r.0, x ∷ r.1) else (x, r.0 ∷ r.1)

pick-length : (x : Task) (xs : List Task) → length (pick x xs).1 ≡ length xs
unfolding pick
pick-length x [] = refl
pick-length x (y ∷ ys) = elim (Bool-cases (is_gt (order (pick y ys).0 x))) [
  | inl g ↦ rw g (ap suc (pick-length y ys))
  | inr g ↦ rw g (ap suc (pick-length y ys))
]

pick-greatest :
    (x : Task) (xs : List Task) (u : Task) → Memᴰ u (x ∷ xs) → order u (pick x xs).0 ≢ Ordering.gt
unfolding pick
pick-greatest x [] u (Memᴰ.head e) = rw e (order_refl x)
pick-greatest x [] u (Memᴰ.tail m) = elim m [ ]
pick-greatest x (y ∷ ys) u (Memᴰ.head e) = elim (Bool-cases (is_gt (order (pick y ys).0 x))) [
  | inl g ↦ rw (g, e) (order_asym (pick y ys).0 x (is_gt-eq (order (pick y ys).0 x) g))
  | inr g ↦ rw (g, e) (order_refl x)
]
pick-greatest x (y ∷ ys) u (Memᴰ.tail m) = elim (Bool-cases (is_gt (order (pick y ys).0 x))) [
  | inl g ↦ rw g (pick-greatest y ys u m)
  | inr g ↦
      rw g (
        order_trans u (pick y ys).0 x (pick-greatest y ys u m) (is_gt-ne (order (pick y ys).0 x) g))
]

pick-keeps :
    (x : Task) (xs : List Task) (u : Task)
    → Memᴰ u (x ∷ xs)
    → (u ≡ (pick x xs).0) ⊎ Memᴰ u (pick x xs).1
unfolding pick
pick-keeps x [] u (Memᴰ.head e) = inl e
pick-keeps x [] u (Memᴰ.tail m) = elim m [ ]
pick-keeps x (y ∷ ys) u (Memᴰ.head e) = elim (Bool-cases (is_gt (order (pick y ys).0 x))) [
  | inl g ↦ rw g (inr (Memᴰ.head e))
  | inr g ↦ rw g (inl e)
]
pick-keeps x (y ∷ ys) u (Memᴰ.tail m) = elim (Bool-cases (is_gt (order (pick y ys).0 x))) [
  | inl g ↦ rw g (elim (pick-keeps y ys u m) [ inl e ↦ inl e | inr n ↦ inr (Memᴰ.tail n) ])
  | inr g ↦
      rw g (elim (pick-keeps y ys u m) [ inl e ↦ inr (Memᴰ.head e) | inr n ↦ inr (Memᴰ.tail n) ])
]

pick-adds_none :
    (x : Task) (xs : List Task) (u : Task)
    → (u ≡ (pick x xs).0) ⊎ Memᴰ u (pick x xs).1
    → Memᴰ u (x ∷ xs)
unfolding pick
pick-adds_none x [] u (inl e) = Memᴰ.head e
pick-adds_none x [] u (inr m) = elim m [ ]
pick-adds_none x (y ∷ ys) u h = elim (Bool-cases (is_gt (order (pick y ys).0 x))) [
  | inl g ↦ elim (rw g at h) [
    | inl e ↦ Memᴰ.tail (pick-adds_none y ys u (inl e))
    | inr m ↦ first_or (λ n. pick-adds_none y ys u (inr n)) m
  ]
  | inr g ↦ elim (rw g at h) [
    | inl e ↦ Memᴰ.head e
    | inr m ↦ Memᴰ.tail (pick-adds_none y ys u (among m))
  ]
]
  where
    first_or :
        (Memᴰ u (pick y ys).1 → Memᴰ u (y ∷ ys)) → Memᴰ u (x ∷ (pick y ys).1) → Memᴰ u (x ∷ y ∷ ys)
    first_or later (Memᴰ.head e) = Memᴰ.head e
    first_or later (Memᴰ.tail m) = Memᴰ.tail (later m)

    among : Memᴰ u ((pick y ys).0 ∷ (pick y ys).1) → (u ≡ (pick y ys).0) ⊎ Memᴰ u (pick y ys).1
    among (Memᴰ.head e) = inl e
    among (Memᴰ.tail m) = inr m

pop_list : List Task → Option (Task × List Task)
pop_list [] = none
pop_list (x ∷ xs) = some (pick x xs)

pop_list-length :
    (q : List Task) (t : Task) (rest : List Task)
    → pop_list q ≡ some (t, rest)
    → length q ≡ suc (length rest)
unfolding pop_list
pop_list-length [] t rest h = cc
pop_list-length (x ∷ xs) t rest h =
    omega (arith, pick-length x xs, ap (λ (r : Task × List Task). length r.1) (some-eq h))

pop_list-greatest :
    (q : List Task) (t : Task) (rest : List Task)
    → pop_list q ≡ some (t, rest)
    → (u : Task) → Memᴰ u q
    → order u t ≢ Ordering.gt
unfolding pop_list
pop_list-greatest [] t rest h u m = elim m [ ]
pop_list-greatest (x ∷ xs) t rest h u m =
    subst (λ (r : Task × List Task). order u r.0 ≢ Ordering.gt) (some-eq h) (pick-greatest x xs u m)

pop_list-keeps :
    (q : List Task) (t : Task) (rest : List Task)
    → pop_list q ≡ some (t, rest)
    → (u : Task) → Memᴰ u q
    → (u ≡ t) ⊎ Memᴰ u rest
unfolding pop_list
pop_list-keeps [] t rest h u m = elim m [ ]
pop_list-keeps (x ∷ xs) t rest h u m =
    subst (λ (r : Task × List Task). (u ≡ r.0) ⊎ Memᴰ u r.1) (some-eq h) (pick-keeps x xs u m)

pop_list-adds_none :
    (q : List Task) (t : Task) (rest : List Task)
    → pop_list q ≡ some (t, rest)
    → (u : Task) → (u ≡ t) ⊎ Memᴰ u rest
    → Memᴰ u q
unfolding pop_list
pop_list-adds_none [] t rest h u m = let e : ⊥ = cc in absurd e
pop_list-adds_none (x ∷ xs) t rest h u m =
    pick-adds_none x xs u
      (subst (λ (r : Task × List Task). (u ≡ r.0) ⊎ Memᴰ u r.1) (sym (some-eq h)) m)

list_heap : MaxHeap ℕ order
unfolding pop_list
list_heap = record {
  pop = pop_list;
  pop-nil = refl;
  pop-cons = λ t ts. (pick t ts, refl);
  pop-length = pop_list-length;
  pop-greatest = pop_list-greatest;
  pop-keeps = pop_list-keeps;
  pop-adds_none = pop_list-adds_none;
}

abbrev some_calls : List (Call ℕ)
some_calls =
    pushes 1 queue 100 0
    ∷ pushes 2 queue 50 0
    ∷ reranks 1 user_initiated
    ∷ pops
    ∷ progresses 2 90
    ∷ removes 7
    ∷ []

run-IsScheduler_example : IsScheduler (run list_heap Queue.new some_calls)
run-IsScheduler_example = run-IsScheduler list_heap some_calls (omega arith)

abbrev two_tasks : Scheduler ℕ
two_tasks = push (new_task 2 user_initiated 50 0) (push (new_task 1 queue 100 0) Queue.new)

two_tasks-IsLive : IsLive two_tasks.queue two_tasks.index
unfolding run step
two_tasks-IsLive =
    (run-IsScheduler list_heap (pushes 1 queue 100 0 ∷ pushes 2 user_initiated 50 0 ∷ [])
      (omega arith)).live

pops_user_first :
    (pop list_heap two_tasks).1
    ≡ some (record {
      task_id = 2;
      priority = user_initiated;
      file_size = 50;
      progress = 0;
      version = 2;
    })
unfolding pop pop_from push new_task Queue.new list_heap pop_list pick cmp lookup insert
pops_user_first = refl

pop-Delivers_example :
    let (s', task) = pop list_heap two_tasks in
    Delivers list_heap two_tasks.index (task, s'.queue, s'.index)
pop-Delivers_example = pop-Delivers list_heap two_tasks two_tasks-IsLive
