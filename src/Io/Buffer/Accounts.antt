-- ===== src/Io/Buffer/Accounts.antt =====
-- buffer.rs: the permits, the buffers that are lent and those that wait.
use ai_model_downloader.Base.{
  nat_eq, string_eq, ℕ, zero, suc, ◌+◌, ◌-◌, ◌≤◌, ◌<◌, max, ◌≡◌, refl, sym, ap, ◌∙◌, subst, inl,
  inr, List, [], ◌∷◌, ◌++◌, arith, ltb, ltb→lt, Bool-cases, u64, u64_max, length, length-append,
  length-set, All,
}
use ai_model_downloader.Io.Buffer.{
  BufferPool, new, queue_size, push_bounded, push_new, with_prefill, take_buffer, alloc, without_at,
  release, prewarm, write_into,
}

abbrev Cleared : List (List ℕ) → Type 0
Cleared bufs = All (λ b. b ≡ []) bufs

-- The invariant that the code names, that waiting and lent buffers fit into the capacity, and that the
-- waiting ones are empty.
pub record Accounted (p : BufferPool) : Type 0 where
  pub permits : p.permits + p.outstanding ≡ p.capacity
  pub lent : p.outstanding ≡ length p.lent
  pub fits : length p.pool + p.outstanding ≤ p.capacity
  pub cleared : All (λ b. b ≡ []) p.pool
  pub bounded : p.capacity ≤ u64_max

snoc-Cleared : (bufs : List (List ℕ)) → Cleared bufs → Cleared (bufs ++ ([] ∷ []))
snoc-Cleared [] a = (refl, tt)
snoc-Cleared (b ∷ bs) (h, a) = (h, snoc-Cleared bs a)

push-Cleared :
    (bound : ℕ) (bufs : List (List ℕ)) → Cleared bufs → Cleared (push_bounded bound [] bufs)
push-Cleared bound bufs a = elim (Bool-cases (ltb (length bufs) bound)) [
  | inl e ↦ rw e (snoc-Cleared bufs a)
  | inr e ↦ rw e a
]

length-push :
    (bound : ℕ) (bufs : List (List ℕ)) → length (push_bounded bound [] bufs) ≤ length bufs + 1
length-push bound bufs = ground (arith, length-append bufs ([] ∷ []))

push_new-Cleared :
    (bound n : ℕ) (bufs : List (List ℕ)) → Cleared bufs → Cleared (push_new bound n bufs)
unfolding push_new
push_new-Cleared bound zero bufs a = a
push_new-Cleared bound (suc n) bufs a =
    push_new-Cleared bound n (push_bounded bound [] bufs) (push-Cleared bound bufs a)

length-push_new :
    (bound n : ℕ) (bufs : List (List ℕ)) → length (push_new bound n bufs) ≤ length bufs + n
unfolding push_new
length-push_new bound zero bufs = omega arith
length-push_new bound (suc n) bufs =
    omega (arith, length-push_new bound n (push_bounded bound [] bufs), length-push bound bufs)

length-without_at :
    (i : ℕ) (bufs : List (List ℕ)) → i < length bufs → length (without_at i bufs) + 1 ≡ length bufs
length-without_at i [] h = absurd (omega arith)
length-without_at zero (b ∷ bs) h = omega arith
length-without_at (suc i) (b ∷ bs) h = omega (arith, length-without_at i bs (omega arith))

taken-Accounted :
    (pool : List (List ℕ)) (p : BufferPool)
    → p.pool ≡ pool
    → 0 < p.permits
    → Accounted p
    → Accounted (
        take_buffer pool
          (record p { permits = p.permits - 1; outstanding = u64 (p.outstanding + 1) }))
taken-Accounted [] p e h v = record {
  permits = omega (arith, v.permits, v.bounded);
  lent = omega (arith, v.lent, v.permits, v.bounded);
  fits = omega (arith, v.permits, v.bounded, ap length e);
  cleared = v.cleared;
  bounded = v.bounded;
}
taken-Accounted (b ∷ bs) p e h v = record {
  permits = omega (arith, v.permits, v.bounded);
  lent = omega (arith, v.lent, v.permits, v.bounded);
  fits = omega (arith, v.fits, v.permits, v.bounded, ap length e);
  cleared = (subst (λ (q : List (List ℕ)). Cleared q) e v.cleared).1;
  bounded = v.bounded;
}

pub data Call : Type 0 where
  allocs : Call
  writes : ℕ → List ℕ → Call
  releases : ℕ → Call
  prewarms : Call

unfoldable pub step : BufferPool → Call → BufferPool
step p allocs = alloc p
step p (writes i content) = write_into i content p
step p (releases i) = release i p
step p prewarms = prewarm p

unfoldable pub run : BufferPool → List Call → BufferPool
run p [] = p
run p (c ∷ cs) = run (step p c) cs

release-Accounted : (i : ℕ) (p : BufferPool) → Accounted p → Accounted (release i p)
unfolding release
release-Accounted i p v = elim (Bool-cases (ltb i (length p.lent))) [
  | inl e ↦
      let l = length-without_at i p.lent (ltb→lt i (length p.lent) e) in
      rw e (record {
        permits = omega (arith, v.permits, v.lent, v.bounded);
        lent = omega (arith, v.permits, v.lent, v.bounded);
        fits =
            omega (arith, v.fits, v.permits, v.lent, v.bounded, length-push (queue_size p) p.pool);
        cleared = push-Cleared (queue_size p) p.pool v.cleared;
        bounded = v.bounded;
      })
  | inr e ↦ rw e v
]

step-Accounted : (p : BufferPool) (c : Call) → Accounted p → Accounted (step p c)
unfolding step alloc prewarm
step-Accounted p allocs v = elim (Bool-cases (ltb 0 p.permits)) [
  | inl e ↦ rw e (taken-Accounted p.pool p refl (ltb→lt 0 p.permits e) v)
  | inr e ↦ rw e v
]
step-Accounted p (writes i content) v = record {
  permits = v.permits;
  lent = v.lent ∙ sym (length-set p.lent i content);
  fits = v.fits;
  cleared = v.cleared;
  bounded = v.bounded;
}
step-Accounted p (releases i) v = release-Accounted i p v
step-Accounted p prewarms v = record {
  permits = v.permits;
  lent = v.lent;
  fits = omega (
    arith,
    v.fits,
    length-push_new (queue_size p) (p.capacity - p.outstanding - length p.pool) p.pool,
  );
  cleared =
      push_new-Cleared (queue_size p) (p.capacity - p.outstanding - length p.pool) p.pool v.cleared;
  bounded = v.bounded;
}

run-step : (p : BufferPool) (cs : List Call) → Accounted p → Accounted (run p cs)
unfolding run
run-step p [] v = v
run-step p (c ∷ cs) v = run-step (step p c) cs (step-Accounted p c v)

-- After any calls on a new pool, prefilled or not, the free permits and the buffers that are lent add up
-- to the capacity, the counter is the number of lent buffers, these and the waiting ones fit into the
-- capacity, and the waiting ones are empty.
pub run-Accounted :
    (buffer_size capacity : ℕ) (cs : List Call)
    → capacity ≤ u64_max
    → Accounted (run (new buffer_size capacity) cs)
      × Accounted (run (with_prefill buffer_size capacity) cs)
unfolding new with_prefill
run-Accounted buffer_size capacity cs h = (
  run-step (new buffer_size capacity) cs (record {
    permits = omega arith;
    lent = refl;
    fits = omega arith;
    cleared = tt;
    bounded = h;
  }),
  run-step (with_prefill buffer_size capacity) cs (record {
    permits = omega arith;
    lent = refl;
    fits = omega (arith, length-push_new (max capacity 1) capacity []);
    cleared = push_new-Cleared (max capacity 1) capacity [] tt;
    bounded = h;
  }),
)
