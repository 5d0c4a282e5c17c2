-- ===== src/Io/Buffer.antt =====
-- crates/tachyon-io/src/buffer.rs. A buffer is its content; the caller's buffers are kept in the state, so
-- that a release, by hand or by the drop of a guard, gives one of them back. Each method is one atomic
-- step, and an allocation that has to wait changes nothing.
mod Accounts
mod Examples
use ai_model_downloader.Base.{
  lookup, insert, remove, Eq, nat_eq, string_eq, lookup-insert, lookup-remove, ℕ, zero, suc, ◌+◌,
  ◌-◌, ◌*◌, ◌/◌, ◌%◌, ◌^◌, ◌≤◌, ◌<◌, min, max, ◌≡◌, refl, sym, ap, ◌∙◌, subst, ◌≢◌, ◌↔◌, ◌⊎◌, inl,
  inr, Bool, true, false, not, ◌&&◌, ◌||◌, Option, none, some, List, [], ◌∷◌, ◌++◌, map, arith,
  dec_lt, ℕ_discrete, ltb, leb, ◌==◌, if◌then◌else◌, ltb→lt, lt→ltb, leb→le, le→leb, ==_iff, lt→leb,
  ne→==, Bool-cases, Option-cases, some-eq, u8, u32, u64, u64_max, checked_add, length, get_elem?,
  set, take, drop, length-append, length-drop, length-set, All, Texts, codes, is_empty, is_some,
  same_text, to_lower, trim_start, trim_onto, trim_end, extend, before_last,
}

pub record BufferPool : Type 0 where
  pub buffer_size : ℕ
  pub capacity : ℕ
  pub pool : List (List ℕ)
  pub permits : ℕ
  pub outstanding : ℕ
  pub lent : List (List ℕ)

unfoldable pub new : ℕ → ℕ → BufferPool
new buffer_size capacity = record {
  buffer_size = buffer_size;
  capacity = capacity;
  pool = [];
  permits = capacity;
  outstanding = 0;
  lent = [];
}

-- The bound of the `ArrayQueue`.
abbrev pub queue_size : BufferPool → ℕ
queue_size p = max p.capacity 1

-- `ArrayQueue::push`, which drops the buffer where the queue is full.
abbrev pub push_bounded : ℕ → List ℕ → List (List ℕ) → List (List ℕ)
push_bounded bound buf pool = if ltb (length pool) bound then pool ++ (buf ∷ []) else pool

unfoldable pub push_new : ℕ → ℕ → List (List ℕ) → List (List ℕ)
push_new bound zero pool = pool
push_new bound (suc n) pool = push_new bound n (push_bounded bound [] pool)

unfoldable pub with_prefill : ℕ → ℕ → BufferPool
with_prefill buffer_size capacity = record (new buffer_size capacity) {
  pool = push_new (max capacity 1) capacity [];
}

-- `pop`, or a new buffer.
abbrev pub take_buffer : List (List ℕ) → BufferPool → BufferPool
take_buffer [] p = record p { lent = [] ∷ p.lent }
take_buffer (buf ∷ pool) p = record p { pool = pool; lent = buf ∷ p.lent }

unfoldable pub alloc : BufferPool → BufferPool
alloc p =
    if ltb 0 p.permits
    then take_buffer p.pool
        (record p { permits = p.permits - 1; outstanding = u64 (p.outstanding + 1) })
    else p

-- The caller's i-th buffer leaves the list of those that are lent.
abbrev pub without_at : ℕ → List (List ℕ) → List (List ℕ)
without_at i [] = []
without_at zero (b ∷ bs) = bs
without_at (suc i) (b ∷ bs) = b ∷ without_at i bs

unfoldable pub release : ℕ → BufferPool → BufferPool
release i p =
    if ltb i (length p.lent)
    then record p {
      outstanding = u64 (p.outstanding + u64_max);
      pool = push_bounded (queue_size p) [] p.pool;
      permits = p.permits + 1;
      lent = without_at i p.lent;
    }
    else p

unfoldable pub prewarm : BufferPool → BufferPool
prewarm p = record p {
  pool = push_new (queue_size p) (p.capacity - p.outstanding - length p.pool) p.pool;
}

-- What a caller does with a buffer of its own.
abbrev pub write_into : ℕ → List ℕ → BufferPool → BufferPool
write_into i content p = record p { lent = set p.lent i content }
