-- ===== src/Dht/Bucket/Filled.antt =====
-- kbucket.rs: how full a bucket and its cache are.
use ai_model_downloader.Base.{
  nat_eq, string_eq, ℕ, suc, ◌+◌, ◌-◌, ◌≤◌, ◌<◌, ◌≡◌, refl, ap, inl, inr, true, false, List, [],
  ◌∷◌, ◌++◌, arith, leb, leb→le, Bool-cases, length, length-append,
}
use ai_model_downloader.Dht.Bucket.{
  DhtNode, KBucket, k_bucket_size, is_stale, new, is_full, contains, without, drop_oldest, cached,
  update, refill_one, replace_first, replace_oldest, fresh, refill, evict_stale,
}
use ai_model_downloader.Dht.Bucket as Bucket

-- A bucket and its cache have their bounds, and nodes wait in the cache only while the bucket is full.
pub record Filled (b : KBucket) : Type 0 where
  pub nodes_bound : length b.nodes ≤ 20
  pub cache_bound : length b.replacement_cache ≤ 20
  pub waiting : 0 < length b.replacement_cache → length b.nodes ≡ 20

pub length-without :
    (id : ℕ) (ns : List DhtNode) → contains id ns ≡ true → length (without id ns) + 1 ≡ length ns
unfolding contains without
length-without id [] h = cc
length-without id (n ∷ ns) h = ground (arith, length-without id ns)

length-drop_oldest : (ns : List DhtNode) → length (drop_oldest ns) ≡ length ns - 1
unfolding drop_oldest
length-drop_oldest [] = omega arith
length-drop_oldest (n ∷ []) = omega arith
length-drop_oldest (n ∷ m ∷ ns) = omega (arith, length-drop_oldest (m ∷ ns))

length-cached : (ns : List DhtNode) → length ns ≤ 20 → length (cached ns) + 1 ≤ 20
length-cached ns h = ground (arith, length-drop_oldest ns)

length-fresh : (now : ℕ) (ns : List DhtNode) → length (fresh now ns) ≤ length ns
unfolding fresh
length-fresh now [] = omega arith
length-fresh now (n ∷ ns) = ground (arith, length-fresh now ns)

-- What the refill loop promises of a list of nodes and a cache.
abbrev Refilled : ℕ → List DhtNode × List DhtNode → Type 0
Refilled most r = (length r.0 ≤ 20) × (length r.1 ≤ most) × (0 < length r.1 → length r.0 ≡ 20)

refill-Refilled :
    (now : ℕ) (cache nodes : List DhtNode)
    → length nodes ≤ 20
    → Refilled (length cache) (refill now cache nodes)
unfolding refill
refill-Refilled now [] nodes h = (h, omega arith, λ z. absurd (omega arith))
refill-Refilled now (n ∷ cache) nodes h = elim (Bool-cases (leb k_bucket_size (length nodes))) [
  | inl f ↦ rw f (h, omega arith, λ z. omega (arith, leb→le 20 (length nodes) f))
  | inr f ↦ rw f (elim (Bool-cases (is_stale now n)) [
    | inl s ↦ rw s (wider _ (refill-Refilled now cache nodes h))
    | inr s ↦ rw s (
        wider _ (
          refill-Refilled now cache (nodes ++ (n ∷ []))
            (omega (arith, length-append nodes (n ∷ []), not_full f))))
  ])
]
  where
    not_full : leb 20 (length nodes) ≡ false → length nodes < 20
    not_full f = ground arith

    wider :
        (r : List DhtNode × List DhtNode)
        → Refilled (length cache) r
        → Refilled (suc (length cache)) r
    wider r (a, b, c) = (a, omega arith, c)

-- The calls of a bucket's methods, with their times.
pub data Call : Type 0 where
  updates : ℕ → DhtNode → Call
  removes : ℕ → ℕ → Call
  replaces evicts : ℕ → Call

unfoldable pub step : KBucket → Call → KBucket
step b (updates now node) = (update now node b).0
step b (removes now id) = (Bucket.remove now id b).0
step b (replaces now) = replace_oldest now b
step b (evicts now) = evict_stale now b

unfoldable pub run : KBucket → List Call → KBucket
run b [] = b
run b (c ∷ cs) = run (step b c) cs

pub update-Filled :
    (now : ℕ) (node : DhtNode) (b : KBucket) → Filled b → Filled (update now node b).0
unfolding update is_full
update-Filled now node b v = elim (Bool-cases (contains node.id b.nodes)) [
  | inl f ↦ rw f (record {
    nodes_bound = omega (arith, moved f, v.nodes_bound);
    cache_bound = v.cache_bound;
    waiting = λ z. omega (arith, moved f, v.waiting z);
  })
  | inr f ↦ rw f (elim (Bool-cases (leb k_bucket_size (length b.nodes))) [
    | inl g ↦ rw g (record {
      nodes_bound = v.nodes_bound;
      cache_bound = omega (arith, length-cached b.replacement_cache v.cache_bound);
      waiting = λ z. omega (arith, v.nodes_bound, leb→le 20 (length b.nodes) g);
    })
    | inr g ↦ rw g (record {
      nodes_bound = omega (arith, length-append b.nodes (node ∷ []), room g);
      cache_bound = v.cache_bound;
      waiting = λ z. absurd (omega (arith, room g, v.waiting z));
    })
  ])
]
  where
    room : leb 20 (length b.nodes) ≡ false → length b.nodes < 20
    room g = ground arith

    moved :
        contains node.id b.nodes ≡ true
        → length (without node.id b.nodes ++ (record node { last_seen = now } ∷ []))
          ≡ length b.nodes
    moved f = omega (
      arith,
      length-append (without node.id b.nodes) (record node { last_seen = now } ∷ []),
      length-without node.id b.nodes f,
    )

refill_one-Filled :
    (cache nodes : List DhtNode) (t : ℕ)
    → length nodes + 1 ≤ 20
    → length cache ≤ 20
    → (0 < length cache → length nodes + 1 ≡ 20)
    → Filled
        (refill_one cache (record { nodes = nodes; replacement_cache = cache; last_activity = t }))
refill_one-Filled [] nodes t h c w = record {
  nodes_bound = omega arith;
  cache_bound = omega arith;
  waiting = λ z. absurd (omega arith);
}
refill_one-Filled (n ∷ cache) nodes t h c w = record {
  nodes_bound = omega (arith, length-append nodes (n ∷ []));
  cache_bound = omega arith;
  waiting = λ z. omega (arith, length-append nodes (n ∷ []), w (omega arith));
}

pub remove-Filled : (now id : ℕ) (b : KBucket) → Filled b → Filled (Bucket.remove now id b).0
unfolding Bucket.remove
remove-Filled now id b v = elim (Bool-cases (contains id b.nodes)) [
  | inl f ↦ rw f (
      refill_one-Filled b.replacement_cache (without id b.nodes) now
        (omega (arith, length-without id b.nodes f, v.nodes_bound)) v.cache_bound
        (λ z. omega (arith, length-without id b.nodes f, v.waiting z)))
  | inr f ↦ rw f v
]

replace_first-Filled :
    (now : ℕ) (cache nodes : List DhtNode) (b : KBucket)
    → Filled b
    → b.replacement_cache ≡ cache
    → b.nodes ≡ nodes
    → Filled (replace_first now cache nodes b)
replace_first-Filled now [] nodes b v c n = v
replace_first-Filled now (x ∷ cache) [] b v c n =
    absurd (omega (arith, v.waiting (omega (arith, ap length c)), ap length n))
replace_first-Filled now (x ∷ cache) (m ∷ ms) b v c n = record {
  nodes_bound = omega (arith, ap length n, v.nodes_bound);
  cache_bound = omega (arith, ap length c, v.cache_bound);
  waiting = λ z. omega (arith, ap length n, v.waiting (omega (arith, ap length c)));
}

pub evict_stale-Filled : (now : ℕ) (b : KBucket) → Filled b → Filled (evict_stale now b)
unfolding evict_stale
evict_stale-Filled now b v =
    let (n, c, w) =
      refill-Refilled now b.replacement_cache (fresh now b.nodes)
        (omega (arith, length-fresh now b.nodes, v.nodes_bound)) in
    record { nodes_bound = n; cache_bound = omega (arith, v.cache_bound); waiting = w }

step-Filled : (b : KBucket) (c : Call) → Filled b → Filled (step b c)
unfolding step replace_oldest
step-Filled b (updates now node) v = update-Filled now node b v
step-Filled b (removes now id) v = remove-Filled now id b v
step-Filled b (replaces now) v = replace_first-Filled now b.replacement_cache b.nodes b v refl refl
step-Filled b (evicts now) v = evict_stale-Filled now b v

run_kept : (b : KBucket) (cs : List Call) → Filled b → Filled (run b cs)
unfolding run
run_kept b [] v = v
run_kept b (c ∷ cs) v = run_kept (step b c) cs (step-Filled b c v)

-- After any calls on a new bucket it has at most 20 nodes and its replacement cache at most 20, and
-- nodes wait in the cache only while the bucket is full.
pub run-Filled : (now : ℕ) (cs : List Call) → Filled (run (new now) cs)
unfolding new
run-Filled now cs = run_kept _ cs (record {
  nodes_bound = omega arith;
  cache_bound = omega arith;
  waiting = λ z. absurd (omega arith);
})
