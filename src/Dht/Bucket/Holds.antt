-- ===== src/Dht/Bucket/Holds.antt =====
-- kbucket.rs: what the methods of a bucket keep of its nodes.
use ai_model_downloader.Base.{
  nat_eq, string_eq, ℕ, inl, inr, List, [], ◌∷◌, ◌++◌, leb, ◌==◌, Bool-cases, length, All,
}
use ai_model_downloader.Dht.Bucket.{
  DhtNode, KBucket, k_bucket_size, is_stale, is_full, contains, without, drop_oldest, cached,
  update, refill_one, replace_first, replace_oldest, fresh, refill, evict_stale,
}
use ai_model_downloader.Dht.Bucket as Bucket

-- A property of ids that a bucket's methods keep.
module _ (P : ℕ → Type 0) where
  abbrev pub Has : List DhtNode → Type 0
  Has ns = All (λ n. P n.id) ns

  -- The nodes and the waiting nodes of a bucket have it.
  pub record Holds (b : KBucket) : Type 0 where
    pub nodes : Has b.nodes
    pub waiting : Has b.replacement_cache

  snoc-Has : (ns : List DhtNode) (n : DhtNode) → Has ns → P n.id → Has (ns ++ (n ∷ []))
  snoc-Has [] n a p = (p, tt)
  snoc-Has (m ∷ ns) n (h, a) p = (h, snoc-Has ns n a p)

  without-Has : (id : ℕ) (ns : List DhtNode) → Has ns → Has (without id ns)
  unfolding without
  without-Has id [] a = tt
  without-Has id (n ∷ ns) (h, a) = elim (Bool-cases (n.id == id)) [
    | inl e ↦ rw e a
    | inr e ↦ rw e (h, without-Has id ns a)
  ]

  drop_oldest-Has : (ns : List DhtNode) → Has ns → Has (drop_oldest ns)
  unfolding drop_oldest
  drop_oldest-Has [] a = tt
  drop_oldest-Has (n ∷ []) a = tt
  drop_oldest-Has (n ∷ m ∷ ns) (h, a) = (h, drop_oldest-Has (m ∷ ns) a)

  cached-Has : (ns : List DhtNode) → Has ns → Has (cached ns)
  cached-Has ns a = elim (Bool-cases (leb k_bucket_size (length ns))) [
    | inl e ↦ rw e (drop_oldest-Has ns a)
    | inr e ↦ rw e a
  ]

  fresh-Has : (now : ℕ) (ns : List DhtNode) → Has ns → Has (fresh now ns)
  unfolding fresh
  fresh-Has now [] a = tt
  fresh-Has now (n ∷ ns) (h, a) = elim (Bool-cases (is_stale now n)) [
    | inl e ↦ rw e (fresh-Has now ns a)
    | inr e ↦ rw e (h, fresh-Has now ns a)
  ]

  refill-Has :
      (now : ℕ) (cache nodes : List DhtNode)
      → Has cache
      → Has nodes
      → Has (refill now cache nodes).0 × Has (refill now cache nodes).1
  unfolding refill
  refill-Has now [] nodes c a = (a, tt)
  refill-Has now (n ∷ cache) nodes (h, c) a = elim (Bool-cases (leb k_bucket_size (length nodes))) [
    | inl f ↦ rw f (a, (h, c))
    | inr f ↦ rw f (elim (Bool-cases (is_stale now n)) [
      | inl s ↦ rw s (refill-Has now cache nodes c a)
      | inr s ↦ rw s (refill-Has now cache (nodes ++ (n ∷ [])) c (snoc-Has nodes n a h))
    ])
  ]

  pub update-Holds :
      (now : ℕ) (node : DhtNode) (b : KBucket) → P node.id → Holds b → Holds (update now node b).0
  unfolding update
  update-Holds now node b p v = elim (Bool-cases (contains node.id b.nodes)) [
    | inl f ↦ rw f (record {
      nodes =
          snoc-Has (without node.id b.nodes) (record node { last_seen = now })
            (without-Has node.id b.nodes v.nodes) p;
      waiting = v.waiting;
    })
    | inr f ↦ rw f (elim (Bool-cases (is_full b)) [
      | inl g ↦
          rw g (record { nodes = v.nodes; waiting = (p, cached-Has b.replacement_cache v.waiting) })
      | inr g ↦ rw g (record { nodes = snoc-Has b.nodes node v.nodes p; waiting = v.waiting })
    ])
  ]

  refill_one-Holds :
      (cache nodes : List DhtNode) (t : ℕ)
      → Has cache
      → Has nodes
      → Holds (
          refill_one cache (record { nodes = nodes; replacement_cache = cache; last_activity = t }))
  refill_one-Holds [] nodes t c a = record { nodes = a; waiting = tt }
  refill_one-Holds (n ∷ cache) nodes t (h, c) a = record {
    nodes = snoc-Has nodes n a h;
    waiting = c;
  }

  pub remove-Holds : (now id : ℕ) (b : KBucket) → Holds b → Holds (Bucket.remove now id b).0
  unfolding Bucket.remove
  remove-Holds now id b v = elim (Bool-cases (contains id b.nodes)) [
    | inl f ↦ rw f (
        refill_one-Holds b.replacement_cache (without id b.nodes) now v.waiting
          (without-Has id b.nodes v.nodes))
    | inr f ↦ rw f v
  ]

  pub evict_stale-Holds : (now : ℕ) (b : KBucket) → Holds b → Holds (evict_stale now b)
  unfolding evict_stale
  evict_stale-Holds now b v =
      let (n, c) =
        refill-Has now b.replacement_cache (fresh now b.nodes) v.waiting
          (fresh-Has now b.nodes v.nodes) in
      record { nodes = n; waiting = c }
