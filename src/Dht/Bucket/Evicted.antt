-- ===== src/Dht/Bucket/Evicted.antt =====
-- evict_stale of kbucket.rs.
use ai_model_downloader.Base.{
  nat_eq, string_eq, ℕ, ◌≡◌, sym, ap, ◌∙◌, inl, inr, false, List, [], ◌∷◌, ◌++◌, leb, Bool-cases,
  length, All,
}
use mathlib.Core.List.{Memᴰ}
use ai_model_downloader.Dht.Bucket.{
  DhtNode, KBucket, k_bucket_size, is_stale, fresh, refill, evict_stale,
}

fresh-All : (now : ℕ) (ns : List DhtNode) → All (λ n. is_stale now n ≡ false) (fresh now ns)
unfolding fresh
fresh-All now [] = tt
fresh-All now (n ∷ ns) = elim (Bool-cases (is_stale now n)) [
  | inl s ↦ rw s (fresh-All now ns)
  | inr s ↦ rw s (s, fresh-All now ns)
]

All-snoc :
    (now : ℕ) (ns : List DhtNode) (n : DhtNode)
    → All (λ m. is_stale now m ≡ false) ns
    → is_stale now n ≡ false
    → All (λ m. is_stale now m ≡ false) (ns ++ (n ∷ []))
All-snoc now [] n a s = (s, tt)
All-snoc now (m ∷ ns) n (h, a) s = (h, All-snoc now ns n a s)

refill-All :
    (now : ℕ) (cache nodes : List DhtNode)
    → All (λ n. is_stale now n ≡ false) nodes
    → All (λ n. is_stale now n ≡ false) (refill now cache nodes).0
unfolding refill
refill-All now [] nodes a = a
refill-All now (n ∷ cache) nodes a = elim (Bool-cases (leb k_bucket_size (length nodes))) [
  | inl f ↦ rw f a
  | inr f ↦ rw f (elim (Bool-cases (is_stale now n)) [
    | inl s ↦ rw s (refill-All now cache nodes a)
    | inr s ↦ rw s (refill-All now cache (nodes ++ (n ∷ [])) (All-snoc now nodes n a s))
  ])
]

Memᴰ-fresh :
    (now : ℕ) (n : DhtNode) (ns : List DhtNode)
    → Memᴰ n ns
    → is_stale now n ≡ false
    → Memᴰ n (fresh now ns)
unfolding fresh
Memᴰ-fresh now n [] x s = elim x [ ]
Memᴰ-fresh now n (m ∷ ns) (Memᴰ.head e) s = rw (ap (is_stale now) (sym e) ∙ s) (Memᴰ.head e)
Memᴰ-fresh now n (m ∷ ns) (Memᴰ.tail t) s = elim (Bool-cases (is_stale now m)) [
  | inl q ↦ rw q (Memᴰ-fresh now n ns t s)
  | inr q ↦ rw q (Memᴰ.tail (Memᴰ-fresh now n ns t s))
]

Memᴰ-append : (n : DhtNode) (ns ms : List DhtNode) → Memᴰ n ns → Memᴰ n (ns ++ ms)
Memᴰ-append n [] ms x = elim x [ ]
Memᴰ-append n (m ∷ ns) ms (Memᴰ.head e) = Memᴰ.head e
Memᴰ-append n (m ∷ ns) ms (Memᴰ.tail t) = Memᴰ.tail (Memᴰ-append n ns ms t)

Memᴰ-refill :
    (now : ℕ) (n : DhtNode) (cache nodes : List DhtNode)
    → Memᴰ n nodes
    → Memᴰ n (refill now cache nodes).0
unfolding refill
Memᴰ-refill now n [] nodes t = t
Memᴰ-refill now n (m ∷ cache) nodes t = elim (Bool-cases (leb k_bucket_size (length nodes))) [
  | inl f ↦ rw f t
  | inr f ↦ rw f (elim (Bool-cases (is_stale now m)) [
    | inl s ↦ rw s (Memᴰ-refill now n cache nodes t)
    | inr s ↦ rw s (Memᴰ-refill now n cache (nodes ++ (m ∷ [])) (Memᴰ-append n nodes (m ∷ []) t))
  ])
]

-- Evicting leaves no stale node in the bucket, not even one from the cache, and loses no other node.
pub evict_stale-All :
    (now : ℕ) (b : KBucket)
    → All (λ n. is_stale now n ≡ false) (evict_stale now b).nodes
      × ((n : DhtNode) → Memᴰ n b.nodes → is_stale now n ≡ false → Memᴰ n (evict_stale now b).nodes)
unfolding evict_stale
evict_stale-All now b = (
  refill-All now b.replacement_cache (fresh now b.nodes) (fresh-All now b.nodes),
  λ n t s. Memᴰ-refill now n b.replacement_cache (fresh now b.nodes) (Memᴰ-fresh now n b.nodes t s),
)
