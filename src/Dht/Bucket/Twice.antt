-- ===== src/Dht/Bucket/Twice.antt =====
-- kbucket.rs: a node that is seen again while its bucket is full.
use ai_model_downloader.Base.{
  nat_eq, string_eq, ℕ, suc, ◌+◌, ◌≤◌, ◌<◌, ◌≡◌, refl, sym, ap, ◌∙◌, subst, ◌≢◌, true, false, List,
  [], ◌∷◌, ◌++◌, arith, leb, ◌==◌, if◌then◌else◌, le→leb, length,
}
use ai_model_downloader.Dht.Bucket.{
  DhtNode, KBucket, k_bucket_size, is_full, contains, without, drop_oldest, update,
}
use ai_model_downloader.Dht.Bucket as Bucket

unfoldable pub count : ℕ → List DhtNode → ℕ
count id [] = 0
count id (n ∷ ns) = if n.id == id then suc (count id ns) else count id ns

count-append : (id : ℕ) (ns ms : List DhtNode) → count id (ns ++ ms) ≡ count id ns + count id ms
unfolding count
count-append id [] ms = omega arith
count-append id (n ∷ ns) ms = ground (arith, count-append id ns ms)

count-without :
    (id other : ℕ) (ns : List DhtNode) → other ≢ id → count id (without other ns) ≡ count id ns
unfolding count without
count-without id other [] h = refl
count-without id other (n ∷ ns) h = ground (arith, count-without id other ns h)

abbrev holding : List DhtNode → List DhtNode → ℕ → KBucket
holding ns cache t = record { nodes = ns; replacement_cache = cache; last_activity = t }

update_full :
    (now t : ℕ) (node : DhtNode) (ns cache : List DhtNode)
    → length ns ≡ 20
    → contains node.id ns ≡ false
    → length cache < 20
    → (update now node (holding ns cache t)).0 ≡ holding ns (node ∷ cache) now
unfolding update is_full
update_full now t node ns cache l f c = rw (f, le→leb 20 (length ns) (omega arith), not_full) refl
  where
    not_full : leb k_bucket_size (length cache) ≡ false
    not_full = ground arith

remove_known :
    (now t id : ℕ) (ns : List DhtNode) (n : DhtNode) (cache : List DhtNode)
    → contains id ns ≡ true
    → (Bucket.remove now id (holding ns (n ∷ cache) t)).0
      ≡ holding (without id ns ++ (n ∷ [])) cache now
unfolding Bucket.remove
remove_known now t id ns n cache f = rw f refl

-- A node that is seen twice while its bucket is full takes two places in it once two others have gone: for a bucket of 20 nodes and an empty cache, after two updates with a node
-- that it does not have and the removal of two other nodes.
pub update_twice :
    (now t x y : ℕ) (node : DhtNode) (ns : List DhtNode)
    → length ns ≡ 20
    → contains node.id ns ≡ false
    → contains x ns ≡ true
    → contains y (without x ns ++ (node ∷ [])) ≡ true
    → y ≢ node.id
    → let seen = (update now node (update now node (holding ns [] t)).0).0 in
      let left = (Bucket.remove now y (Bucket.remove now x seen).0).0 in
      2 ≤ count node.id left.nodes
update_twice now t x y node ns l f hx hy n =
    subst (λ b. 2 ≤ count node.id b.nodes) (sym steps) twice
  where
    steps :
        (Bucket.remove now y
          (Bucket.remove now x (update now node (update now node (holding ns [] t)).0).0).0).0
        ≡ holding (without y (without x ns ++ (node ∷ [])) ++ (node ∷ [])) [] now
    steps =
        ap (λ b. (Bucket.remove now y (Bucket.remove now x (update now node b).0).0).0)
          (update_full now t node ns [] l f (omega arith))
        ∙ ap (λ b. (Bucket.remove now y (Bucket.remove now x b).0).0)
            (update_full now now node ns (node ∷ []) l f (omega arith))
        ∙ ap (λ b. (Bucket.remove now y b).0) (remove_known now now x ns node (node ∷ []) hx)
        ∙ remove_known now now y (without x ns ++ (node ∷ [])) node [] hy

    one : count node.id (node ∷ []) ≡ 1
    one = unfold count in ground arith

    twice : 2 ≤ count node.id (without y (without x ns ++ (node ∷ [])) ++ (node ∷ []))
    twice = omega (
      arith,
      count-append node.id (without y (without x ns ++ (node ∷ []))) (node ∷ []),
      count-without node.id y (without x ns ++ (node ∷ [])) n,
      count-append node.id (without x ns) (node ∷ []),
      one,
    )
