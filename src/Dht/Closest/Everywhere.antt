-- ===== src/Dht/Closest/Everywhere.antt =====
-- kbucket.rs: what holds of every node of a table holds of the lists of find_closest.
use ai_model_downloader.Base.{
  nat_eq, ℕ, zero, suc, ◌+◌, ◌-◌, ◌≡◌, refl, Bool, true, false, ◌&&◌, ◌||◌, List, [], ◌∷◌, ◌++◌,
  ltb, leb, if◌then◌else◌, length, get_elem?, take, All,
}
use ai_model_downloader.Dht.Bucket.{DhtNode, KBucket}
use ai_model_downloader.Dht.Table.{xor_distance, all_nodes}
use ai_model_downloader.Dht.Closest.{nodes_of, expand, has_id, retain_new, insert_near, sort_near}

module _ (P : DhtNode → Type 0) where
  pub All-if :
      (b : Bool) (xs ys : List DhtNode) → All P xs → All P ys → All P (if b then xs else ys)
  All-if true xs ys h k = h
  All-if false xs ys h k = k

  pub All-if_when :
      (b : Bool) (xs ys : List DhtNode)
      → (b ≡ true → All P xs)
      → (b ≡ false → All P ys)
      → All P (if b then xs else ys)
  All-if_when true xs ys h k = h refl
  All-if_when false xs ys h k = k refl

  pub All-++ : (xs ys : List DhtNode) → All P xs → All P ys → All P (xs ++ ys)
  All-++ [] ys h k = k
  All-++ (x ∷ xs) ys (p, h) k = (p, All-++ xs ys h k)

  pub All-split : (xs ys : List DhtNode) → All P (xs ++ ys) → All P xs × All P ys
  All-split [] ys h = (tt, h)
  All-split (x ∷ xs) ys (p, h) = let r = All-split xs ys h in ((p, r.0), r.1)

  pub All-take : (k : ℕ) (xs : List DhtNode) → All P xs → All P (take k xs)
  All-take zero xs h = tt
  All-take (suc k) [] h = tt
  All-take (suc k) (x ∷ xs) (p, h) = (p, All-take k xs h)

  pub All-nodes :
      (bs : List KBucket) (i : ℕ) → All P (all_nodes bs) → All P (nodes_of (get_elem? bs i))
  All-nodes [] i h = tt
  All-nodes (b ∷ bs) zero h = (All-split b.nodes (all_nodes bs) h).0
  All-nodes (b ∷ bs) (suc i) h = All-nodes bs i (All-split b.nodes (all_nodes bs) h).1

  pub All-expand :
      (fuel : ℕ) (bs : List KBucket) (count lo hi : ℕ) (cs : List DhtNode)
      → All P (all_nodes bs)
      → All P cs
      → All P (expand fuel bs count lo hi cs)
  unfolding expand
  All-expand zero bs count lo hi cs h k = k
  All-expand (suc fuel) bs count lo hi cs h k =
      let above = if ltb hi 159 then nodes_of (get_elem? bs (hi + 1)) else [] in
      let below = if ltb 0 lo then nodes_of (get_elem? bs (lo - 1)) else [] in
      let up = if ltb hi 159 then hi + 1 else hi in
      All-if (ltb (length cs) count && (ltb hi 159 || ltb 0 lo))
        (expand fuel bs count (lo - 1) up ((cs ++ above) ++ below)) cs
        (All-expand fuel bs count (lo - 1) up ((cs ++ above) ++ below) h (
          All-++ (cs ++ above) below
            (All-++ cs above k (
              All-if (ltb hi 159) (nodes_of (get_elem? bs (hi + 1))) [] (All-nodes bs (hi + 1) h)
                tt))
            (All-if (ltb 0 lo) (nodes_of (get_elem? bs (lo - 1))) [] (All-nodes bs (lo - 1) h) tt)))
        k

  pub All-retain_new : (seen : List ℕ) (ns : List DhtNode) → All P ns → All P (retain_new seen ns)
  unfolding retain_new
  All-retain_new seen [] h = tt
  All-retain_new seen (n ∷ ns) (p, h) =
      All-if (has_id n.id seen) (retain_new seen ns) (n ∷ retain_new (n.id ∷ seen) ns)
        (All-retain_new seen ns h) (p, All-retain_new (n.id ∷ seen) ns h)

  pub All-insert_near :
      (target : ℕ) (n : DhtNode) (ms : List DhtNode)
      → P n
      → All P ms
      → All P (insert_near target n ms)
  unfolding insert_near
  All-insert_near target n [] p h = (p, tt)
  All-insert_near target n (m ∷ ms) p (q, h) =
      All-if (leb (xor_distance n.id target) (xor_distance m.id target)) (n ∷ m ∷ ms)
        (m ∷ insert_near target n ms) (p, (q, h)) (q, All-insert_near target n ms p h)

  pub All-sort_near : (target : ℕ) (ns : List DhtNode) → All P ns → All P (sort_near target ns)
  unfolding sort_near
  All-sort_near target [] h = tt
  All-sort_near target (n ∷ ns) (p, h) =
      All-insert_near target n (sort_near target ns) p (All-sort_near target ns h)

pub All-map :
    (P Q : DhtNode → Type 0) (ns : List DhtNode) → ((n : DhtNode) → P n → Q n) → All P ns → All Q ns
All-map P Q [] f h = tt
All-map P Q (n ∷ ns) f (p, h) = (f n p, All-map P Q ns f h)

pub All-both :
    (P Q : DhtNode → Type 0) (ns : List DhtNode) → All P ns → All Q ns → All (λ n. P n × Q n) ns
All-both P Q [] h k = tt
All-both P Q (n ∷ ns) (p, h) (q, k) = ((p, q), All-both P Q ns h k)
