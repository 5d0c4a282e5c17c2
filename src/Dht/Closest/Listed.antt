-- ===== src/Dht/Closest/Listed.antt =====
-- kbucket.rs: what find_closest lists.
use ai_model_downloader.Base.{
  ap, min, ◌∙◌, nat_eq, ℕ, zero, suc, ◌≤◌, ◌≡◌, refl, sym, ◌≢◌, Bool, true, false, List, [], ◌∷◌,
  arith, leb, if◌then◌else◌, leb→le, ==_iff, length, get_elem?, take, All,
}
use ai_model_downloader.Dht.Bucket.{DhtNode}
use ai_model_downloader.Dht.Table.{
  RoutingTable, xor_distance, all_nodes, leading_zeros, num_buckets,
}
use ai_model_downloader.Dht.Closest.{
  nodes_of, center_of, expand, has_id, retain_new, insert_near, sort_near, candidates_of,
  find_closest,
}
use ai_model_downloader.Dht.Closest.Everywhere.{
  All-both, All-expand, All-if_when, All-insert_near, All-map, All-nodes, All-retain_new,
  All-sort_near, All-take,
}

-- Ascending in distance, with different ids.
abbrev pub Ranked : ℕ → List DhtNode → Type 0
Ranked target [] = Unit
Ranked target (n ∷ ns) =
    All (λ m. (xor_distance n.id target ≤ xor_distance m.id target) × (n.id ≢ m.id)) ns
    × Ranked target ns

abbrev Distinct : List DhtNode → Type 0
Distinct [] = Unit
Distinct (n ∷ ns) = All (λ m. n.id ≢ m.id) ns × Distinct ns

retain_new-Apart :
    (i : ℕ) (seen : List ℕ) (ns : List DhtNode)
    → has_id i seen ≡ true
    → All (λ m. i ≢ m.id) (retain_new seen ns)
unfolding retain_new has_id
retain_new-Apart i seen [] h = tt
retain_new-Apart i seen (n ∷ ns) h =
    All-if_when (λ m. i ≢ m.id) (has_id n.id seen) (retain_new seen ns)
      (n ∷ retain_new (n.id ∷ seen) ns) (λ e. retain_new-Apart i seen ns h)
      (λ e. (
        λ q. let same = ap (λ j. has_id j seen) q in cc,
        retain_new-Apart i (n.id ∷ seen) ns (ground (arith, h)),
      ))

Distinct-if_when :
    (b : Bool) (xs ys : List DhtNode) → Distinct xs → Distinct ys → Distinct (if b then xs else ys)
Distinct-if_when true xs ys h k = h
Distinct-if_when false xs ys h k = k

retain_new-Distinct : (seen : List ℕ) (ns : List DhtNode) → Distinct (retain_new seen ns)
unfolding retain_new has_id
retain_new-Distinct seen [] = tt
retain_new-Distinct seen (n ∷ ns) =
    Distinct-if_when (has_id n.id seen) (retain_new seen ns) (n ∷ retain_new (n.id ∷ seen) ns)
      (retain_new-Distinct seen ns)
      (
        retain_new-Apart n.id (n.id ∷ seen) ns (ground (arith, ==_iff n.id n.id)),
        retain_new-Distinct (n.id ∷ seen) ns,
      )

module _ (target : ℕ) where
  abbrev Ahead : DhtNode → DhtNode → Type 0
  Ahead n m = (xor_distance n.id target ≤ xor_distance m.id target) × (n.id ≢ m.id)

  Ranked-if_when :
      (b : Bool) (xs ys : List DhtNode)
      → (b ≡ true → Ranked target xs)
      → (b ≡ false → Ranked target ys)
      → Ranked target (if b then xs else ys)
  Ranked-if_when true xs ys h k = h refl
  Ranked-if_when false xs ys h k = k refl

  nearer_all :
      (n m : DhtNode) (ms : List DhtNode)
      → xor_distance n.id target ≤ xor_distance m.id target
      → All (λ x. n.id ≢ x.id) ms
      → All (Ahead m) ms
      → All (Ahead n) ms
  nearer_all n m ms near h k =
      All-map (λ x. (n.id ≢ x.id) × Ahead m x) (Ahead n) ms
        (λ x p.
          let far : xor_distance m.id target ≤ xor_distance x.id target = p.1.0 in
          (ground (arith, near, far), p.0))
        (All-both (λ x. n.id ≢ x.id) (Ahead m) ms h k)

  insert_near-Ranked :
      (n : DhtNode) (ms : List DhtNode)
      → All (λ x. n.id ≢ x.id) ms
      → Ranked target ms
      → Ranked target (insert_near target n ms)
  unfolding insert_near
  insert_near-Ranked n [] h k = (tt, tt)
  insert_near-Ranked n (m ∷ ms) (apart, h) (r, k) =
      let dn = xor_distance n.id target in
      let dm = xor_distance m.id target in
      Ranked-if_when (leb dn dm) (n ∷ m ∷ ms) (m ∷ insert_near target n ms)
        (λ e.
          let near : dn ≤ dm = leb→le dn dm e in
          (((near, apart), nearer_all n m ms near h r), (r, k)))
        (λ e.
          let near : dm ≤ dn = ground arith in
          (
            All-insert_near (Ahead m) target n ms (near, λ q. apart (sym q)) r,
            insert_near-Ranked n ms h k,
          ))

  sort_near-Ranked : (ns : List DhtNode) → Distinct ns → Ranked target (sort_near target ns)
  unfolding sort_near
  sort_near-Ranked [] h = tt
  sort_near-Ranked (n ∷ ns) (apart, h) =
      insert_near-Ranked n (sort_near target ns) (All-sort_near (λ x. n.id ≢ x.id) target ns apart)
        (sort_near-Ranked ns h)

  take-Ranked : (k : ℕ) (ns : List DhtNode) → Ranked target ns → Ranked target (take k ns)
  take-Ranked zero ns h = tt
  take-Ranked (suc k) [] h = tt
  take-Ranked (suc k) (n ∷ ns) (p, h) = (All-take (Ahead n) k ns p, take-Ranked k ns h)

length-take_le : (k : ℕ) (ns : List DhtNode) → length (take k ns) ≤ k
length-take_le zero ns = omega arith
length-take_le (suc k) [] = omega arith
length-take_le (suc k) (n ∷ ns) = omega (arith, length-take_le k ns)

length-take : (k : ℕ) (ns : List DhtNode) → length (take k ns) ≡ min k (length ns)
length-take zero ns = omega arith
length-take (suc k) [] = omega arith
length-take (suc k) (n ∷ ns) = ground (arith, length-take k ns)

length-if :
    (b : Bool) (xs ys : List DhtNode) (k : ℕ)
    → length xs ≡ k
    → length ys ≡ k
    → length (if b then xs else ys) ≡ k
length-if true xs ys k h g = h
length-if false xs ys k h g = g

length-insert_near :
    (target : ℕ) (n : DhtNode) (ms : List DhtNode)
    → length (insert_near target n ms) ≡ suc (length ms)
unfolding insert_near
length-insert_near target n [] = refl
length-insert_near target n (m ∷ ms) =
    length-if (leb (xor_distance n.id target) (xor_distance m.id target)) (n ∷ m ∷ ms)
      (m ∷ insert_near target n ms) (suc (suc (length ms))) refl
      (omega (arith, length-insert_near target n ms))

length-sort_near : (target : ℕ) (ns : List DhtNode) → length (sort_near target ns) ≡ length ns
unfolding sort_near
length-sort_near target [] = refl
length-sort_near target (n ∷ ns) =
    length-insert_near target n (sort_near target ns) ∙ ap suc (length-sort_near target ns)

-- Whatever is asked of a routing table, the answer has at most as many nodes as are asked for, nearest
-- first and each id once, and what holds of every node of the table holds of them; it has fewer only
-- where the search has found no more ids.
pub find_closest-Ranked :
    (target count : ℕ) (t : RoutingTable) (P : DhtNode → Type 0)
    → All P (all_nodes t.buckets)
    → (length (find_closest target count t) ≤ count)
      × Ranked target (find_closest target count t)
      × All P (find_closest target count t)
      × (length (find_closest target count t)
          ≡ min count (length (retain_new [] (candidates_of target count t))))
unfolding find_closest candidates_of
find_closest-Ranked target count t P h =
    let center = center_of (leading_zeros (xor_distance t.local_id target)) in
    let start = nodes_of (get_elem? t.buckets center) in
    let found = expand num_buckets t.buckets count center center start in
    let new = retain_new [] found in
    let sorted = sort_near target new in
    (
      length-take_le count sorted,
      take-Ranked target count sorted (sort_near-Ranked target new (retain_new-Distinct [] found)),
      All-take P count sorted (
          All-sort_near P target new (
            All-retain_new P [] found (
              All-expand P num_buckets t.buckets count center center start h
                (All-nodes P t.buckets center h)))),
      length-take count sorted ∙ ap (min count) (length-sort_near target new),
    )
