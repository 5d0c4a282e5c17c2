-- ===== src/Dht/Kademlia/Refilled.antt =====
-- kademlia.rs: evict_oldest where nodes wait in the bucket.
use ai_model_downloader.Base.{
  nat_eq, string_eq, ℕ, zero, suc, ◌+◌, ◌≡◌, refl, sym, ap, ◌∙◌, subst, inl, inr, true, false,
  Option, none, some, List, [], ◌∷◌, ◌++◌, arith, ltb, le→leb, Bool-cases, some-eq, length,
  get_elem?, length-append, All,
}
use ai_model_downloader.Dht.Bucket.{DhtNode, KBucket, contains, without, is_full}
use ai_model_downloader.Dht.Bucket as Bucket
use ai_model_downloader.Dht.Bucket.Filled.{length-without}
use ai_model_downloader.Dht.Table.{RoutingTable, modify, total, node_count, first}
use ai_model_downloader.Dht.Kademlia.{
  oldest_from, with_first, earliest, min_of, oldest_info, update_with, evict_in, evict_oldest,
}

first-contains : (ns : List DhtNode) (n : DhtNode) → first ns ≡ some n → contains n.id ns ≡ true
unfolding contains
first-contains [] n h = cc
first-contains (m ∷ ns) n h = ground arith

total-modify :
    (i : ℕ) (f : KBucket → KBucket) (bs : List KBucket) (b : KBucket)
    → get_elem? bs i ≡ some b
    → length (f b).nodes ≡ length b.nodes
    → total (modify i f bs) ≡ total bs
unfolding modify
total-modify i f [] b at h = refl
total-modify zero f (c ∷ bs) b at h =
    let e : c ≡ b = cc in
    omega
      (arith, ap (λ (x : KBucket). length (f x).nodes) e, ap (λ (x : KBucket). length x.nodes) e)
total-modify (suc i) f (c ∷ bs) b at h = omega (arith, total-modify i f bs b at h)

-- An entry of `oldest_from` names the first node of the bucket at its index.
record Names (start : ℕ) (bs : List KBucket) (c : ℕ × DhtNode) : Type 0 where
  place : ℕ
  bucket : KBucket
  index : c.0 ≡ start + place
  found : get_elem? bs place ≡ some bucket
  oldest : first bucket.nodes ≡ some c.1

Names-later :
    (start : ℕ) (b : KBucket) (bs : List KBucket) (c : ℕ × DhtNode)
    → Names (start + 1) bs c
    → Names start (b ∷ bs) c
Names-later start b bs c n = record {
  place = suc n.place;
  bucket = n.bucket;
  index = omega (arith, n.index);
  found = n.found;
  oldest = n.oldest;
}

later :
    (start : ℕ) (b : KBucket) (bs : List KBucket) (cs : List (ℕ × DhtNode))
    → All (Names (start + 1) bs) cs
    → All (Names start (b ∷ bs)) cs
later start b bs [] a = tt
later start b bs (c ∷ cs) (n, a) = (Names-later start b bs c n, later start b bs cs a)

with_first-Names :
    (start : ℕ) (b : KBucket) (bs : List KBucket) (o : Option DhtNode) (cs : List (ℕ × DhtNode))
    → first b.nodes ≡ o
    → All (Names start (b ∷ bs)) cs
    → All (Names start (b ∷ bs)) (with_first start o cs)
with_first-Names start b bs none cs h a = a
with_first-Names start b bs (some n) cs h a =
    (record { place = 0; bucket = b; index = omega arith; found = refl; oldest = h }, a)

oldest_from-Names : (start : ℕ) (bs : List KBucket) → All (Names start bs) (oldest_from start bs)
unfolding oldest_from
oldest_from-Names start [] = tt
oldest_from-Names start (b ∷ bs) =
    with_first-Names start b bs (first b.nodes) (oldest_from (start + 1) bs) refl
      (later start b bs (oldest_from (start + 1) bs) (oldest_from-Names (start + 1) bs))

earliest-All :
    (P : ℕ × DhtNode → Type 0) (best : ℕ × DhtNode) (cs : List (ℕ × DhtNode))
    → P best
    → All P cs
    → P (earliest best cs)
unfolding earliest
earliest-All P best [] p a = p
earliest-All P best (c ∷ cs) p (q, a) = elim (Bool-cases (ltb c.1.last_seen best.1.last_seen)) [
  | inl e ↦ rw e (earliest-All P c cs q a)
  | inr e ↦ rw e (earliest-All P best cs p a)
]

min_of-All :
    (P : ℕ × DhtNode → Type 0) (cs : List (ℕ × DhtNode)) (c : ℕ × DhtNode)
    → All P cs
    → min_of cs ≡ some c
    → P c
min_of-All P [] c a h = cc
min_of-All P (d ∷ ds) c (p, a) h = subst P (some-eq h) (earliest-All P d ds p a)

get-modify :
    (i : ℕ) (f : KBucket → KBucket) (bs : List KBucket) (b : KBucket)
    → get_elem? bs i ≡ some b
    → get_elem? (modify i f bs) i ≡ some (f b)
unfolding modify
get-modify i f [] b at = cc
get-modify zero f (c ∷ bs) b at = ap some (ap f (some-eq at))
get-modify (suc i) f (c ∷ bs) b at = get-modify i f bs b at

-- The nodes of a full bucket do not change where a node that is not among them is seen.
nodes-update :
    (now : ℕ) (x : DhtNode) (b : KBucket)
    → length b.nodes ≡ 20
    → contains x.id b.nodes ≡ false
    → (Bucket.update now x b).0.nodes ≡ b.nodes
unfolding Bucket.update is_full
nodes-update now x b l f = rw (f, le→leb 20 (length b.nodes) (omega arith)) refl

nodes-update_with :
    (now : ℕ) (rest : List DhtNode) (b : KBucket)
    → length b.nodes ≡ 20
    → All (λ x. contains x.id b.nodes ≡ false) rest
    → (update_with now (first rest) b).nodes ≡ b.nodes
nodes-update_with now [] b l a = refl
nodes-update_with now (x ∷ rest) b l (f, a) = nodes-update now x b l f

nodes-evict_in :
    (now : ℕ) (n m : DhtNode) (nodes rest : List DhtNode) (time : ℕ)
    → length nodes ≡ 20
    → contains n.id nodes ≡ true
    → All (λ x. contains x.id (without n.id nodes ++ (m ∷ [])) ≡ false) rest
    → (evict_in now n.id
        (record { nodes = nodes; replacement_cache = m ∷ rest; last_activity = time })).nodes
      ≡ without n.id nodes ++ (m ∷ [])
unfolding evict_in Bucket.remove
nodes-evict_in now n m nodes rest time l c a = rw c (
    nodes-update_with now rest
      (record {
        nodes = without n.id nodes ++ (m ∷ []);
        replacement_cache = rest;
        last_activity = now;
      })
      (omega (arith, length-append (without n.id nodes) (m ∷ []), length-without n.id nodes c)) a)

-- Evicting the oldest node where nodes wait in its bucket puts the newest of these in its place: the bucket
-- keeps its other nodes in their order, the waiting node `m` comes last, and the table has as many nodes
-- as before. The other waiting nodes are not in the bucket.
pub evict_oldest_refilled :
    (now i : ℕ) (n m : DhtNode) (nodes rest : List DhtNode) (time : ℕ) (t : RoutingTable)
    → oldest_info t ≡ some (i, n)
    → get_elem? t.buckets i
      ≡ some (record { nodes = nodes; replacement_cache = m ∷ rest; last_activity = time })
    → length nodes ≡ 20
    → All (λ x. contains x.id (without n.id nodes ++ (m ∷ [])) ≡ false) rest
    → ((b : KBucket) × (get_elem? (evict_oldest now t).buckets i ≡ some b)
        × (b.nodes ≡ without n.id nodes ++ (m ∷ [])))
      × (node_count (evict_oldest now t) ≡ node_count t)
unfolding evict_oldest oldest_info node_count
evict_oldest_refilled now i n m nodes rest time t h at l a = rw h (
  (evict_in now n.id bucket, get-modify i (evict_in now n.id) t.buckets bucket at, in_place),
  total-modify i (evict_in now n.id) t.buckets bucket at (
      omega (
        arith,
        ap length in_place,
        length-append (without n.id nodes) (m ∷ []),
        length-without n.id nodes found,
      )),
)
  where
    bucket : KBucket
    bucket = record { nodes = nodes; replacement_cache = m ∷ rest; last_activity = time }

    found : contains n.id nodes ≡ true
    found =
        let names =
          min_of-All (Names 0 t.buckets) (oldest_from 0 t.buckets) (i, n)
            (oldest_from-Names 0 t.buckets) h in
        let same : i ≡ names.place = omega (arith, names.index) in
        let e : names.bucket ≡ bucket =
          some-eq (sym names.found ∙ ap (get_elem? t.buckets) (sym same) ∙ at) in
        first-contains nodes n (subst (λ (x : KBucket). first x.nodes ≡ some n) e names.oldest)

    in_place : (evict_in now n.id bucket).nodes ≡ without n.id nodes ++ (m ∷ [])
    in_place = nodes-evict_in now n m nodes rest time l found a
