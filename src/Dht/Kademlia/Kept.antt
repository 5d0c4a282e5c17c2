-- ===== src/Dht/Kademlia/Kept.antt =====
-- kademlia.rs and kbucket.rs: the routing table along the calls of a node.
use ai_model_downloader.Base.{
  nat_eq, string_eq, ℕ, zero, suc, ◌+◌, ◌≡◌, refl, sym, ap, ◌∙◌, subst, inl, inr, ◌&&◌, Option,
  none, some, List, [], ◌∷◌, map, arith, ltb, leb, ◌==◌, Bool-cases, length, Texts,
}
use ai_model_downloader.Core.UrlSafety.{IpAddr}
use ai_model_downloader.Dht.Bucket.{DhtNode, KBucket, evict_stale}
use ai_model_downloader.Dht.Bucket as Bucket
use ai_model_downloader.Dht.Bucket.Filled.{Filled, update-Filled, remove-Filled, evict_stale-Filled}
use ai_model_downloader.Dht.Bucket.Holds.{Holds, Has, update-Holds, remove-Holds, evict_stale-Holds}
use ai_model_downloader.Dht.Table.{
  RoutingTable, bucket_index, index_of, bucket_at, on_bucket, modify, update, cleanup_stale,
  node_count, first, extract_subnet_key, empty_buckets, num_buckets,
}
use ai_model_downloader.Dht.Table as Table
use ai_model_downloader.Dht.Kademlia.{
  KademliaDht, knows, crowded, oldest_info, update_with, evict_in, evict_at, evict_oldest,
  evict_full, make_room, add_to, add_node, find_id, touched, refresh_in, handle_message,
}
use ai_model_downloader.Dht.Kademlia as Kademlia

-- Bucket i keeps its bounds, and its nodes and the nodes that wait belong to it.
pub record Good (local i : ℕ) (b : KBucket) : Type 0 where
  pub filled : Filled b
  pub held : Holds (λ id. index_of local id ≡ some i) b

abbrev pub Each : ℕ → ℕ → List KBucket → Type 0
Each local i [] = Unit {0}
Each local i (b ∷ bs) = Good local i b × Each local (suc i) bs

modify-Each :
    (local start k : ℕ) (f : KBucket → KBucket) (bs : List KBucket)
    → ((b : KBucket) → Good local (start + k) b → Good local (start + k) (f b))
    → Each local start bs
    → Each local start (modify k f bs)
unfolding modify
modify-Each local start k f [] keep e = tt
modify-Each local start zero f (b ∷ bs) keep (g, e) =
    let at : start + 0 ≡ start = omega arith in
    (subst (λ i. Good local i (f b)) at (keep b (subst (λ i. Good local i b) (sym at) g)), e)
modify-Each local start (suc k) f (b ∷ bs) keep (g, e) =
    let at : start + suc k ≡ suc start + k = omega arith in
    (
      g,
      modify-Each local (suc start) k f bs
          (subst (λ i. (b' : KBucket) → Good local i b' → Good local i (f b')) at keep) e,
    )

map-Each :
    (local start now : ℕ) (bs : List KBucket)
    → Each local start bs
    → Each local start (map (evict_stale now) bs)
map-Each local start now [] e = tt
map-Each local start now (b ∷ bs) (g, e) = (
  record {
    filled = evict_stale-Filled now b g.filled;
    held = evict_stale-Holds (λ id. index_of local id ≡ some start) now b g.held;
  },
  map-Each local (suc start) now bs e,
)

length-modify :
    (k : ℕ) (f : KBucket → KBucket) (bs : List KBucket) → length (modify k f bs) ≡ length bs
unfolding modify
length-modify k f [] = refl
length-modify zero f (b ∷ bs) = refl
length-modify (suc k) f (b ∷ bs) = ap suc (length-modify k f bs)

length-map : (f : KBucket → KBucket) (bs : List KBucket) → length (map f bs) ≡ length bs
length-map f [] = refl
length-map f (b ∷ bs) = ap suc (length-map f bs)

-- A table of 160 buckets, each within its bounds and with nodes of its own.
pub record IsTable (t : RoutingTable) : Type 0 where
  pub count : length t.buckets ≡ 160
  pub each : Each t.local_id 0 t.buckets

on_bucket-IsTable :
    (o : Option ℕ) (f : KBucket → KBucket) (t : RoutingTable)
    → ((i : ℕ) (b : KBucket) → o ≡ some i → Good t.local_id i b → Good t.local_id i (f b))
    → IsTable t
    → IsTable (on_bucket o f t)
on_bucket-IsTable none f t keep v = v
on_bucket-IsTable (some k) f t keep v = record {
  count = length-modify k f t.buckets ∙ v.count;
  each = modify-Each t.local_id 0 k f t.buckets (λ b. keep (0 + k) b (ap some shifted)) v.each;
}
  where
    shifted : k ≡ 0 + k
    shifted = omega arith

update-Good :
    (local now i : ℕ) (node : DhtNode) (b : KBucket)
    → index_of local node.id ≡ some i
    → Good local i b
    → Good local i (Bucket.update now node b).0
update-Good local now i node b at g = record {
  filled = update-Filled now node b g.filled;
  held = update-Holds (λ id. index_of local id ≡ some i) now node b at g.held;
}

remove-Good :
    (local now i id : ℕ) (b : KBucket) → Good local i b → Good local i (Bucket.remove now id b).0
remove-Good local now i id b g = record {
  filled = remove-Filled now id b g.filled;
  held = remove-Holds (λ other. index_of local other ≡ some i) now id b g.held;
}

-- Of a node that is in the list.
first-Has :
    (P : ℕ → Type 0) (ns : List DhtNode) (n : DhtNode) → Has P ns → first ns ≡ some n → P n.id
first-Has P [] n a h = cc
first-Has P (m ∷ ns) n (p, a) h = subst (λ o. P (id_of o)) h p
  where
    id_of : Option DhtNode → ℕ
    id_of (some x) = x.id
    id_of none = m.id

find_id-Has :
    (P : ℕ → Type 0) (id : ℕ) (ns : List DhtNode) (n : DhtNode)
    → Has P ns
    → find_id id ns ≡ some n
    → P n.id
unfolding find_id
find_id-Has P id [] n a h = cc
find_id-Has P id (m ∷ ns) n (p, a) h = elim (Bool-cases (m.id == id)) [
  | inl e ↦ first-Has P (m ∷ ns) n (p, a) (rw e at h)
  | inr e ↦ find_id-Has P id ns n a (rw e at h)
]

update_with-Good :
    (local now i : ℕ) (o : Option DhtNode) (b : KBucket)
    → ((n : DhtNode) → o ≡ some n → index_of local n.id ≡ some i)
    → Good local i b
    → Good local i (update_with now o b)
update_with-Good local now i none b at g = g
update_with-Good local now i (some n) b at g = update-Good local now i n b (at n refl) g

evict_in-Good :
    (local now i id : ℕ) (b : KBucket) → Good local i b → Good local i (evict_in now id b)
unfolding evict_in
evict_in-Good local now i id b g =
    let left = (Bucket.remove now id b).0 in
    let g' = remove-Good local now i id b g in
    update_with-Good local now i (first left.replacement_cache) left
      (λ n.
        first-Has (λ other. index_of local other ≡ some i) left.replacement_cache n g'.held.waiting)
      g'

touched-Has :
    (P : ℕ → Type 0) (now : ℕ) (o : Option DhtNode) (n : DhtNode)
    → ((m : DhtNode) → o ≡ some m → P m.id)
    → touched now o ≡ some n
    → P n.id
touched-Has P now none n p h = cc
touched-Has P now (some m) n p h =
    first-Has P (record m { last_seen = now } ∷ []) n (p m refl, tt) h

refresh_in-Good :
    (local now i id : ℕ) (b : KBucket) → Good local i b → Good local i (refresh_in now id b)
unfolding refresh_in
refresh_in-Good local now i id b g =
    update_with-Good local now i (touched now (find_id id b.nodes)) b
      (λ n.
        touched-Has (λ other. index_of local other ≡ some i) now (find_id id b.nodes) n
          (λ m. find_id-Has (λ other. index_of local other ≡ some i) id b.nodes m g.held.nodes))
      g

update-IsTable :
    (now : ℕ) (node : DhtNode) (t : RoutingTable) → IsTable t → IsTable (update now node t).0
unfolding update bucket_index
update-IsTable now node t v =
    on_bucket-IsTable (index_of t.local_id node.id) (λ b. (Bucket.update now node b).0) t
      (λ i b at g. update-Good t.local_id now i node b at g) v

cleanup_stale-IsTable : (now : ℕ) (t : RoutingTable) → IsTable t → IsTable (cleanup_stale now t)
unfolding cleanup_stale
cleanup_stale-IsTable now t v = record {
  count = length-map (evict_stale now) t.buckets ∙ v.count;
  each = map-Each t.local_id 0 now t.buckets v.each;
}

evict_at-IsTable :
    (now : ℕ) (o : Option (ℕ × DhtNode)) (t : RoutingTable) → IsTable t → IsTable (evict_at now o t)
evict_at-IsTable now none t v = v
evict_at-IsTable now (some (k, n)) t v =
    on_bucket-IsTable (some k) (evict_in now n.id) t
      (λ i b at g. evict_in-Good t.local_id now i n.id b g) v

make_room-IsTable :
    (now max_nodes : ℕ) (t : RoutingTable) → IsTable t → IsTable (make_room now max_nodes t)
unfolding make_room evict_oldest
make_room-IsTable now most t v =
    let v' = cleanup_stale-IsTable now t v in
    elim (Bool-cases (ltb 0 most && leb most (node_count t))) [
      | inl e ↦ rw e (elim (Bool-cases (leb most (node_count (cleanup_stale now t)))) [
        | inl f ↦
            rw f (evict_at-IsTable now (oldest_info (cleanup_stale now t)) (cleanup_stale now t) v')
        | inr f ↦ rw f v'
      ])
      | inr e ↦ rw e v
    ]

-- The calls of a node's methods, with their times.
pub data Call : Type 0 where
  adds : ℕ → DhtNode → Call
  hears : ℕ → ℕ → Call
  cleans : ℕ → Call

module _ (parse_ip : Texts → Option IpAddr) where
  unfoldable pub step : KademliaDht → Call → KademliaDht
  step d (adds now node) = add_node parse_ip now node d
  step d (hears now sender) = handle_message now sender d
  step d (cleans now) = record d { routing_table = cleanup_stale now d.routing_table }

  unfoldable pub run : KademliaDht → List Call → KademliaDht
  run d [] = d
  run d (c ∷ cs) = run (step d c) cs

  add_to-IsTable :
      (now max_nodes : ℕ) (node : DhtNode) (t : RoutingTable)
      → IsTable t
      → IsTable (add_to parse_ip now max_nodes node t)
  unfolding add_to
  add_to-IsTable now most node t v = elim (Bool-cases (knows node.id t)) [
    | inl e ↦ rw e (update-IsTable now node t v)
    | inr e ↦ rw e (elim (Bool-cases (crowded parse_ip (extract_subnet_key parse_ip node.addr) t)) [
      | inl f ↦ rw f v
      | inr f ↦
          rw f (update-IsTable now node (make_room now most t) (make_room-IsTable now most t v))
    ])
  ]

  step-IsTable :
      (d : KademliaDht) (c : Call) → IsTable d.routing_table → IsTable (step d c).routing_table
  unfolding step add_node handle_message bucket_index
  step-IsTable d (adds now node) v = add_to-IsTable now d.max_nodes node d.routing_table v
  step-IsTable d (hears now sender) v =
      on_bucket-IsTable (index_of d.routing_table.local_id sender) (refresh_in now sender)
        d.routing_table (λ i b at g. refresh_in-Good d.routing_table.local_id now i sender b g) v
  step-IsTable d (cleans now) v = cleanup_stale-IsTable now d.routing_table v

  run_kept :
      (d : KademliaDht) (cs : List Call)
      → IsTable d.routing_table
      → IsTable (run d cs).routing_table
  unfolding run
  run_kept d [] v = v
  run_kept d (c ∷ cs) v = run_kept (step d c) cs (step-IsTable d c v)

new-Good : (local i now : ℕ) → Good local i (Bucket.new now)
unfolding Bucket.new
new-Good local i now = record {
  filled = record {
    nodes_bound = omega arith;
    cache_bound = omega arith;
    waiting = λ z. absurd (omega arith);
  };
  held = record { nodes = tt; waiting = tt };
}

empty-Each : (local start now n : ℕ) → Each local start (empty_buckets now n)
empty-Each local start now zero = tt
empty-Each local start now (suc n) = (new-Good local start now, empty-Each local (suc start) now n)

length-empty : (now n : ℕ) → length (empty_buckets now n) ≡ n
length-empty now zero = refl
length-empty now (suc n) = ap suc (length-empty now n)

-- After any calls on a new node its routing table has 160 buckets, each with at most 20 nodes and at
-- most 20 waiting ones, nodes wait only at full buckets, and every node, waiting or not, is in the
-- bucket of its distance from the local id.
pub run-IsTable :
    (parse_ip : Texts → Option IpAddr) (now local_id max_nodes : ℕ) (cs : List Call)
    → IsTable (run parse_ip (Kademlia.new now local_id max_nodes) cs).routing_table
unfolding Kademlia.new Table.new
run-IsTable parse_ip now local most cs =
    run_kept parse_ip (Kademlia.new now local most) cs
      (record { count = length-empty now 160; each = empty-Each local 0 now 160 })
