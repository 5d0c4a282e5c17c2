-- ===== src/Dht/Kademlia.antt =====
-- crates/tachyon-p2sp/src/dht/kademlia.rs: the admission of nodes by KademliaDht. A call reads the clock
-- once. A message is given by the id of its sender, which is all that handle_message reads.
mod Kept
mod Refilled
mod Examples
use ai_model_downloader.Base.{
  lookup, insert, remove, Eq, nat_eq, string_eq, lookup-insert, lookup-remove, ℕ, zero, suc, ◌+◌,
  ◌-◌, ◌*◌, ◌/◌, ◌%◌, ◌^◌, ◌≤◌, ◌<◌, min, max, ◌≡◌, refl, sym, ap, ◌∙◌, subst, ◌≢◌, ◌↔◌, ◌⊎◌, inl,
  inr, Bool, true, false, not, ◌&&◌, ◌||◌, Option, none, some, List, [], ◌∷◌, ◌++◌, map, arith,
  dec_lt, ℕ_discrete, ltb, leb, ◌==◌, if◌then◌else◌, ltb→lt, lt→ltb, leb→le, le→leb, ==_iff, lt→leb,
  ne→==, Bool-cases, Option-cases, u8, u32, u64, u64_max, checked_add, length, get_elem?, set, take,
  drop, length-append, length-drop, length-set, All, Texts, codes, is_empty, is_some, same_text,
  to_lower, trim_start, trim_onto, trim_end, extend, before_last,
}
use ai_model_downloader.Core.UrlSafety.{IpAddr}
use ai_model_downloader.Dht.Bucket.{DhtNode, KBucket, contains}
use ai_model_downloader.Dht.Bucket as Bucket
use ai_model_downloader.Dht.Table.{
  RoutingTable, SubnetKey, bucket_index, bucket_at, on_bucket, modify, update, cleanup_stale,
  node_count, first, extract_subnet_key, count_nodes_in_subnet,
}
use ai_model_downloader.Dht.Table as Table

pub record KademliaDht : Type 0 where
  pub routing_table : RoutingTable
  pub max_nodes : ℕ

unfoldable pub new : ℕ → ℕ → ℕ → KademliaDht
new now local_id max_nodes = record {
  routing_table = Table.new now local_id;
  max_nodes = max_nodes;
}

abbrev pub max_nodes_per_subnet : ℕ
max_nodes_per_subnet = 2

abbrev pub holds : ℕ → Option KBucket → Bool
holds id none = false
holds id (some b) = contains id b.nodes

unfoldable pub knows : ℕ → RoutingTable → Bool
knows id t = holds id (bucket_at (bucket_index t id) t)

abbrev pub with_first : ℕ → Option DhtNode → List (ℕ × DhtNode) → List (ℕ × DhtNode)
with_first i none rest = rest
with_first i (some n) rest = (i, n) ∷ rest

-- The oldest node of each bucket that has one, with the bucket's index.
unfoldable pub oldest_from : ℕ → List KBucket → List (ℕ × DhtNode)
oldest_from i [] = []
oldest_from i (b ∷ bs) = with_first i (first b.nodes) (oldest_from (i + 1) bs)

-- `min_by_key`, the first of equal ones.
unfoldable pub earliest : ℕ × DhtNode → List (ℕ × DhtNode) → ℕ × DhtNode
earliest best [] = best
earliest best (c ∷ cs) = earliest (if ltb c.1.last_seen best.1.last_seen then c else best) cs

abbrev pub min_of : List (ℕ × DhtNode) → Option (ℕ × DhtNode)
min_of [] = none
min_of (c ∷ cs) = some (earliest c cs)

unfoldable pub oldest_info : RoutingTable → Option (ℕ × DhtNode)
oldest_info t = min_of (oldest_from 0 t.buckets)

abbrev pub update_with : ℕ → Option DhtNode → KBucket → KBucket
update_with now none b = b
update_with now (some n) b = (Bucket.update now n b).0

-- What happens to the bucket of the oldest node.
unfoldable pub evict_in : ℕ → ℕ → KBucket → KBucket
evict_in now id b =
    let left = (Bucket.remove now id b).0 in update_with now (first left.replacement_cache) left

abbrev pub evict_at : ℕ → Option (ℕ × DhtNode) → RoutingTable → RoutingTable
evict_at now none t = t
evict_at now (some (i, n)) t = on_bucket (some i) (evict_in now n.id) t

unfoldable pub evict_oldest : ℕ → RoutingTable → RoutingTable
evict_oldest now t = evict_at now (oldest_info t) t

abbrev pub evict_full : ℕ → ℕ → RoutingTable → RoutingTable
evict_full now max_nodes t = if leb max_nodes (node_count t) then evict_oldest now t else t

unfoldable pub make_room : ℕ → ℕ → RoutingTable → RoutingTable
make_room now max_nodes t =
    if ltb 0 max_nodes && leb max_nodes (node_count t)
    then evict_full now max_nodes (cleanup_stale now t)
    else t

-- The std parser of IP addresses.
module _ (parse_ip : Texts → Option IpAddr) where
  abbrev pub crowded : Option SubnetKey → RoutingTable → Bool
  crowded none t = false
  crowded (some key) t = leb max_nodes_per_subnet (count_nodes_in_subnet parse_ip key t)

  unfoldable pub add_to : ℕ → ℕ → DhtNode → RoutingTable → RoutingTable
  add_to now max_nodes node t =
      if knows node.id t
      then (update now node t).0
      else if crowded (extract_subnet_key parse_ip node.addr) t
      then t
      else (update now node (make_room now max_nodes t)).0

  unfoldable pub add_node : ℕ → DhtNode → KademliaDht → KademliaDht
  add_node now node d = record d { routing_table = add_to now d.max_nodes node d.routing_table }

-- `position`, and the node there.
unfoldable pub find_id : ℕ → List DhtNode → Option DhtNode
find_id id [] = none
find_id id (n ∷ ns) = let rest = find_id id ns in if n.id == id then some n else rest

abbrev pub touched : ℕ → Option DhtNode → Option DhtNode
touched now none = none
touched now (some n) = some (record n { last_seen = now })

unfoldable pub refresh_in : ℕ → ℕ → KBucket → KBucket
refresh_in now id b = update_with now (touched now (find_id id b.nodes)) b

unfoldable pub handle_message : ℕ → ℕ → KademliaDht → KademliaDht
handle_message now sender_id d = record d {
  routing_table =
      on_bucket (bucket_index d.routing_table sender_id) (refresh_in now sender_id) d.routing_table;
}
