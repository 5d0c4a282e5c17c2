-- ===== src/Dht/Kademlia/Examples.antt =====
-- Tables of kademlia.rs with concrete nodes.
use ai_model_downloader.Base.{
  nat_eq, string_eq, ℕ, zero, suc, ◌+◌, ◌^◌, ◌≤◌, ◌<◌, ◌≡◌, refl, ◌↔◌, Option, none, some, List, [],
  ◌∷◌, ◌++◌, get_elem?, arith, Texts,
}
use ai_model_downloader.Core.UrlSafety.{IpAddr}
use ai_model_downloader.Dht.Bucket.{DhtNode, KBucket, without}
use ai_model_downloader.Dht.Table.{
  RoutingTable, node_count, index_of, xor_distance, leading_zeros, zeros_from, byte_zeros,
}
use ai_model_downloader.Dht.Table.Placed.{index_of_iff}
use ai_model_downloader.Dht.Kademlia.{oldest_info, oldest_from, earliest, evict_oldest}
use ai_model_downloader.Dht.Kademlia as Kademlia
use ai_model_downloader.Dht.Kademlia.Kept.{IsTable, Call, run, run-IsTable}
use ai_model_downloader.Dht.Kademlia.Refilled.{evict_oldest_refilled}

abbrev node_of : ℕ → DhtNode
node_of i = record { id = i; addr = "192.0.2.1:6881"; last_seen = i }

index_of_iff_example :
    (index_of 5 12 ≡ some 3) ↔ ((2 ^ 3 ≤ xor_distance 5 12) × (xor_distance 5 12 < 2 ^ 4))
unfolding xor_distance
index_of_iff_example = index_of_iff 5 12 (omega arith) 3

index_five : index_of 5 12 ≡ some 3
unfolding index_of leading_zeros zeros_from byte_zeros xor_distance
index_five = refl

abbrev unparsed : Texts → Option IpAddr
unparsed t = none

run-IsTable_example :
    IsTable
      (run unparsed (Kademlia.new 0 5 2) (
        Call.adds 1 (node_of 12)
        ∷ Call.hears 2 12
        ∷ Call.adds 3 (node_of 9)
        ∷ Call.cleans 4
        ∷ Call.adds 5 (node_of 6)
        ∷ [])).routing_table
run-IsTable_example = run-IsTable unparsed 0 5 2 (
    Call.adds 1 (node_of 12)
    ∷ Call.hears 2 12
    ∷ Call.adds 3 (node_of 9)
    ∷ Call.cleans 4
    ∷ Call.adds 5 (node_of 6)
    ∷ [])

abbrev twenty : ℕ → List DhtNode
twenty zero = []
twenty (suc i) = node_of (64 + i) ∷ twenty i

abbrev crowded_bucket : KBucket
crowded_bucket = record {
  nodes = twenty 20;
  replacement_cache = node_of 99 ∷ [];
  last_activity = 0;
}

abbrev crowded_table : RoutingTable
crowded_table = record { local_id = 0; buckets = crowded_bucket ∷ [] }

oldest_is_83 : oldest_info crowded_table ≡ some (0, node_of 83)
unfolding oldest_info oldest_from earliest
oldest_is_83 = refl

evict_oldest_refilled_example :
    ((b : KBucket) × (get_elem? (evict_oldest 100 crowded_table).buckets 0 ≡ some b)
      × (b.nodes ≡ without 83 (twenty 20) ++ (node_of 99 ∷ [])))
    × (node_count (evict_oldest 100 crowded_table) ≡ node_count crowded_table)
evict_oldest_refilled_example =
    evict_oldest_refilled 100 0 (node_of 83) (node_of 99) (twenty 20) [] 0 crowded_table
      oldest_is_83 refl refl tt
