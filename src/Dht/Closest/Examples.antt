-- ===== src/Dht/Closest/Examples.antt =====
-- find_closest of kbucket.rs on a small table.
use ai_model_downloader.Base.{min, ℕ, ◌<◌, ◌≤◌, ◌≡◌, refl, [], ◌∷◌, ◌++◌, arith, All, length}
use ai_model_downloader.Dht.Bucket.{DhtNode, KBucket}
use ai_model_downloader.Dht.Bucket as Bucket
use ai_model_downloader.Dht.Table.{
  RoutingTable, all_nodes, empty_buckets, xor_distance, leading_zeros, zeros_from, byte_zeros,
}
use ai_model_downloader.Dht.Closest.{
  expand, has_id, retain_new, insert_near, sort_near, candidates_of, find_closest,
}
use ai_model_downloader.Dht.Closest.Listed.{Ranked, find_closest-Ranked}
use ai_model_downloader.Dht.Closest.Reached.{candidates_of-All}

abbrev known : ℕ → DhtNode
known i = record { id = i; addr = "192.0.2.1:6881"; last_seen = 7 }

abbrev bucket_of : ℕ → KBucket
bucket_of i = record { nodes = known i ∷ []; replacement_cache = []; last_activity = 0 }

abbrev table : RoutingTable
table = record {
  local_id = 0;
  buckets =
      empty_buckets 0 3
      ++ (bucket_of 8 ∷ bucket_of 16 ∷ (empty_buckets 0 1 ++ (bucket_of 64 ∷ empty_buckets 0 153)));
}

find_closest-Ranked_example :
    (length (find_closest 32 2 table) ≤ 2)
    × Ranked 32 (find_closest 32 2 table)
    × All (λ n. n.last_seen ≡ 7) (find_closest 32 2 table)
    × (length (find_closest 32 2 table) ≡ min 2 (length (retain_new [] (candidates_of 32 2 table))))
unfolding Bucket.new
find_closest-Ranked_example =
    find_closest-Ranked 32 2 table (λ n. n.last_seen ≡ 7) (refl, (refl, (refl, tt)))

-- Two nodes are asked for; the node 8, nearer than the node 64, is not among them.
misses_nearer : find_closest 32 2 table ≡ known 16 ∷ known 64 ∷ []
unfolding find_closest candidates_of expand retain_new has_id sort_near insert_near xor_distance
    leading_zeros zeros_from byte_zeros Bucket.new
misses_nearer = refl

nearer : xor_distance 8 32 < xor_distance 64 32
unfolding xor_distance
nearer = omega arith

candidates_of-All_example : All (λ n. n.last_seen ≡ 7) (all_nodes table.buckets)
unfolding candidates_of expand xor_distance leading_zeros zeros_from byte_zeros Bucket.new
candidates_of-All_example =
    candidates_of-All 32 9 table (λ n. n.last_seen ≡ 7) (omega arith) (omega arith)
      (refl, (refl, (refl, tt)))
