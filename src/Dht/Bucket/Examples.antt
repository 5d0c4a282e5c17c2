-- ===== src/Dht/Bucket/Examples.antt =====
-- Buckets of kbucket.rs with concrete nodes.
use ai_model_downloader.Base.{
  nat_eq, string_eq, ℕ, zero, suc, ◌≤◌, ◌≡◌, refl, true, false, List, [], ◌∷◌, ◌++◌, arith,
}
use ai_model_downloader.Dht.Bucket.{
  DhtNode, KBucket, is_stale, new, contains, without, update, evict_stale,
}
use ai_model_downloader.Dht.Bucket as Bucket
use ai_model_downloader.Dht.Bucket.Filled.{
  Filled, Call, updates, removes, replaces, evicts, run, run-Filled,
}
use ai_model_downloader.Dht.Bucket.Twice.{count, update_twice}

abbrev node_of : ℕ → DhtNode
node_of i = record { id = i; addr = "192.0.2.1:6881"; last_seen = 5 }

abbrev some_calls : List Call
some_calls =
    updates 6 (node_of 1) ∷ updates 7 (node_of 2) ∷ removes 8 1 ∷ evicts 9 ∷ replaces 10 ∷ []

run-Filled_example : Filled (run (new 0) some_calls)
run-Filled_example = run-Filled 0 some_calls

abbrev down_from : ℕ → List DhtNode
down_from zero = []
down_from (suc i) = node_of (suc i) ∷ down_from i

unknown : contains 77 (down_from 20) ≡ false
unfolding contains
unknown = refl

known : contains 3 (down_from 20) ≡ true
unfolding contains
known = refl

still_known : contains 4 (without 3 (down_from 20) ++ (node_of 77 ∷ [])) ≡ true
unfolding contains without
still_known = refl

update_twice_example :
    2
    ≤ count 77 (
        (Bucket.remove 10 4
          (Bucket.remove 10 3
            (update 10
              (node_of 77)
              (update 10 (node_of 77) (record {
                nodes = down_from 20;
                replacement_cache = [];
                last_activity = 0;
              })).0).0).0).0.nodes)
update_twice_example =
    update_twice 10 0 3 4 (node_of 77) (down_from 20) refl unknown known still_known (omega arith)
