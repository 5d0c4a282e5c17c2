-- ===== src/Dht/Closest.antt =====
-- crates/tachyon-p2sp/src/dht/kbucket.rs: find_closest of RoutingTable. The set of
-- seen ids is a list. Nodes of different ids are at different distances, so that the partial sort and the
-- sort of its part give the first of a whole sort.
mod Everywhere
mod Listed
mod Reached
mod Examples
use ai_model_downloader.Base.{
  ℕ, zero, suc, ◌+◌, ◌-◌, Bool, true, false, ◌&&◌, ◌||◌, Option, none, some, List, [], ◌∷◌, ◌++◌,
  ltb, leb, ◌==◌, if◌then◌else◌, length, get_elem?, take,
}
use ai_model_downloader.Dht.Bucket.{DhtNode, KBucket, is_full, is_stale}
use ai_model_downloader.Dht.Table.{
  RoutingTable, num_buckets, xor_distance, leading_zeros, first, all_nodes,
}

abbrev pub nodes_of : Option KBucket → List DhtNode
nodes_of none = []
nodes_of (some b) = b.nodes

abbrev pub center_of : ℕ → ℕ
center_of lz = if leb 160 lz then 0 else 159 - lz

-- The loop; `lo` and `hi` are the buckets that it has reached.
unfoldable pub expand : ℕ → List KBucket → ℕ → ℕ → ℕ → List DhtNode → List DhtNode
expand zero buckets count lo hi candidates = candidates
expand (suc fuel) buckets count lo hi candidates =
    let above = if ltb hi 159 then nodes_of (get_elem? buckets (hi + 1)) else [] in
    let below = if ltb 0 lo then nodes_of (get_elem? buckets (lo - 1)) else [] in
    let rest =
      expand fuel buckets count (lo - 1) (if ltb hi 159 then hi + 1 else hi)
        ((candidates ++ above) ++ below) in
    if ltb (length candidates) count && (ltb hi 159 || ltb 0 lo) then rest else candidates

unfoldable pub has_id : ℕ → List ℕ → Bool
has_id id [] = false
has_id id (i ∷ is) = i == id || has_id id is

-- `retain(|n| seen.insert(n.id))`.
unfoldable pub retain_new : List ℕ → List DhtNode → List DhtNode
retain_new seen [] = []
retain_new seen (n ∷ ns) =
    let skipped = retain_new seen ns in
    let kept = retain_new (n.id ∷ seen) ns in if has_id n.id seen then skipped else n ∷ kept

unfoldable pub insert_near : ℕ → DhtNode → List DhtNode → List DhtNode
insert_near target n [] = n ∷ []
insert_near target n (m ∷ ms) =
    let rest = insert_near target n ms in
    if leb (xor_distance n.id target) (xor_distance m.id target) then n ∷ m ∷ ms else m ∷ rest

unfoldable pub sort_near : ℕ → List DhtNode → List DhtNode
sort_near target [] = []
sort_near target (n ∷ ns) = insert_near target n (sort_near target ns)

-- The candidates are found in at most 159 rounds.
unfoldable pub candidates_of : ℕ → ℕ → RoutingTable → List DhtNode
candidates_of target count t =
    let center = center_of (leading_zeros (xor_distance t.local_id target)) in
    expand num_buckets t.buckets count center center (nodes_of (get_elem? t.buckets center))

unfoldable pub find_closest : ℕ → ℕ → RoutingTable → List DhtNode
find_closest target count t =
    take count (sort_near target (retain_new [] (candidates_of target count t)))
