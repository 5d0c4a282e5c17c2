-- ===== src/Dht/Closest/Reached.antt =====
-- kbucket.rs: how far find_closest looks.
use ai_model_downloader.Base.{
  nat_eq, ℕ, zero, suc, ◌+◌, ◌-◌, ◌≤◌, ◌<◌, ◌≡◌, refl, subst, Bool, true, false, ◌&&◌, ◌||◌, List,
  [], ◌∷◌, ◌++◌, arith, ltb, dec_lt, if◌then◌else◌, length, get_elem?, All,
}
use ai_model_downloader.Dht.Bucket.{DhtNode, KBucket}
use ai_model_downloader.Dht.Table.{
  RoutingTable, xor_distance, all_nodes, leading_zeros, num_buckets,
}
use ai_model_downloader.Dht.Closest.{nodes_of, center_of, expand, candidates_of}
use ai_model_downloader.Dht.Closest.Everywhere.{All-split, All-++}

module _ (P : DhtNode → Type 0) (bs : List KBucket) where
  -- The buckets from `lo` to `hi`.
  abbrev Between : ℕ → ℕ → Type 0
  Between lo hi = (i : ℕ) → lo ≤ i → i ≤ hi → All P (nodes_of (get_elem? bs i))

  above_one :
      (hi : ℕ) (b : Bool)
      → ltb hi 159 ≡ b
      → All P (if b then nodes_of (get_elem? bs (hi + 1)) else [])
      → (i : ℕ) → hi < i
      → i ≤ (if b then hi + 1 else hi)
      → All P (nodes_of (get_elem? bs i))
  above_one hi true e h i p q =
      let same : hi + 1 ≡ i = omega arith in subst (λ j. All P (nodes_of (get_elem? bs j))) same h
  above_one hi false e h i p q = absurd (omega arith)

  below_one :
      (lo : ℕ) (b : Bool)
      → ltb 0 lo ≡ b
      → All P (if b then nodes_of (get_elem? bs (lo - 1)) else [])
      → (i : ℕ) → i < lo
      → lo - 1 ≤ i
      → All P (nodes_of (get_elem? bs i))
  below_one lo true e h i p q =
      let same : lo - 1 ≡ i = omega arith in subst (λ j. All P (nodes_of (get_elem? bs j))) same h
  below_one lo false e h i p q = absurd (ground arith)

  widen :
      (lo hi : ℕ)
      → Between lo hi
      → All P (if ltb hi 159 then nodes_of (get_elem? bs (hi + 1)) else [])
      → All P (if ltb 0 lo then nodes_of (get_elem? bs (lo - 1)) else [])
      → Between (lo - 1) (if ltb hi 159 then hi + 1 else hi)
  widen lo hi known up down i p q = elim (dec_lt hi i) [
    | yes far ↦ above_one hi (ltb hi 159) refl up i far q
    | no near ↦ elim (dec_lt i lo) [
      | yes low ↦ below_one lo (ltb 0 lo) refl down i low p
      | no inside ↦ known i (omega arith) (omega arith)
    ]
  ]

  stop_or :
      (b : Bool) (rest cs : List DhtNode) (count lo hi : ℕ)
      → (ltb (length cs) count && (ltb hi 159 || ltb 0 lo)) ≡ b
      → (length rest < count → All P rest → Between 0 159)
      → (All P cs → Between lo hi)
      → length (if b then rest else cs) < count
      → All P (if b then rest else cs)
      → Between 0 159
  stop_or true rest cs count lo hi e go known few h i p q = go few h i p q
  stop_or false rest cs count lo hi e go known few h i p q =
      let low : lo ≤ i = ground (arith, few, p) in
      let high : i ≤ hi = ground (arith, few, q) in known h i low high

  expand_all :
      (fuel count lo hi : ℕ) (cs : List DhtNode)
      → 159 ≤ fuel + hi
      → lo ≤ fuel
      → (All P cs → Between lo hi)
      → length (expand fuel bs count lo hi cs) < count
      → All P (expand fuel bs count lo hi cs)
      → Between 0 159
  unfolding expand
  expand_all zero count lo hi cs far low known few h i p q = known h i (omega arith) (omega arith)
  expand_all (suc fuel) count lo hi cs far low known few h i p q =
      let above = if ltb hi 159 then nodes_of (get_elem? bs (hi + 1)) else [] in
      let below = if ltb 0 lo then nodes_of (get_elem? bs (lo - 1)) else [] in
      let up = if ltb hi 159 then hi + 1 else hi in
      let rest = expand fuel bs count (lo - 1) up ((cs ++ above) ++ below) in
      stop_or (ltb (length cs) count && (ltb hi 159 || ltb 0 lo)) rest cs count lo hi refl
        (expand_all fuel count (lo - 1) up ((cs ++ above) ++ below) (ground arith) (omega arith)
          (λ all.
            let outer = All-split P (cs ++ above) below all in
            let inner = All-split P cs above outer.0 in
            widen lo hi (known inner.0) inner.1 outer.1))
        known few h i p q

All-within :
    (P : DhtNode → Type 0) (bs : List KBucket)
    → ((i : ℕ) → i < length bs → All P (nodes_of (get_elem? bs i)))
    → All P (all_nodes bs)
All-within P [] h = tt
All-within P (b ∷ bs) h =
    All-++ P b.nodes (all_nodes bs) (h 0 (omega arith))
      (All-within P bs (λ i p. h (suc i) (omega arith)))

-- In a table of at most 160 buckets the search stops short of the number of nodes that are asked for
-- only when it has seen every node of the table: what holds of the candidates holds of all nodes.
pub candidates_of-All :
    (target count : ℕ) (t : RoutingTable) (P : DhtNode → Type 0)
    → length t.buckets ≤ 160
    → length (candidates_of target count t) < count
    → All P (candidates_of target count t)
    → All P (all_nodes t.buckets)
unfolding candidates_of
candidates_of-All target count t P size few h =
    let lz = leading_zeros (xor_distance t.local_id target) in
    let center = center_of lz in
    let low : center ≤ 160 = ground arith in
    let only : All P (nodes_of (get_elem? t.buckets center)) → Between P t.buckets center center =
      λ k i p q.
        let same : center ≡ i = omega (arith, p, q) in
        subst (λ j. All P (nodes_of (get_elem? t.buckets j))) same k in
    All-within P t.buckets (λ i p.
      expand_all P t.buckets num_buckets count center center (nodes_of (get_elem? t.buckets center))
        (omega arith) low only few h i (omega arith) (omega arith))
