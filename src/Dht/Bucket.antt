-- ===== src/Dht/Bucket.antt =====
-- crates/tachyon-p2sp/src/dht/kbucket.rs, KBucket, and DhtNode of node.rs. A node id, 20 bytes, is the
-- number they write; times are in nanoseconds and the clock is an argument. The replacement cache is
-- kept newest first, the reverse of the `Vec`, so that `pop` takes the head.
pub mod Filled
pub mod Holds
mod Evicted
mod Twice
mod Examples
use Prim.Native.String.{String}
use ai_model_downloader.Base.{
  lookup, insert, Eq, nat_eq, string_eq, lookup-insert, ℕ, zero, suc, ◌+◌, ◌-◌, ◌*◌, ◌/◌, ◌%◌, ◌^◌,
  ◌≤◌, ◌<◌, min, max, ◌≡◌, refl, sym, ap, ◌∙◌, subst, ◌≢◌, ◌↔◌, ◌⊎◌, inl, inr, Bool, true, false,
  not, ◌&&◌, ◌||◌, Option, none, some, List, [], ◌∷◌, ◌++◌, map, arith, dec_lt, ℕ_discrete, ltb,
  leb, ◌==◌, if◌then◌else◌, ltb→lt, lt→ltb, leb→le, le→leb, ==_iff, lt→leb, ne→==, Bool-cases,
  Option-cases, u8, u32, u64, u64_max, checked_add, length, get_elem?, set, take, drop,
  length-append, length-drop, length-set, All, ℕ,
}

pub record DhtNode : Type 0 where
  pub id : ℕ
  pub addr : String
  pub last_seen : ℕ

abbrev pub stale_duration : ℕ
stale_duration = 900 * 1000000000

abbrev pub k_bucket_size : ℕ
k_bucket_size = 20

-- A time that is ahead of the clock is not stale.
unfoldable pub is_stale : ℕ → DhtNode → Bool
is_stale now n = ltb stale_duration (now - n.last_seen)

pub record KBucket : Type 0 where
  pub nodes : List DhtNode
  pub replacement_cache : List DhtNode
  pub last_activity : ℕ

unfoldable pub new : ℕ → KBucket
new now = record { nodes = []; replacement_cache = []; last_activity = now }

unfoldable pub is_full : KBucket → Bool
is_full b = leb k_bucket_size (length b.nodes)

unfoldable pub contains : ℕ → List DhtNode → Bool
contains id [] = false
contains id (n ∷ ns) = (n.id == id) || contains id ns

-- `position`, then `Vec::remove`: the first node of that id goes.
unfoldable pub without : ℕ → List DhtNode → List DhtNode
without id [] = []
without id (n ∷ ns) = let rest = without id ns in if n.id == id then ns else n ∷ rest

-- `remove(0)`: the oldest entry, which stands last here.
unfoldable pub drop_oldest : List DhtNode → List DhtNode
drop_oldest [] = []
drop_oldest (n ∷ []) = []
drop_oldest (n ∷ m ∷ ns) = n ∷ drop_oldest (m ∷ ns)

abbrev cached : List DhtNode → List DhtNode
cached cache = if leb k_bucket_size (length cache) then drop_oldest cache else cache

unfoldable pub update : ℕ → DhtNode → KBucket → KBucket × Bool
unfolding contains without is_full drop_oldest
update now node b =
    if contains node.id b.nodes
    then (
      record b {
        nodes = without node.id b.nodes ++ (record node { last_seen = now } ∷ []);
        last_activity = now;
      },
      true,
    )
    else if not (is_full b)
    then (record b { nodes = b.nodes ++ (node ∷ []); last_activity = now }, true)
    else (
      record b { replacement_cache = node ∷ cached b.replacement_cache; last_activity = now },
      false,
    )

abbrev refill_one : List DhtNode → KBucket → KBucket
refill_one [] b = b
refill_one (n ∷ cache) b = record b { nodes = b.nodes ++ (n ∷ []); replacement_cache = cache }

unfoldable pub remove : ℕ → ℕ → KBucket → KBucket × Bool
unfolding contains without
remove now id b =
    if contains id b.nodes
    then (
      refill_one b.replacement_cache (record b { nodes = without id b.nodes; last_activity = now }),
      true,
    )
    else (b, false)

abbrev replace_first : ℕ → List DhtNode → List DhtNode → KBucket → KBucket
replace_first now [] nodes b = b
replace_first now (n ∷ cache) [] b = record b { replacement_cache = cache }
replace_first now (n ∷ cache) (m ∷ ms) b = record {
  nodes = n ∷ ms;
  replacement_cache = cache;
  last_activity = now;
}

unfoldable pub replace_oldest : ℕ → KBucket → KBucket
replace_oldest now b = replace_first now b.replacement_cache b.nodes b

-- `retain`.
unfoldable pub fresh : ℕ → List DhtNode → List DhtNode
fresh now [] = []
fresh now (n ∷ ns) = let rest = fresh now ns in if is_stale now n then rest else n ∷ rest

-- The `while` loop, over the cache: the nodes and the cache that it leaves.
unfoldable pub refill : ℕ → List DhtNode → List DhtNode → List DhtNode × List DhtNode
refill now [] nodes = (nodes, [])
refill now (n ∷ cache) nodes =
    let skipped = refill now cache nodes in
    let pushed = refill now cache (nodes ++ (n ∷ [])) in
    if leb k_bucket_size (length nodes)
    then (nodes, n ∷ cache)
    else if is_stale now n
    then skipped
    else pushed

unfoldable pub evict_stale : ℕ → KBucket → KBucket
unfolding fresh refill
evict_stale now b =
    let kept = fresh now b.nodes in
    let (nodes, cache) = refill now b.replacement_cache kept in
    record {
      nodes = nodes;
      replacement_cache = cache;
      last_activity = if length kept == length b.nodes then b.last_activity else now;
    }
