-- ===== src/Dht/Table.antt =====
-- crates/tachyon-p2sp/src/dht: RoutingTable of kbucket.rs, the distance of node.rs, and the subnets
-- of addresses. A bucket at an index out of range, where the code would panic,
-- is left out of the model: Dht/Table/Placed shows that indices are in range. The std parser of IP
-- addresses is an argument.
pub mod Placed
use Prim.Native.String.{String}
use Prim.Native.Nat.{bit_xor}
use ai_model_downloader.Base.{
  lookup, insert, Eq, nat_eq, string_eq, lookup-insert, lookup-remove, ℕ, zero, suc, ◌+◌, ◌-◌, ◌*◌,
  ◌/◌, ◌%◌, ◌^◌, ◌≤◌, ◌<◌, min, max, ◌≡◌, refl, sym, ap, ◌∙◌, subst, ◌≢◌, ◌↔◌, ◌⊎◌, inl, inr, Bool,
  true, false, not, ◌&&◌, ◌||◌, Option, none, some, List, [], ◌∷◌, ◌++◌, map, arith, dec_lt,
  ℕ_discrete, ltb, leb, ◌==◌, if◌then◌else◌, ltb→lt, lt→ltb, leb→le, le→leb, ==_iff, lt→leb, ne→==,
  Bool-cases, Option-cases, u8, u32, u64, u64_max, checked_add, length, get_elem?, set, take, drop,
  length-append, length-drop, length-set, All, Texts, codes, is_empty, is_some, same_text, to_lower,
  trim_start, trim_onto, trim_end, extend, before_last,
}
use ai_model_downloader.Core.UrlSafety.{IpAddr}
use ai_model_downloader.Dht.Bucket.{DhtNode, KBucket, contains, is_full, is_stale, evict_stale}
use ai_model_downloader.Dht.Bucket as Bucket

abbrev pub num_buckets : ℕ
num_buckets = 160

unfoldable pub xor_distance : ℕ → ℕ → ℕ
xor_distance a b = bit_xor a b

-- Of a byte that is not zero.
unfoldable pub byte_zeros : ℕ → ℕ
byte_zeros b =
    if leb 128 b
    then 0
    else if leb 64 b
    then 1
    else if leb 32 b
    then 2
    else if leb 16 b
    then 3
    else if leb 8 b
    then 4
    else if leb 4 b
    then 5
    else if leb 2 b
    then 6
    else 7

-- The loop over the bytes, of which the first argument is still to come.
unfoldable pub zeros_from : ℕ → ℕ → ℕ
zeros_from zero distance = 160
zeros_from (suc k) distance =
    let rest = zeros_from k distance in
    let byte = distance / 256 ^ k % 256 in
    if byte == 0 then rest else (19 - k) * 8 + byte_zeros byte

unfoldable pub leading_zeros : ℕ → ℕ
leading_zeros distance = zeros_from 20 distance

pub record RoutingTable : Type 0 where
  pub local_id : ℕ
  pub buckets : List KBucket

abbrev pub empty_buckets : ℕ → ℕ → List KBucket
empty_buckets now zero = []
empty_buckets now (suc n) = Bucket.new now ∷ empty_buckets now n

unfoldable pub new : ℕ → ℕ → RoutingTable
new now local_id = record { local_id = local_id; buckets = empty_buckets now num_buckets }

unfoldable pub index_of : ℕ → ℕ → Option ℕ
index_of local remote =
    let lz = leading_zeros (xor_distance local remote) in
    if leb 160 lz then none else some (159 - lz)

unfoldable pub bucket_index : RoutingTable → ℕ → Option ℕ
bucket_index t remote_id = index_of t.local_id remote_id

unfoldable pub modify : ℕ → (KBucket → KBucket) → List KBucket → List KBucket
modify i f [] = []
modify zero f (b ∷ bs) = f b ∷ bs
modify (suc i) f (b ∷ bs) = b ∷ modify i f bs

abbrev pub on_bucket : Option ℕ → (KBucket → KBucket) → RoutingTable → RoutingTable
on_bucket none f t = t
on_bucket (some i) f t = record t { buckets = modify i f t.buckets }

abbrev pub bucket_at : Option ℕ → RoutingTable → Option KBucket
bucket_at none t = none
bucket_at (some i) t = get_elem? t.buckets i

abbrev pub answer : Option KBucket → (KBucket → KBucket × Bool) → Bool
answer none f = false
answer (some b) f = (f b).1

unfoldable pub update : ℕ → DhtNode → RoutingTable → RoutingTable × Bool
update now node t =
    let i = bucket_index t node.id in
    (
      on_bucket i (λ b. (Bucket.update now node b).0) t,
      answer (bucket_at i t) (Bucket.update now node),
    )

unfoldable pub remove : ℕ → ℕ → RoutingTable → RoutingTable × Bool
remove now id t =
    let i = bucket_index t id in
    (on_bucket i (λ b. (Bucket.remove now id b).0) t, answer (bucket_at i t) (Bucket.remove now id))

abbrev pub total : List KBucket → ℕ
total [] = 0
total (b ∷ bs) = length b.nodes + total bs

unfoldable pub node_count : RoutingTable → ℕ
node_count t = total t.buckets

unfoldable pub cleanup_stale : ℕ → RoutingTable → RoutingTable
cleanup_stale now t = record t { buckets = map (evict_stale now) t.buckets }

abbrev pub fresh_nodes : ℕ → List DhtNode → List DhtNode
fresh_nodes now [] = []
fresh_nodes now (n ∷ ns) =
    let rest = fresh_nodes now ns in if is_stale now n then rest else n ∷ rest

abbrev pub all_nodes : List KBucket → List DhtNode
all_nodes [] = []
all_nodes (b ∷ bs) = b.nodes ++ all_nodes bs

unfoldable pub active_nodes : ℕ → RoutingTable → List DhtNode
active_nodes now t = fresh_nodes now (all_nodes t.buckets)

-- What `oldest` returns.
abbrev pub first : List DhtNode → Option DhtNode
first [] = none
first (n ∷ ns) = some n

-- A subnet's key, a /24 or a /48.
pub data SubnetKey : Type 0 where
  key4 : ℕ → ℕ → ℕ → SubnetKey
  key6 : ℕ → ℕ → ℕ → SubnetKey

abbrev pub same_key : SubnetKey → SubnetKey → Bool
same_key (SubnetKey.key4 a b c) (SubnetKey.key4 x y z) = a == x && (b == y && c == z)
same_key (SubnetKey.key6 a b c) (SubnetKey.key6 x y z) = a == x && (b == y && c == z)
same_key (SubnetKey.key4 a b c) (SubnetKey.key6 x y z) = false
same_key (SubnetKey.key6 a b c) (SubnetKey.key4 x y z) = false

abbrev pub key_of : Option IpAddr → Option SubnetKey
key_of none = none
key_of (some (IpAddr.v4 ip)) = some (SubnetKey.key4 ip.o0 ip.o1 ip.o2)
key_of (some (IpAddr.v6 ip)) = some (SubnetKey.key6 ip.s0 ip.s1 ip.s2)

-- The std parser of IP addresses.
module _ (parse_ip : Texts → Option IpAddr) where
  abbrev pub ip_text : Texts → Option Texts → Texts
  ip_text addr (some before) = before
  ip_text addr none = addr

  unfoldable pub extract_subnet_key : String → Option SubnetKey
  extract_subnet_key addr = key_of (
      parse_ip
        (trim_end b']' (trim_start b'[' (ip_text (codes addr) (before_last b':' (codes addr))))))

  abbrev pub in_subnet : SubnetKey → Option SubnetKey → Bool
  in_subnet key none = false
  in_subnet key (some other) = same_key other key

  abbrev pub count_in : SubnetKey → List DhtNode → ℕ
  count_in key [] = 0
  count_in key (n ∷ ns) =
      if in_subnet key (extract_subnet_key n.addr) then suc (count_in key ns) else count_in key ns

  unfoldable pub count_nodes_in_subnet : SubnetKey → RoutingTable → ℕ
  count_nodes_in_subnet key t = count_in key (all_nodes t.buckets)
