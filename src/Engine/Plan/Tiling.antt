-- ===== src/Engine/Plan/Tiling.antt =====
-- plan_fragments of orchestrator.rs: its loop, and what it is for fragments to cover a file.
use ai_model_downloader.Base.{
  ℕ, zero, suc, ◌+◌, ◌-◌, ◌*◌, ◌/◌, ◌≤◌, ◌<◌, ◌≡◌, refl, Option, none, some, List, [], ◌∷◌, arith,
  min, lt→ltb, dec_lt, length, u64_max,
}
use ai_model_downloader.Core.Error.{DownloadResult, ok}
use ai_model_downloader.Core.FragmentInfo.{FragmentInfo}
use ai_model_downloader.Core.FragmentInfo as Info
use ai_model_downloader.Engine.Plan.{max_fragment_count, effective_size, cut, cut_by}

-- The fragments start at `offset`, follow one another without gap or overlap, and end at `file_size`;
-- they are numbered from `index` on, none is empty, none is larger than `limit`, and none has data yet.
abbrev pub Tiles : ℕ → ℕ → ℕ → ℕ → List FragmentInfo → Type 0
Tiles limit file_size offset index [] = offset ≡ file_size
Tiles limit file_size offset index (f ∷ fs) =
    (f.index ≡ index)
    × (f.start ≡ offset)
    × (0 < f.size)
    × (f.size ≤ limit)
    × (f.end + 1 ≡ f.start + f.size)
    × (f.downloaded ≡ 0)
    × Tiles limit file_size (offset + f.size) (index + 1) fs

-- The loop returns a tiling of at most `count` fragments.
abbrev pub Cuts : ℕ → ℕ → ℕ → ℕ → ℕ → Option (DownloadResult (List FragmentInfo)) → Type 0
Cuts limit file_size offset index count r =
    (fs : List FragmentInfo) × (r ≡ some (ok fs))
    × Tiles limit file_size offset index fs
    × (length fs ≤ count)

-- The fragment that the loop makes.
abbrev pub piece : ℕ → ℕ → ℕ → FragmentInfo
piece index offset size = record {
  index = index;
  start = offset;
  end = offset + size - 1;
  size = size;
  downloaded = 0;
  hash = none;
}

-- The assertion of `FragmentInfo::new` holds in the loop.
pub new-piece :
    (index offset size : ℕ)
    → 0 < size
    → offset + size ≤ u64_max
    → Info.new index offset (offset + size - 1) size ≡ ok (piece index offset size)
unfolding Info.new
new-piece index offset size z u = ground arith

-- One round of the loop, and the rest.
cut_round :
    (fuel size file_size offset index count : ℕ)
    → 0 < size
    → file_size ≤ u64_max
    → offset < file_size
    → index + suc count < 4294967296
    → let taken = min (file_size - offset) size in
      Cuts size file_size
        (offset + taken)
        (index + 1)
        count
        (cut fuel size file_size (offset + taken) (index + 1))
      → Cuts size file_size offset index (suc count) (cut (suc fuel) size file_size offset index)
unfolding cut
cut_round fuel size file_size offset index count z u o b (fs, e, t, l) = (
  piece index offset (min (file_size - offset) size) ∷ fs,
  rw
      (
        lt→ltb offset file_size o,
        lt→ltb index 4294967295 (omega arith),
        e,
        new-piece index offset (min (file_size - offset) size) (omega arith) (omega arith),
      )
      refl,
  (refl, refl, omega arith, omega arith, omega arith, refl, t),
  omega arith,
)

pub cut-Cuts :
    (fuel size file_size offset index count : ℕ)
    → 0 < size
    → file_size ≤ u64_max
    → offset ≤ file_size
    → file_size - offset < fuel
    → file_size - offset ≤ count * size
    → index + count < 4294967296
    → Cuts size file_size offset index count (cut fuel size file_size offset index)
unfolding cut
cut-Cuts zero size file_size offset index count z u o f c b = absurd (omega arith)
cut-Cuts (suc fuel) size file_size offset index zero z u o f c b =
    ([], ground arith, omega arith, omega arith)
cut-Cuts (suc fuel) size file_size offset index (suc count) z u o f c b =
    elim (dec_lt offset file_size) [
      | yes m ↦ cut_round fuel size file_size offset index count z u m b (
          cut-Cuts fuel size file_size (offset + min (file_size - offset) size) (index + 1) count z
            u (omega arith) (omega arith) (grind arith) (omega arith))
      | no m ↦ ([], ground arith, omega arith, omega arith)
    ]

Tiles-weaken :
    (small large file_size offset index : ℕ) (fs : List FragmentInfo)
    → small ≤ large
    → Tiles small file_size offset index fs
    → Tiles large file_size offset index fs
Tiles-weaken small large file_size offset index [] h t = t
Tiles-weaken small large file_size offset index (f ∷ fs) h (a, b, c, d, e, g, t) = (
  a,
  b,
  c,
  omega arith,
  e,
  g,
  Tiles-weaken small large file_size (offset + f.size) (index + 1) fs h t,
)

mul_mono : (a b c : ℕ) → a ≤ b → c * a ≤ c * b
mul_mono a b c h = grind arith

le-of-quotient : (a b k : ℕ) → 0 < b → a / b ≤ k → a ≤ (k + 1) * b
le-of-quotient a b k z h = omega (arith, mul_mono (a / b) k b h)

-- The count stays under the limit of a `u32`, whatever the suggested size.
effective_size-bounds :
    (file_size size : ℕ)
    → 0 < file_size
    → 0 < size
    → (0 < effective_size file_size size) × (file_size ≤ 1000001 * effective_size file_size size)
unfolding effective_size
effective_size-bounds file_size size p z = elim (dec_lt max_fragment_count (file_size / size)) [
  | yes m ↦ rw (lt→ltb _ _ m) (omega arith, omega arith)
  | no m ↦ ground (arith, le-of-quotient file_size size 1000000 z)
]

-- A cut by a size that is not 0.
pub cut_by-Cuts :
    (file_size size : ℕ)
    → 0 < file_size
    → file_size ≤ u64_max
    → 0 < size
    → Cuts (effective_size file_size size) file_size 0 0 1000001 (cut_by file_size size)
unfolding cut_by
cut_by-Cuts file_size size p u z =
    let (e, b) = effective_size-bounds file_size size p z in
    let cuts =
      cut-Cuts (suc file_size) (effective_size file_size size) file_size 0 0 1000001 e u
        (omega arith) (omega arith) (omega arith) (omega arith) in
    ground (arith, cuts)
