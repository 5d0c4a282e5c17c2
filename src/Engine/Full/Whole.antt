-- ===== src/Engine/Full/Whole.antt =====
-- execute_full_download of downloader.rs where the storage writes whole chunks.
use mathlib.Core.List.{append_assoc, append-nil}
use ai_model_downloader.Base.{
  nat_eq, string_eq, ℕ, ◌+◌, ◌≤◌, ◌≡◌, refl, sym, ap, subst, inl, inr, true, Option, none, some,
  List, [], ◌∷◌, ◌++◌, arith, le→leb, ==_iff, Bool-cases, u64, u64_max, checked_add, length, take,
  length-append,
}
use ai_model_downloader.Core.State.{DownloadState}
use ai_model_downloader.Engine.Fragment.{FragmentRecord}
use ai_model_downloader.Core.Error.{DownloadResult, ok, err, panic}
use ai_model_downloader.Engine.Async.{Async, returns, throws, panics, waits, exhausted}
use ai_model_downloader.Core.State.{DownloadState}
use ai_model_downloader.Engine.Control.{wait_control}
use ai_model_downloader.Engine.Storage.{AsyncStorage, Holds}
use ai_model_downloader.Engine.Write.Whole.{Holds-append, Holds-Outside}
use ai_model_downloader.Engine.Fragment.{FragmentRecord}
use ai_model_downloader.Engine.Full.{
  Piece, Answered, answered, Meets, within, complete_first, wrote, checked, take_chunk, obey,
  full_loop, Task, done_with, sized, looped, opened, hosted, allowed, execute_full_download,
}

abbrev bytes_of : DownloadResult (List ℕ) → List ℕ
bytes_of (ok bytes) = bytes
bytes_of (err e) = []
bytes_of panic = []

-- The bytes that the stream brings.
abbrev pub brought : List Piece → List ℕ
brought [] = []
brought (p ∷ ps) = bytes_of p.chunk ++ brought ps

take_whole : (bytes : List ℕ) (n : ℕ) → n ≡ length bytes → take n bytes ≡ bytes
take_whole bytes n h = subst (λ m. take m bytes ≡ bytes) (sym h) (whole bytes)
  where
    whole : (bytes : List ℕ) → take (length bytes) bytes ≡ bytes
    whole [] = refl
    whole (b ∷ bs) = ap (◌∷◌ b) (whole bs)

module _ (storage : AsyncStorage) where
  open storage use {State, byte, write_at}

  -- A write that succeeds takes the whole chunk.
  abbrev pub WritesAll : Type 0
  WritesAll =
      (s : State) (pos : ℕ) (chunk : List ℕ) (n : ℕ)
      → (write_at s pos chunk).1 ≡ ok n
      → n ≡ length chunk

  module _ (all : WritesAll) (expected : Option ℕ) (limit : ℕ) where
    -- The file holds `bytes` from its start, and they respect the limit where it applies.
    abbrev Here : List ℕ → State → ℕ → Type 0
    Here bytes s pos =
        (pos ≡ length bytes) × Holds (byte s) 0 bytes × (expected ≡ none → pos ≤ limit)

    abbrev Reaches : List ℕ → State × Async ℕ → Type 0
    Reaches bytes r = (p : ℕ) → r.1 ≡ returns p → Here bytes r.0 p

    within-limit :
        (o : Option ℕ) (pos count : ℕ)
        → pos + count ≤ u64_max
        → within o limit (checked_add pos count) ≡ ok tt
        → o ≡ none
        → pos + count ≤ limit
    within-limit none pos count u w h = ground (arith, le→leb (pos + count) u64_max u)
    within-limit (some x) pos count u w h = cc

    wrote-Here :
        (s : State) (pos n : ℕ) (written chunk : List ℕ)
        → Here written s pos
        → length written + length chunk ≤ u64_max
        → within expected limit (checked_add pos (length chunk)) ≡ ok tt
        → (write_at s pos chunk).1 ≡ ok n
        → Here (written ++ chunk) (write_at s pos chunk).0 (u64 (pos + n))
    wrote-Here s pos n written chunk (e, h, l) u w q = (
      omega (arith, same, e, u, length-append written chunk),
      Holds-append (byte (write_at s pos chunk).0) 0 pos written chunk (omega arith)
          (Holds-Outside (byte s) (byte (write_at s pos chunk).0) 0 pos (length chunk) written
            (inl (omega arith)) (storage.write_at_Outside s pos chunk) h)
          (subst (Holds (byte (write_at s pos chunk).0) pos) (take_whole chunk n same)
            (storage.write_at_Holds s pos chunk n q)),
      λ o. omega (arith, same, within-limit expected pos (length chunk) (omega arith) w o),
    )
      where
        same : n ≡ length chunk
        same = all s pos chunk n q

    obey-Reaches :
        (bytes : List ℕ) (x : Async (Unit {0})) (s : State) (next : State × Async ℕ)
        → Reaches bytes next
        → Reaches bytes (obey storage x s next)
    obey-Reaches bytes (returns u) s next r = r
    obey-Reaches bytes (throws e) s next r = λ p h. cc
    obey-Reaches bytes panics s next r = λ p h. cc
    obey-Reaches bytes waits s next r = λ p h. cc
    obey-Reaches bytes exhausted s next r = λ p h. cc

    wrote-Reaches :
        (bytes : List ℕ) (k : State → ℕ → State × Async ℕ) (pos : ℕ) (s : State)
        (x : DownloadResult ℕ)
        → ((n : ℕ) → x ≡ ok n → Reaches bytes (k s (u64 (pos + n))))
        → Reaches bytes (wrote storage k pos (s, x))
    wrote-Reaches bytes k pos s (ok n) r = r n refl
    wrote-Reaches bytes k pos s (err e) r = λ p h. cc
    wrote-Reaches bytes k pos s panic r = λ p h. cc

    checked-Reaches :
        (bytes : List ℕ) (x : DownloadResult (Unit {0})) (s : State) (next : State × Async ℕ)
        → (x ≡ ok tt → Reaches bytes next)
        → Reaches bytes (checked storage x s next)
    checked-Reaches bytes (ok u) s next r = r refl
    checked-Reaches bytes (err e) s next r = λ p h. cc
    checked-Reaches bytes panic s next r = λ p h. cc

    -- The rest of the loop, which brings `rest`.
    abbrev Goes : List ℕ → (State → ℕ → State × Async ℕ) → Type 0
    Goes rest k =
        (s : State) (pos : ℕ) (written : List ℕ)
        → Here written s pos
        → length written + length rest ≤ u64_max
        → Reaches (written ++ rest) (k s pos)

    chunk-Reaches :
        (rest : List ℕ) (k : State → ℕ → State × Async ℕ) (c : DownloadResult (List ℕ))
        → Goes rest k
        → Goes (bytes_of c ++ rest) (take_chunk storage k expected limit c)
    chunk-Reaches rest k (err e) g s pos written h u = λ p q. cc
    chunk-Reaches rest k panic g s pos written h u = λ p q. cc
    chunk-Reaches rest k (ok chunk) g s pos written h u =
        subst (λ bytes. Reaches bytes (take_chunk storage k expected limit (ok chunk) s pos))
          (append_assoc written chunk rest)
          (checked-Reaches _ _ _ _ (λ w.
            wrote-Reaches _ k pos (write_at s pos chunk).0 (write_at s pos chunk).1 (λ n q.
              g _ _ (written ++ chunk)
                (wrote-Here s pos n written chunk h (omega (arith, length-append chunk rest)) w q)
                (omega (arith, length-append chunk rest, length-append written chunk)))))

    returned : {a b : ℕ} → returns a ≡ returns b → a ≡ b
    returned h = cc

    full_loop-Goes : (ps : List Piece) → Goes (brought ps) (full_loop storage expected limit ps)
    unfolding full_loop
    full_loop-Goes [] s pos written h u = λ p q.
        subst (λ bytes. Here bytes s p) (sym (append-nil written))
          (subst (Here written s) (returned q) h)
    full_loop-Goes (x ∷ ps) s pos written h u = obey-Reaches _ (wait_control x.control) s _ (
        chunk-Reaches (brought ps) (full_loop storage expected limit ps) x.chunk (full_loop-Goes ps)
          s pos written h u)

  -- The task has the bytes, all of them, and is completed.
  pub record HasAll (m : Meets) (bytes : List ℕ) (t : Task storage) : Type 0 where
    pub in_file : Holds (byte t.stored) 0 bytes
    pub known_size : (e : ℕ) → m.expected_size ≡ some e → length bytes ≡ e
    pub bounded : m.expected_size ≡ none → length bytes ≤ m.max_full_stream_bytes
    pub finished : t.state ≡ DownloadState.completed

  module _ (all : WritesAll) (m : Meets) (bytes : List ℕ) where
    abbrev Ends : Task storage × Async (Unit {0}) → Type 0
    Ends r = r.1 ≡ returns tt → HasAll m bytes r.0

    done-Ends :
        (t : Task storage) (pos : ℕ) (x : List FragmentRecord × DownloadResult (Unit {0}))
        → Here all m.expected_size m.max_full_stream_bytes bytes t.stored pos
        → sized storage m.expected_size pos ≡ true
        → Ends (done_with storage t x)
    done-Ends t pos (fs, ok u) (e, h, l) z = λ q. record {
      in_file = h;
      known_size = λ x k. ground (arith, z, k, e, ==_iff pos x);
      bounded = λ k. omega (arith, e, l k);
      finished = refl;
    }
    done-Ends t pos (fs, err e) h z = λ q. cc
    done-Ends t pos (fs, panic) h z = λ q. cc

    looped-Ends :
        (t : Task storage) (r : State × Async ℕ)
        → Reaches all m.expected_size m.max_full_stream_bytes bytes r
        → Ends (looped storage m t r)
    looped-Ends t (s, returns pos) g = elim (Bool-cases (sized storage m.expected_size pos)) [
      | inl z ↦ rw z (
          done-Ends (record t { stored = s }) pos (complete_first pos m.elapsed t.fragments)
            (g pos refl) z)
      | inr z ↦ rw z (λ q. cc)
    ]
    looped-Ends t (s, throws e) g = λ q. cc
    looped-Ends t (s, panics) g = λ q. cc
    looped-Ends t (s, waits) g = λ q. cc
    looped-Ends t (s, exhausted) g = λ q. cc

  -- Where a write that succeeds takes its whole chunk: when the download of a stream of at most 2^64 - 1
  -- bytes returns, the file holds the bytes of the stream from its start, they are as many as the
  -- metadata say, or no more than the limit if the metadata give no size, and the task is completed.
  pub execute_full_download-HasAll :
      (m : Meets) (pieces : List Piece) (t : Task storage)
      → WritesAll
      → m.answer ≡ answered (ok pieces)
      → length (brought pieces) ≤ u64_max
      → (execute_full_download storage m t).1 ≡ returns tt
      → HasAll m (brought pieces) (execute_full_download storage m t).0
  unfolding execute_full_download
  execute_full_download-HasAll m pieces t all a u = allowed-Ends (wait_control m.control)
    where
      start_here : Here all m.expected_size m.max_full_stream_bytes [] t.stored 0
      start_here = (refl, tt, λ o. omega arith)

      opened-Ends :
          (x : Answered)
          → x ≡ answered (ok pieces)
          → Ends all m (brought pieces) (opened storage m x t)
      opened-Ends x e = rw e (
          looped-Ends all m (brought pieces) t _ (
            full_loop-Goes all m.expected_size m.max_full_stream_bytes pieces t.stored 0 []
              start_here (omega arith)))

      hosted-Ends :
          (x : DownloadResult (Unit {0})) → Ends all m (brought pieces) (hosted storage m x t)
      hosted-Ends (ok v) = opened-Ends m.answer a
      hosted-Ends (err e) = λ q. cc
      hosted-Ends panic = λ q. cc

      allowed-Ends : (x : Async (Unit {0})) → Ends all m (brought pieces) (allowed storage m x t)
      allowed-Ends (returns v) = hosted-Ends m.host
      allowed-Ends (throws e) = λ q. cc
      allowed-Ends panics = λ q. cc
      allowed-Ends waits = λ q. cc
      allowed-Ends exhausted = λ q. cc
