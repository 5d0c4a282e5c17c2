-- ===== src/Engine/Write/Whole.antt =====
-- write_all_at of downloader.rs: the bytes of the file before and after a batch.
use ai_model_downloader.Engine.Control.{watch_for_interrupt}
use ai_model_downloader.Base.{
  nat_eq, string_eq, ℕ, zero, suc, ◌+◌, ◌≤◌, ◌≡◌, refl, ap, ◌∙◌, subst, ◌≢◌, ◌⊎◌, inl, inr, List,
  [], ◌∷◌, ◌++◌, arith, leb, ◌==◌, le→leb, Bool-cases, u64_max, length, take, drop, length-drop,
}
use ai_model_downloader.Core.Error.{DownloadResult, ok, err, panic}
use ai_model_downloader.Engine.Async.{Async, returns, throws, panics, waits, exhausted}
use ai_model_downloader.Engine.Storage.{AsyncStorage, Holds, Outside}
use ai_model_downloader.Engine.Write.{
  Race, written, interrupted, interrupt, write_loop, write_all_at, after_write, write_round,
}

pub take-append-drop {ℓ} : {A : Type ℓ} (n : ℕ) (xs : List A) → take n xs ++ drop n xs ≡ xs
take-append-drop zero xs = refl
take-append-drop (suc n) [] = refl
take-append-drop (suc n) (x ∷ xs) = ap (◌∷◌ x) (take-append-drop n xs)

pub length-take_of_le {ℓ} :
    {A : Type ℓ} (n : ℕ) (xs : List A) → n ≤ length xs → length (take n xs) ≡ n
length-take_of_le zero xs h = refl
length-take_of_le (suc n) [] h = absurd (omega arith)
length-take_of_le (suc n) (x ∷ xs) h = ap suc (length-take_of_le n xs (omega arith))

pub Holds-append :
    (file : ℕ → ℕ) (pos end : ℕ) (xs ys : List ℕ)
    → end ≡ pos + length xs
    → Holds file pos xs
    → Holds file end ys
    → Holds file pos (xs ++ ys)
Holds-append file pos end [] ys e hx hy = subst (λ p. Holds file p ys) (omega arith) hy
Holds-append file pos end (x ∷ xs) ys e hx hy =
    (hx.0, Holds-append file (pos + 1) end xs ys (omega arith) hx.1 hy)

-- A write elsewhere keeps what the file holds.
pub Holds-Outside :
    (before after : ℕ → ℕ) (pos at count : ℕ) (xs : List ℕ)
    → (pos + length xs ≤ at) ⊎ (at + count ≤ pos)
    → Outside before after at count
    → Holds before pos xs
    → Holds after pos xs
Holds-Outside before after pos at count [] d o h = tt
Holds-Outside before after pos at count (x ∷ xs) d o h = (
  o pos (omega arith) ∙ h.0,
  Holds-Outside before after (pos + 1) at count xs (omega arith) o h.1,
)

pub Outside-trans :
    (a b c : ℕ → ℕ) (pos n at m start count : ℕ)
    → start ≤ pos
    → pos + n ≤ start + count
    → start ≤ at
    → at + m ≤ start + count
    → Outside a b pos n
    → Outside b c at m
    → Outside a c start count
Outside-trans a b c pos n at m start count p q r s f g i h =
    g i (omega (arith, h)) ∙ f i (omega (arith, h))

-- An interrupt never lets a call return.
pub interrupt_never {ℓ} : {A : Type ℓ} (x : Async (Unit {0})) (a : A) → interrupt x ≢ returns a
unfolding interrupt
interrupt_never (returns u) a h = cc
interrupt_never (throws e) a h = cc
interrupt_never panics a h = cc
interrupt_never waits a h = cc
interrupt_never exhausted a h = cc

module _ (storage : AsyncStorage) where
  open storage use {State, byte, write_at}

  -- What a call promises: nothing outside the range changes, and if it returns, the bytes are there.
  pub record Writes (s : State) (pos total : ℕ) (batch : List ℕ) (r : State × Async ℕ)
      : Type 0 where
    pub outside : Outside (byte s) (byte r.0) pos (length batch)
    pub holds : (n : ℕ) → r.1 ≡ returns n → Holds (byte r.0) pos batch × (n ≡ total + length batch)

  -- A call that stops short of an answer.
  stopped-Writes :
      (s s' : State) (pos total : ℕ) (batch : List ℕ) (x : Async ℕ)
      → Outside (byte s) (byte s') pos (length batch)
      → ((n : ℕ) → x ≢ returns n)
      → Writes s pos total batch (s', x)
  stopped-Writes s s' pos total batch x o never = record {
    outside = o;
    holds = λ n h. absurd (never n h);
  }

  -- The first `n` bytes, then the rest.
  joined-Writes :
      (s s' : State) (pos total n : ℕ) (batch : List ℕ) (r : State × Async ℕ)
      → n ≤ length batch
      → Outside (byte s) (byte s') pos (length batch)
      → Holds (byte s') pos (take n batch)
      → Writes s' (pos + n) (total + n) (drop n batch) r
      → Writes s pos total batch r
  joined-Writes s s' pos total n batch r l o h w = record {
    outside =
        Outside-trans (byte s) (byte s') (byte r.0) pos (length batch) (pos + n)
          (length (drop n batch)) pos (length batch) (omega arith) (omega arith) (omega arith)
          (omega (arith, length-drop n batch)) o w.outside;
    holds = λ m e. (
      subst (Holds (byte r.0) pos) (take-append-drop n batch) (
          Holds-append (byte r.0) pos (pos + n) (take n batch) (drop n batch)
            (omega (arith, length-take_of_le n batch l))
            (Holds-Outside (byte s') (byte r.0) pos (pos + n) (length (drop n batch)) (take n batch)
              (inl (omega (arith, length-take_of_le n batch l))) w.outside h)
            (w.holds m e).0),
      omega (arith, (w.holds m e).1, length-drop n batch),
    );
  }

  abbrev Continues : (State → ℕ → List ℕ → ℕ → State × Async ℕ) → Type 0
  Continues k =
      (s : State) (pos : ℕ) (batch : List ℕ) (total : ℕ)
      → Writes s pos total batch (k s pos batch total)

  after_ok-Writes :
      (k : State → ℕ → List ℕ → ℕ → State × Async ℕ) (s s' : State) (pos total n : ℕ)
      (batch : List ℕ)
      → Continues k
      → n ≤ length batch
      → Outside (byte s) (byte s') pos (length batch)
      → Holds (byte s') pos (take n batch)
      → Writes s pos total batch (after_write storage k (s', ok n) pos batch total)
  after_ok-Writes k s s' pos total n batch next l o h = elim (Bool-cases (n == 0)) [
    | inl e ↦ rw e (stopped-Writes s s' pos total batch _ o (λ m q. cc))
    | inr e ↦ elim (Bool-cases (leb (pos + n) u64_max)) [
      | inr f ↦ rw (e, f) (stopped-Writes s s' pos total batch _ o (λ m q. cc))
      | inl f ↦ elim (Bool-cases (leb (total + n) u64_max)) [
        | inr g ↦ rw (e, f, g) (stopped-Writes s s' pos total batch _ o (λ m q. cc))
        | inl g ↦
            rw (e, f, g, le→leb n (length batch) l)
              (joined-Writes s s' pos total n batch _ l o h
                (next s' (pos + n) (drop n batch) (total + n)))
      ]
    ]
  ]

  after-Writes :
      (k : State → ℕ → List ℕ → ℕ → State × Async ℕ) (s s' : State) (r : DownloadResult ℕ)
      (pos total : ℕ) (batch : List ℕ)
      → Continues k
      → Outside (byte s) (byte s') pos (length batch)
      → ((n : ℕ) → r ≡ ok n → (n ≤ length batch) × Holds (byte s') pos (take n batch))
      → Writes s pos total batch (after_write storage k (s', r) pos batch total)
  after-Writes k s s' (err e) pos total batch next o law =
      stopped-Writes s s' pos total batch _ o (λ m q. cc)
  after-Writes k s s' panic pos total batch next o law =
      stopped-Writes s s' pos total batch _ o (λ m q. cc)
  after-Writes k s s' (ok n) pos total batch next o law =
      after_ok-Writes k s s' pos total n batch next (law n refl).0 o (law n refl).1

  round-Writes :
      (k : State → ℕ → List ℕ → ℕ → State × Async ℕ) (race : Race) (s : State) (pos total : ℕ)
      (batch : List ℕ)
      → Continues k
      → Writes s pos total batch (write_round storage k race s pos batch total)
  round-Writes k written s pos total batch next =
      after-Writes k s (write_at s pos batch).0 (write_at s pos batch).1 pos total batch next
        (storage.write_at_Outside s pos batch)
        (λ n e. (storage.write_at_length s pos batch n e, storage.write_at_Holds s pos batch n e))
  round-Writes k (interrupted c) s pos total batch next =
      stopped-Writes s (storage.dropped s pos batch) pos total batch _
        (storage.dropped_Outside s pos batch) (λ n h. interrupt_never (watch_for_interrupt c) n h)

  write_loop-Writes :
      (fuel : ℕ) (races : ℕ → Race) (i : ℕ) (s : State) (pos : ℕ) (batch : List ℕ) (total : ℕ)
      → Writes s pos total batch (write_loop storage fuel races i s pos batch total)
  unfolding write_loop
  write_loop-Writes fuel races i s pos [] total = record {
    outside = λ j h. refl;
    holds = λ n h. (tt, ground arith);
  }
  write_loop-Writes zero races i s pos (b ∷ bs) total = record {
    outside = λ j h. refl;
    holds = λ n h. cc;
  }
  write_loop-Writes (suc fuel) races i s pos (b ∷ bs) total =
      round-Writes (write_loop storage fuel races (suc i)) (races i) s pos total (b ∷ bs)
        (write_loop-Writes fuel races (suc i))

  -- Whatever the storage and the control channel do, a batch changes no byte outside its range; and
  -- if the call returns, the whole batch is in the file and the answer is its length.
  pub write_all_at-Writes :
      (races : ℕ → Race) (s : State) (pos : ℕ) (batch : List ℕ)
      → Writes s pos 0 batch (write_all_at storage races s pos batch)
  unfolding write_all_at
  write_all_at-Writes races s pos batch = write_loop-Writes (length batch) races 0 s pos batch 0
