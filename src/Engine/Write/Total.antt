-- ===== src/Engine/Write/Total.antt =====
-- downloader.rs: the fuel of write_all_at, and the ways a wait on the channel ends.
use ai_model_downloader.Base.{
  nat_eq, string_eq, ℕ, zero, suc, ◌≤◌, refl, ◌≢◌, Bool, true, false, Option, none, some, List, [],
  ◌∷◌, arith, ℕ_discrete, leb, ne→==, checked_add, length, drop, length-drop,
}
use ai_model_downloader.Core.Error.{DownloadResult, ok, err, panic}
use ai_model_downloader.Engine.Async.{Async, returns, throws, panics, waits, exhausted}
use ai_model_downloader.Engine.Control.{
  Event, changed, timed_out, closed, Channel, Order, order_of, wait_from, wait_control,
  wait_control_rx, watch_from, watch_for_interrupt,
}
use ai_model_downloader.Engine.Storage.{AsyncStorage}
use ai_model_downloader.Engine.Write.{
  Race, written, interrupted, interrupt, write_loop, write_all_at, after_write, write_round,
  advanced,
}

watch_from_total : (o : Order) (events : List Event) → watch_from o events ≢ exhausted
unfolding watch_from
watch_from_total (Order.stop e) events h = cc
watch_from_total Order.pause [] h = cc
watch_from_total Order.pause (changed s ∷ events) h = watch_from_total (order_of s) events h
watch_from_total Order.pause (timed_out ∷ events) h = cc
watch_from_total Order.pause (closed ∷ events) h = cc
watch_from_total Order.run_on [] h = cc
watch_from_total Order.run_on (changed s ∷ events) h = watch_from_total (order_of s) events h
watch_from_total Order.run_on (timed_out ∷ events) h = watch_from_total Order.run_on events h
watch_from_total Order.run_on (closed ∷ events) h = cc

wait_from_total : (o : Order) (events : List Event) → wait_from o events ≢ exhausted
unfolding wait_from
wait_from_total (Order.stop e) events h = cc
wait_from_total Order.run_on events h = cc
wait_from_total Order.pause [] h = cc
wait_from_total Order.pause (changed s ∷ events) h = wait_from_total (order_of s) events h
wait_from_total Order.pause (timed_out ∷ events) h = cc
wait_from_total Order.pause (closed ∷ events) h = cc

pub wait_control_total : (o : Option Channel) → wait_control o ≢ exhausted
unfolding wait_control wait_control_rx
wait_control_total none h = cc
wait_control_total (some c) h = wait_from_total (order_of c.state) c.events h

interrupt_total_of {ℓ} :
    {A : Type ℓ} (x : Async (Unit {0})) → x ≢ exhausted → interrupt {A = A} x ≢ exhausted
unfolding interrupt
interrupt_total_of (returns u) n h = cc
interrupt_total_of (throws e) n h = cc
interrupt_total_of panics n h = cc
interrupt_total_of waits n h = cc
interrupt_total_of exhausted n h = n refl

pub interrupt_total {ℓ} :
    {A : Type ℓ} (c : Channel) → interrupt {A = A} (watch_for_interrupt c) ≢ exhausted
unfolding watch_for_interrupt
interrupt_total c =
    interrupt_total_of (watch_for_interrupt c) (watch_from_total (order_of c.state) c.events)

module _ (storage : AsyncStorage) where
  open storage use {State, write_at}

  -- A next round that ends on every shorter batch.
  abbrev Ends : ℕ → (State → ℕ → List ℕ → ℕ → State × Async ℕ) → Type 0
  Ends fuel k =
      (s : State) (pos : ℕ) (batch : List ℕ) (total : ℕ)
      → length batch ≤ fuel
      → (k s pos batch total).1 ≢ exhausted

  advanced_total :
      (a b : Option ℕ) (c : Bool) (k : ℕ → ℕ → State × Async ℕ) (s : State)
      → ((pos total : ℕ) → (k pos total).1 ≢ exhausted)
      → (advanced storage a b c k s).1 ≢ exhausted
  advanced_total none b c k s e h = cc
  advanced_total (some pos) none c k s e h = cc
  advanced_total (some pos) (some total) false k s e h = cc
  advanced_total (some pos) (some total) true k s e h = e pos total h

  -- A write of no byte ends the loop, any other shortens the batch.
  after_total :
      (fuel : ℕ) (k : State → ℕ → List ℕ → ℕ → State × Async ℕ) (s : State) (r : DownloadResult ℕ)
      (pos : ℕ) (batch : List ℕ) (total : ℕ)
      → length batch ≤ suc fuel
      → Ends fuel k
      → (after_write storage k (s, r) pos batch total).1 ≢ exhausted
  after_total fuel k s (err x) pos batch total f e = λ h. cc
  after_total fuel k s panic pos batch total f e = λ h. cc
  after_total fuel k s (ok n) pos batch total f e = elim (ℕ_discrete n 0) [
    | yes z ↦ rw z (λ h. cc)
    | no z ↦ rw (ne→== n 0 z) (
        advanced_total (checked_add pos n) (checked_add total n) (leb n (length batch))
          (λ p t. k s p (drop n batch) t) s
          (λ p t. e s p (drop n batch) t (omega (arith, length-drop n batch))))
  ]

  round_total :
      (fuel : ℕ) (k : State → ℕ → List ℕ → ℕ → State × Async ℕ) (r : Race) (s : State) (pos : ℕ)
      (batch : List ℕ) (total : ℕ)
      → length batch ≤ suc fuel
      → Ends fuel k
      → (write_round storage k r s pos batch total).1 ≢ exhausted
  round_total fuel k (interrupted c) s pos batch total f e = interrupt_total c
  round_total fuel k written s pos batch total f e =
      after_total fuel k (write_at s pos batch).0 (write_at s pos batch).1 pos batch total f e

  write_loop_total :
      (fuel : ℕ) (races : ℕ → Race) (i : ℕ) → Ends fuel (write_loop storage fuel races i)
  unfolding write_loop
  write_loop_total fuel races i s pos [] total f = λ h. cc
  write_loop_total zero races i s pos (b ∷ bs) total f = absurd (omega arith)
  write_loop_total (suc fuel) races i s pos (b ∷ bs) total f =
      round_total fuel (write_loop storage fuel races (suc i)) (races i) s pos (b ∷ bs) total f
        (write_loop_total fuel races (suc i))

  pub write_all_at_total :
      (races : ℕ → Race) (s : State) (pos : ℕ) (batch : List ℕ)
      → (write_all_at storage races s pos batch).1 ≢ exhausted
  unfolding write_all_at
  write_all_at_total races s pos batch =
      write_loop_total (length batch) races 0 s pos batch 0 (omega arith)
