-- ===== src/Canopen/SdoQueue.antt =====
-- The queue of SDO tasks with one in flight: include/canopen_hw/sdo_single_flight.hpp. A task is any
-- value. A locked section and the Dispatch behind it are one step: no other task can be dispatched
-- between the two, since the queue is in flight then and the task's completion is not made yet.
pub mod Order
pub mod Drain
use new_robot.Base.{
  ℕ, zero, suc, ◌+◌, Bool, true, false, ◌&&◌, not, Option, none, some, List, [], ◌∷◌, ◌++◌, length,
  if◌then◌else◌,
}

-- CompletionState, with the task that it belongs to.
pub record Flight {ℓ} (A : Type ℓ) : Type ℓ where
  pub task : A
  pub finished : Bool

-- The completions made so far are kept, the newest first: a task may call its own late or twice.
pub record SdoQueue {ℓ} (A : Type ℓ) : Type ℓ where
  pub queue : List A
  pub in_flight : Bool
  pub flights : List (Flight A)

module _ {ℓ} {A : Type ℓ} where
  abbrev pub new_queue : SdoQueue A
  new_queue = record { queue = []; in_flight = false; flights = [] }

  abbrev pub dispatch : A → SdoQueue A → SdoQueue A
  dispatch t q = record q { flights = record { task = t; finished = false } ∷ q.flights }

  -- `front` and `pop_front`, and the Dispatch behind the lock.
  unfoldable pub next_task : List A → SdoQueue A → SdoQueue A
  next_task [] q = record q { queue = []; in_flight = false }
  next_task (t ∷ ts) q = dispatch t (record q { queue = ts; in_flight = true })

  -- An empty std::function is none.
  unfoldable pub enqueue : Option A → SdoQueue A → SdoQueue A
  unfolding next_task
  enqueue none q = q
  enqueue (some t) q =
      if q.in_flight
      then record q { queue = q.queue ++ t ∷ [] }
      else next_task (q.queue ++ t ∷ []) q

  unfoldable pub complete_and_pump : SdoQueue A → SdoQueue A
  unfolding next_task
  complete_and_pump q = next_task q.queue q

  -- `compare_exchange_strong` on the completion at `k`, the newest being 0: whether it was the
  -- first call, and the flag set.
  unfoldable pub mark : ℕ → List (Flight A) → Bool × List (Flight A)
  mark k [] = (false, [])
  mark zero (f ∷ fs) = (not f.finished, record f { finished = true } ∷ fs)
  mark (suc k) (f ∷ fs) = let (first, rest) = mark k fs in (first, f ∷ rest)

  unfoldable pub finish : ℕ → SdoQueue A → SdoQueue A
  unfolding mark complete_and_pump
  finish k q =
      let (first, flights) = mark k q.flights in
      let marked = record q { flights = flights } in
      if first then complete_and_pump marked else marked

  abbrev pub is_idle : SdoQueue A → Bool
  is_idle q = not q.in_flight && (elim q.queue [ [] ↦ true | t ∷ ts ↦ false ])

  abbrev pub pending_count : SdoQueue A → ℕ
  pending_count q = length q.queue + (if q.in_flight then 1 else 0)
