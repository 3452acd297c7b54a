-- ===== src/Canopen/SdoQueue/Order.antt =====
-- The queue against its contract: tasks begin in the order in which they are handed in, each once,
-- the next when the one before it is complete.
use mathlib.Core.List.{append_assoc}
use new_robot.Base.{
  ℕ, zero, suc, ◌≡◌, refl, sym, ap, ◌∙◌, ◌⊎◌, inl, inr, Bool, true, false, not, Option, none, some,
  List, [], ◌∷◌, ◌++◌, All, if-branches,
}
use new_robot.Canopen.SdoQueue.{
  Flight, SdoQueue, new_queue, next_task, enqueue, complete_and_pump, mark, finish,
}

module _ {ℓ} {A : Type ℓ} where
  -- The tasks begun, the oldest first.
  unfoldable pub begun : List (Flight A) → List A
  begun [] = []
  begun (f ∷ fs) = begun fs ++ f.task ∷ []

  -- All but the newest are complete, and the newest is unless the queue is in flight.
  abbrev pub OneOpen : Bool → List (Flight A) → Type 0
  OneOpen busy [] = busy ≡ false
  OneOpen busy (f ∷ fs) = (f.finished ≡ not busy) × All (λ (g : Flight A). g.finished ≡ true) fs

  -- The contract, for the tasks that were handed in.
  pub record Serves (handed_in : List A) (q : SdoQueue A) : Type ℓ where
    pub in_order : begun q.flights ++ q.queue ≡ handed_in
    pub one_open : OneOpen q.in_flight q.flights
    pub none_waits : q.in_flight ≡ false → q.queue ≡ []

  closed_open :
      (fs : List (Flight A)) → All (λ (g : Flight A). g.finished ≡ true) fs → OneOpen false fs
  closed_open [] h = refl
  closed_open (f ∷ fs) h = h

  open_closed :
      (fs : List (Flight A)) → OneOpen false fs → All (λ (g : Flight A). g.finished ≡ true) fs
  open_closed [] h = tt
  open_closed (f ∷ fs) h = h

  next_task-Serves :
      (h ts : List A) (q : SdoQueue A)
      → begun q.flights ++ ts ≡ h
      → All (λ (g : Flight A). g.finished ≡ true) q.flights
      → Serves h (next_task ts q)
  unfolding next_task begun
  next_task-Serves h [] q order closed = record {
    in_order = order;
    one_open = closed_open q.flights closed;
    none_waits = λ _. refl;
  }
  next_task-Serves h (t ∷ ts) q order closed = record {
    in_order = append_assoc (begun q.flights) (t ∷ []) ts ∙ order;
    one_open = (refl, closed);
    none_waits = λ e. absurd (cc e);
  }

  pub enqueue-Serves :
      (h : List A) (t : A) (q : SdoQueue A) → Serves h q → Serves (h ++ t ∷ []) (enqueue (some t) q)
  unfolding enqueue
  enqueue-Serves h t q s =
      let order : begun q.flights ++ (q.queue ++ t ∷ []) ≡ h ++ t ∷ [] =
        sym (append_assoc (begun q.flights) q.queue (t ∷ []))
        ∙ ap (λ (l : List A). l ++ t ∷ []) s.in_order in
      if-branches (Serves (h ++ t ∷ [])) q.in_flight
        (λ e. record {
          in_order = order;
          one_open = s.one_open;
          none_waits = λ f. absurd (cc (e, f));
        })
        λ e.
          next_task-Serves (h ++ t ∷ []) (q.queue ++ t ∷ []) q order
            (open_closed q.flights (rw (← e) s.one_open))

  -- A first call is that of the newest task, and completes it; any other changes nothing.
  mark-closed :
      (k : ℕ) (fs : List (Flight A))
      → All (λ (g : Flight A). g.finished ≡ true) fs
      → mark k fs ≡ (false, fs)
  unfolding mark
  mark-closed k [] h = refl
  mark-closed zero (f ∷ fs) (h, hs) =
      ap (λ (b : Bool). (not b, record f { finished = true } ∷ fs)) h
      ∙ ap (λ (b : Bool). (false, record f { finished = b } ∷ fs)) (sym h)
  mark-closed (suc k) (f ∷ fs) (h, hs) = rw (mark-closed k fs hs) refl

  mark-open :
      (k : ℕ) (busy : Bool) (fs : List (Flight A))
      → OneOpen busy fs
      → (mark k fs ≡ (false, fs))
        ⊎ (((mark k fs).0 ≡ true)
            × All (λ (g : Flight A). g.finished ≡ true) (mark k fs).1
            × (begun (mark k fs).1 ≡ begun fs))
  unfolding mark begun
  mark-open k busy [] h = inl refl
  mark-open zero true (f ∷ fs) (h, hs) = inr (rw h refl, (refl, hs), refl)
  mark-open zero false (f ∷ fs) h = inl (mark-closed zero (f ∷ fs) h)
  mark-open (suc k) busy (f ∷ fs) (h, hs) = inl (rw (mark-closed k fs hs) refl)

  pub finish-Serves : (h : List A) (k : ℕ) (q : SdoQueue A) → Serves h q → Serves h (finish k q)
  unfolding finish complete_and_pump
  finish-Serves h k q s = elim (mark-open k q.in_flight q.flights s.one_open) [
    | inl same ↦
        rw same (record { in_order = s.in_order; one_open = s.one_open; none_waits = s.none_waits })
    | inr (first, closed, order) ↦ rw first (
        next_task-Serves h q.queue (record q { flights = (mark k q.flights).1 })
          (ap (λ (l : List A). l ++ q.queue) order ∙ s.in_order) closed)
  ]

-- What is done to the queue: a task handed in, or a call of a completion.
pub data QueueEvent {ℓ} (A : Type ℓ) : Type ℓ where
  hand_in : Option A → QueueEvent A
  complete : ℕ → QueueEvent A

module _ {ℓ} {A : Type ℓ} where
  unfoldable pub queue_event : QueueEvent A → SdoQueue A → SdoQueue A
  unfolding enqueue finish
  queue_event (QueueEvent.hand_in t) q = enqueue t q
  queue_event (QueueEvent.complete k) q = finish k q

  unfoldable pub queue_events : List (QueueEvent A) → SdoQueue A → SdoQueue A
  unfolding queue_event
  queue_events [] q = q
  queue_events (e ∷ es) q = queue_events es (queue_event e q)

  -- The tasks handed in, after those of `h`.
  unfoldable pub handed_in : List A → List (QueueEvent A) → List A
  handed_in h [] = h
  handed_in h (QueueEvent.hand_in none ∷ es) = handed_in h es
  handed_in h (QueueEvent.hand_in (some t) ∷ es) = handed_in (h ++ t ∷ []) es
  handed_in h (QueueEvent.complete k ∷ es) = handed_in h es

  queue_events-Serves :
      (h : List A) (es : List (QueueEvent A)) (q : SdoQueue A)
      → Serves h q
      → Serves (handed_in h es) (queue_events es q)
  unfolding queue_events queue_event handed_in enqueue
  queue_events-Serves h [] q s = s
  queue_events-Serves h (QueueEvent.hand_in none ∷ es) q s = queue_events-Serves h es q s
  queue_events-Serves h (QueueEvent.hand_in (some t) ∷ es) q s =
      queue_events-Serves (h ++ t ∷ []) es (enqueue (some t) q) (enqueue-Serves h t q s)
  queue_events-Serves h (QueueEvent.complete k ∷ es) q s =
      queue_events-Serves h es (finish k q) (finish-Serves h k q s)

  -- The queue keeps its contract: after any history of tasks and completions, completions called
  -- twice or out of turn among them, the tasks begun and those that wait are the tasks handed in,
  -- in their order; at most the newest begun is open, which is when the queue is in flight; and
  -- none waits otherwise.
  pub new_queue-Serves :
      (es : List (QueueEvent A)) → Serves (handed_in [] es) (queue_events es new_queue)
  unfolding begun
  new_queue-Serves es =
      queue_events-Serves [] es new_queue
        (record { in_order = refl; one_open = refl; none_waits = λ _. refl })
