-- ===== src/Canopen/SdoQueue/Drain.antt =====
-- The queue runs empty.
use mathlib.Core.List.{append-nil}
use new_robot.Base.{
  ℕ, zero, suc, ◌+◌, ◌≡◌, refl, sym, ◌∙◌, ◌⊎◌, inl, inr, Bool, true, false, List, [], ◌∷◌, ◌++◌,
  length, if◌then◌else◌, arith,
}
use new_robot.Canopen.SdoQueue.{
  Flight, SdoQueue, new_queue, next_task, complete_and_pump, mark, finish, is_idle, pending_count,
}
use new_robot.Canopen.SdoQueue.Order.{
  begun, OneOpen, Serves, finish-Serves, QueueEvent, queue_events, handed_in, new_queue-Serves,
}

module _ {ℓ} {A : Type ℓ} where
  -- The open task completes, so many times.
  unfoldable pub finish_all : ℕ → SdoQueue A → SdoQueue A
  unfolding finish
  finish_all zero q = q
  finish_all (suc n) q = finish_all n (finish 0 q)

  finish-pending :
      (ts : List A) (busy : Bool) (fs : List (Flight A))
      → busy ≡ true
      → OneOpen busy fs
      → let q : SdoQueue A = record { queue = ts; in_flight = busy; flights = fs } in
        pending_count (finish 0 q) + 1 ≡ pending_count q
  unfolding finish mark complete_and_pump next_task
  finish-pending ts false fs e one = absurd (cc e)
  finish-pending ts true [] e one = absurd (cc one)
  finish-pending [] true (f ∷ fs) e (one, _) = rw one refl
  finish-pending (t ∷ ts) true (f ∷ fs) e (one, _) = rw one (omega arith)

  flying :
      (ts : List A) (busy : Bool)
      → (busy ≡ false → ts ≡ [])
      → (length ts + (if busy then 1 else 0) ≡ 0) ⊎ (busy ≡ true)
  flying ts true waits = inr refl
  flying ts false waits = inl (rw (waits refl) refl)

  finish_all-idle :
      (h : List A) (n : ℕ) (q : SdoQueue A)
      → pending_count q ≡ n
      → Serves h q
      → (is_idle (finish_all n q) ≡ true) × (begun (finish_all n q).flights ≡ h)
  unfolding finish_all
  finish_all-idle h zero q e s = (ground (arith, e), no_more q.queue (ground (arith, e)) s.in_order)
    where
      no_more : (ts : List A) → length ts ≡ 0 → begun q.flights ++ ts ≡ h → begun q.flights ≡ h
      no_more [] _ o = sym (append-nil (begun q.flights)) ∙ o
      no_more (t ∷ ts) e' o = absurd (omega (arith, e'))
  finish_all-idle h (suc n) q e s = elim (flying q.queue q.in_flight s.none_waits) [
    | inl none_left ↦ absurd (omega (arith, e, none_left))
    | inr busy ↦
        finish_all-idle h n (finish 0 q)
          (omega (arith, finish-pending q.queue q.in_flight q.flights busy s.one_open, e))
          (finish-Serves h 0 q s)
  ]

  -- Nothing is lost: after any history, as many completions of the open task as PendingCount says
  -- leave the queue idle, with every task that was handed in begun, in order.
  pub queue_events-drained :
      (es : List (QueueEvent A))
      → let q = queue_events es new_queue in
        let r = finish_all (pending_count q) q in
        (is_idle r ≡ true) × (begun r.flights ≡ handed_in [] es)
  queue_events-drained es =
      let q = queue_events es new_queue in
      finish_all-idle (handed_in [] es) (pending_count q) q refl (new_queue-Serves es)
