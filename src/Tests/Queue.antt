-- ===== src/Tests/Queue.antt =====
-- Three tasks in the SDO queue, for the concrete runs.
use new_robot.Base.{ℕ, ◌≡◌, true, none, some, List, [], ◌∷◌}
use new_robot.Canopen.SdoQueue.{new_queue, is_idle, pending_count}
use new_robot.Canopen.SdoQueue.Order.{
  QueueEvent, Serves, begun, handed_in, queue_events, new_queue-Serves,
}
use new_robot.Canopen.SdoQueue.Drain.{finish_all, queue_events-drained}

-- Task 8 is handed in behind 7; the completion of 7 is called twice.
abbrev history : List (QueueEvent ℕ)
history =
    QueueEvent.hand_in (some 7)
    ∷ QueueEvent.hand_in none
    ∷ QueueEvent.hand_in (some 8)
    ∷ QueueEvent.complete 0
    ∷ QueueEvent.complete 1
    ∷ QueueEvent.hand_in (some 9)
    ∷ []

new_queue-Serves_example : Serves (handed_in [] history) (queue_events history new_queue)
new_queue-Serves_example = new_queue-Serves history

queue_events-drained_example :
    let q = queue_events history new_queue in
    let r = finish_all (pending_count q) q in
    (is_idle r ≡ true) × (begun r.flights ≡ handed_in [] history)
queue_events-drained_example = queue_events-drained history
