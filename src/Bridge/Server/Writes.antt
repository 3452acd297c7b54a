-- ===== src/Bridge/Server/Writes.antt =====
-- The send queue against what was handed to the socket: one write at a time, in order.
use mathlib.Core.List.{append-nil}
use new_robot.Base.{
  ℕ, ◌≡◌, ◌≢◌, refl, sym, ap, ◌∙◌, Bool, true, false, Option, none, some, List, [], ◌∷◌, ◌++◌, ◌==◌,
  ◌&&◌, All, if-branches, arith, if◌then◌else◌,
}
use new_robot.Bridge.Server.Steps.{Step, Reachable}
use new_robot.Bridge.Server.{
  Server, Bytes, ErrorCode, frame, handle_accept, handle_disconnect, handle_read, handle_write,
  is_client, is_none_left, has_client, pop, send_message, start_read, start_write, stop, take_line,
  write_to,
}

-- The messages of the waiting writes to a socket.
unfoldable pub writes_of : ℕ → List (ℕ × Bytes) → List Bytes
writes_of k [] = []
writes_of k ((j, m) ∷ ws) = let others = writes_of k ws in if j == k then m ∷ others else others

abbrev pub first : List Bytes → List Bytes
first [] = []
first (m ∷ ms) = m ∷ []

-- While the server is connected, the socket is open and exactly the front of the queue is being
-- written to it.
abbrev pub InTurn : Server → Type 0
InTurn s =
    (k : ℕ)
    → s.connected ≡ true
    → s.client_socket ≡ some k
    → (s.client_open ≡ true) × (writes_of k s.writing ≡ first s.send_queue)

writes_of-append :
    (k : ℕ) (ws vs : List (ℕ × Bytes)) → writes_of k (ws ++ vs) ≡ writes_of k ws ++ writes_of k vs
unfolding writes_of
writes_of-append k [] vs = refl
writes_of-append k ((j, m) ∷ ws) vs = ground (arith, writes_of-append k ws vs)

writes_of-fresh :
    (k : ℕ) (ws : List (ℕ × Bytes)) → All (λ (w : ℕ × Bytes). w.0 ≢ k) ws → writes_of k ws ≡ []
unfolding writes_of
writes_of-fresh k [] a = refl
writes_of-fresh k ((j, m) ∷ ws) (n, a) = ground (arith, n, writes_of-fresh k ws a)

writes_of-start :
    (k : ℕ) (ws : List (ℕ × Bytes)) (q : List Bytes)
    → writes_of k ws ≡ []
    → writes_of k (ws ++ write_to (some k) true q) ≡ first q
unfolding writes_of
writes_of-start k ws [] e = ap (writes_of k) (append-nil ws) ∙ e
writes_of-start k ws (m ∷ ms) e = rw (writes_of-append k ws ((k, m) ∷ []), e) (ground (arith))

first-append : (q : List Bytes) (m : Bytes) → is_none_left q ≡ false → first (q ++ m ∷ []) ≡ first q
first-append [] m e = absurd (cc e)
first-append (n ∷ ns) m e = refl

none_left : (q : List Bytes) → is_none_left q ≡ true → q ≡ []
none_left [] e = refl
none_left (n ∷ ns) e = absurd (cc e)

send_message-InTurn : (m : Bytes) (s : Server) → InTurn s → InTurn (send_message m s)
unfolding send_message start_write
send_message-InTurn m s h =
    if-branches InTurn (s.connected && has_client s.client_socket && s.client_open)
      (λ _.
        if-branches InTurn (is_none_left s.send_queue)
          (λ e k n c.
            let (opened, waits) = h k n c in
            let empty = none_left s.send_queue e in
            (
              opened,
              rw (c, opened, empty)
                  (writes_of-start k s.writing (frame m ∷ []) (waits ∙ ap first empty)),
            ))
          λ e k n c.
            let (opened, waits) = h k n c in
            (opened, waits ∙ sym (first-append s.send_queue (frame m) e)))
      λ _. h

disconnect-InTurn :
    (k : ℕ) (s : Server) → is_client k s.client_socket ≡ true → InTurn (handle_disconnect k s)
unfolding handle_disconnect
disconnect-InTurn k s i =
    if-branches InTurn (is_client k s.client_socket) (λ _ j e. absurd (cc e))
      λ f. absurd (cc (i, f))

same_socket : (k j : ℕ) → some k ≡ some j → k ≡ j
same_socket k j e = cc e

accept-InTurn :
    (k : ℕ) (e : ErrorCode) (s : Server)
    → All (λ (w : ℕ × Bytes). w.0 ≢ k) s.writing
    → InTurn s
    → InTurn (handle_accept k e s)
unfolding handle_accept start_read
accept-InTurn k ErrorCode.no_error s a h =
    λ j _ e. (refl, rw (← (same_socket k j e)) (writes_of-fresh k s.writing a))
accept-InTurn k ErrorCode.not_found s a h = h
accept-InTurn k ErrorCode.operation_aborted s a h = h
accept-InTurn k ErrorCode.other_error s a h = h

read-InTurn : (k : ℕ) (e : ErrorCode) (s : Server) → InTurn s → InTurn (handle_read k e s)
unfolding handle_read start_read take_line
read-InTurn k e s h = if-branches InTurn (is_client k s.client_socket) (outcome e) λ _. h
  where
    outcome :
        (r : ErrorCode)
        → is_client k s.client_socket ≡ true
        → InTurn (elim r [
          | ErrorCode.no_error ↦ start_read k (take_line s)
          | ErrorCode.not_found ↦ handle_disconnect k s
          | ErrorCode.operation_aborted ↦ s
          | ErrorCode.other_error ↦ handle_disconnect k s
        ])
    outcome ErrorCode.no_error i = h
    outcome ErrorCode.not_found i = disconnect-InTurn k s i
    outcome ErrorCode.operation_aborted i = h
    outcome ErrorCode.other_error i = disconnect-InTurn k s i

front_alone : (m : Bytes) (xs ys q : List Bytes) → xs ++ m ∷ ys ≡ first q → xs ++ ys ≡ []
front_alone m [] ys [] e = absurd (cc e)
front_alone m [] ys (n ∷ ns) e = cc e
front_alone m (x ∷ xs) ys [] e = absurd (cc e)
front_alone m (x ∷ []) ys (n ∷ ns) e = absurd (cc e)
front_alone m (x ∷ y ∷ xs) ys (n ∷ ns) e = absurd (cc e)

writes_of-rest :
    (k : ℕ) (m : Bytes) (ws vs : List (ℕ × Bytes)) (q : List Bytes)
    → writes_of k (ws ++ (k, m) ∷ vs) ≡ first q
    → writes_of k (ws ++ vs) ≡ []
unfolding writes_of
writes_of-rest k m ws vs q e =
    let front : writes_of k ((k, m) ∷ vs) ≡ m ∷ writes_of k vs = ground (arith) in
    writes_of-append k ws vs
    ∙ front_alone m (writes_of k ws) (writes_of k vs) q
        (ap (λ l. writes_of k ws ++ l) (sym front) ∙ sym (writes_of-append k ws ((k, m) ∷ vs)) ∙ e)

writes_of-other :
    (k j : ℕ) (m : Bytes) (ws vs : List (ℕ × Bytes))
    → (k == j) ≡ false
    → writes_of j (ws ++ (k, m) ∷ vs) ≡ writes_of j (ws ++ vs)
unfolding writes_of
writes_of-other k j m [] vs e = rw e refl
writes_of-other k j m ((i, n) ∷ ws) vs e = ground (arith, writes_of-other k j m ws vs e)

is_client-some : (k : ℕ) (c : Option ℕ) → is_client k c ≡ true → c ≡ some k
is_client-some k none e = absurd (cc e)
is_client-some k (some j) e = ap some (ground (arith, e))

is_client-other : (k j : ℕ) (c : Option ℕ) → is_client k c ≡ false → c ≡ some j → (k == j) ≡ false
is_client-other k j none e n = absurd (cc n)
is_client-other k j (some i) e n = rw (← (same_socket i j n)) e

write-InTurn :
    (k : ℕ) (m : Bytes) (e : ErrorCode) (ws vs : List (ℕ × Bytes)) (s : Server)
    → s.writing ≡ ws ++ (k, m) ∷ vs
    → (e ≡ ErrorCode.operation_aborted → s.client_socket ≡ some k → s.client_open ≡ false)
    → InTurn s
    → InTurn (handle_write k e (record s { writing = ws ++ vs }))
unfolding handle_write start_write
write-InTurn k m e ws vs s waiting closed h =
    if-branches InTurn (is_client k s.client_socket)
      (λ i. outcome e closed i (is_client-some k s.client_socket i))
      λ i j n c.
        let (opened, waits) = h j n c in
        (
          opened,
          sym (writes_of-other k j m ws vs (is_client-other k j s.client_socket i c))
              ∙ ap (writes_of j) (sym waiting)
              ∙ waits,
        )
  where
    outcome :
        (r : ErrorCode)
        → (r ≡ ErrorCode.operation_aborted → s.client_socket ≡ some k → s.client_open ≡ false)
        → is_client k s.client_socket ≡ true
        → s.client_socket ≡ some k
        → InTurn (elim r [
          | ErrorCode.no_error ↦
              start_write (record s { writing = ws ++ vs; send_queue = pop s.send_queue })
          | ErrorCode.not_found ↦ handle_disconnect k (record s { writing = ws ++ vs })
          | ErrorCode.operation_aborted ↦ record s { writing = ws ++ vs }
          | ErrorCode.other_error ↦ handle_disconnect k (record s { writing = ws ++ vs })
        ])
    outcome ErrorCode.no_error c i client = λ j n f.
        let (opened, waits) = h k n client in
        let alone =
          writes_of-rest k m ws vs s.send_queue (ap (writes_of k) (sym waiting) ∙ waits) in
        (
          opened,
          rw (client, opened, ← (same_socket k j (sym client ∙ f)))
              (writes_of-start k (ws ++ vs) (pop s.send_queue) alone),
        )
    outcome ErrorCode.not_found c i client = disconnect-InTurn k (record s { writing = ws ++ vs }) i
    outcome ErrorCode.operation_aborted c i client =
        λ j n f. let (opened, _) = h k n client in absurd (cc (opened, c refl client))
    outcome ErrorCode.other_error c i client =
        disconnect-InTurn k (record s { writing = ws ++ vs }) i

step-InTurn : {s t : Server} → InTurn s → Step s t → InTurn t
unfolding stop
step-InTurn h (Step.send m s) = send_message-InTurn m s h
step-InTurn h (Step.accept k e s a) = accept-InTurn k e s a h
step-InTurn h (Step.receive bytes s) = h
step-InTurn h (Step.read k e waiting s) = read-InTurn k e (record s { reading = waiting }) h
step-InTurn h (Step.written k m e ws vs s w c) = write-InTurn k m e ws vs s w c h
step-InTurn h (Step.stopped s) = λ k n _. absurd (cc n)

Reachable-InTurn : {b : Bool} {s : Server} → Reachable b s → InTurn s
Reachable-InTurn Reachable.begin = λ k n _. absurd (cc n)
Reachable-InTurn (Reachable.next r st) = step-InTurn (Reachable-InTurn r) st

-- In every state that the server reaches, while it is connected and has a client, the client's
-- socket is open and exactly the front of the send queue is being written to it, or nothing when
-- the queue is empty.
pub writes_of-Reachable :
    {b : Bool} {s : Server} (k : ℕ)
    → Reachable b s
    → s.connected ≡ true
    → s.client_socket ≡ some k
    → (s.client_open ≡ true) × (writes_of k s.writing ≡ first s.send_queue)
writes_of-Reachable k r = Reachable-InTurn r k
