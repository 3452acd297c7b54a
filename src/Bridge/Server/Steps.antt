-- ===== src/Bridge/Server/Steps.antt =====
-- What can happen to the server: its public calls, and the handlers that Boost calls.
use new_robot.Base.{ℕ, ◌≡◌, ◌≢◌, Bool, false, some, List, ◌∷◌, ◌++◌, All}
use new_robot.Bridge.Server.{
  Server, Bytes, ErrorCode, handle_accept, handle_read, handle_write, new_server, send_message,
  stop,
}

-- One step: a call, bytes that arrive, or the end of an operation that waits. The socket that is
-- accepted is a new object, and a write is aborted only when its socket was closed.
pub data Step : Server → Server → Type 0 where
  send : (m : Bytes) (s : Server) → Step s (send_message m s)
  accept :
      (k : ℕ) (e : ErrorCode) (s : Server)
      → All (λ (w : ℕ × Bytes). w.0 ≢ k) s.writing
      → Step s (handle_accept k e s)
  receive :
      (bytes : Bytes) (s : Server)
      → Step s (record s { receive_buffer = s.receive_buffer ++ bytes })
  read :
      (k : ℕ) (e : ErrorCode) (waiting : List ℕ) (s : Server)
      → Step s (handle_read k e (record s { reading = waiting }))
  written :
      (k : ℕ) (m : Bytes) (e : ErrorCode) (ws vs : List (ℕ × Bytes)) (s : Server)
      → s.writing ≡ ws ++ (k, m) ∷ vs
      → (e ≡ ErrorCode.operation_aborted → s.client_socket ≡ some k → s.client_open ≡ false)
      → Step s (handle_write k e (record s { writing = ws ++ vs }))
  stopped : (s : Server) → Step s (stop s)

pub data Reachable (has_callback : Bool) : Server → Type 0 where
  begin : Reachable has_callback (new_server has_callback)
  next : {s t : Server} → Reachable has_callback s → Step s t → Reachable has_callback t
