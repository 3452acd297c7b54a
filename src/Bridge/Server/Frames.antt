-- ===== src/Bridge/Server/Frames.antt =====
-- The framing by '\n': what sendMessage puts on the wire against what handleRead takes off it.
use mathlib.Core.List.{append-nil, append_assoc}
use new_robot.Base.{
  ℕ, zero, suc, ◌≡◌, ◌≢◌, refl, sym, ap, ◌∙◌, true, some, List, [], ◌∷◌, ◌++◌, length, All, arith,
}
use new_robot.Bridge.Server.{
  Server, Bytes, ErrorCode, newline, frame, get_line, deliver, take_line, start_read, handle_read,
}

-- A message of one line: not empty, and without a '\n'.
abbrev pub IsLine : Bytes → Type 0
IsLine m = (m ≢ []) × All (λ (c : ℕ). c ≢ newline) m

-- The messages as sendMessage sends them.
abbrev pub frames : List Bytes → Bytes
frames [] = []
frames (m ∷ ms) = frame m ++ frames ms

get_line-frame :
    (m rest : Bytes) → All (λ (c : ℕ). c ≢ newline) m → get_line (frame m ++ rest) ≡ (m, rest)
unfolding get_line
get_line-frame [] rest a = refl
get_line-frame (c ∷ cs) rest (n, a) = ground (arith, get_line-frame cs rest a, n)

deliver-line : (m : Bytes) (ms : List Bytes) → m ≢ [] → deliver true m ms ≡ ms ++ m ∷ []
deliver-line [] ms n = absurd (n refl)
deliver-line (c ∷ cs) ms n = refl

-- The handler for a read of the socket that succeeds, so many times.
abbrev pub reads : ℕ → ℕ → Server → Server
reads zero k s = s
reads (suc n) k s = reads n k (handle_read k ErrorCode.no_error s)

handle_read-client :
    (k : ℕ) (s : Server)
    → s.client_socket ≡ some k
    → handle_read k ErrorCode.no_error s ≡ start_read k (take_line s)
unfolding handle_read
handle_read-client k s e = rw e (ground (arith))

take_line-frame :
    (m rest : Bytes) (s : Server)
    → IsLine m
    → s.has_callback ≡ true
    → s.receive_buffer ≡ frame m ++ rest
    → take_line s ≡ record s { receive_buffer = rest; delivered = s.delivered ++ m ∷ [] }
unfolding take_line
take_line-frame m rest s (n, a) callback buffer =
    rw (buffer, callback, get_line-frame m rest a, deliver-line m s.delivered n) refl

-- When the callback is set and the buffer begins with the frames of messages of one line, as many
-- reads of the client deliver these messages, in order, and leave the bytes behind them.
pub reads-frames :
    (ms : List Bytes) (k : ℕ) (rest : Bytes) (s : Server)
    → All IsLine ms
    → s.client_socket ≡ some k
    → s.has_callback ≡ true
    → s.receive_buffer ≡ frames ms ++ rest
    → ((reads (length ms) k s).delivered ≡ s.delivered ++ ms)
      × ((reads (length ms) k s).receive_buffer ≡ rest)
unfolding start_read
reads-frames [] k rest s a client callback buffer = (sym (append-nil s.delivered), buffer)
reads-frames (m ∷ ms) k rest s ((n, a), lines) client callback buffer =
    let taken = record s {
      receive_buffer = frames ms ++ rest;
      delivered = s.delivered ++ m ∷ [];
    } in
    let read : handle_read k ErrorCode.no_error s ≡ start_read k taken =
      handle_read-client k s client
      ∙ ap (start_read k) (
          take_line-frame m (frames ms ++ rest) s (n, a) callback
            (buffer ∙ append_assoc (frame m) (frames ms) rest)) in
    let (delivers, leaves) =
      reads-frames ms k rest (start_read k taken) lines client callback refl in
    rw (ap (reads (length ms) k) read) (delivers ∙ append_assoc s.delivered (m ∷ []) ms, leaves)
