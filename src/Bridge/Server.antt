-- ===== src/Bridge/Server.antt =====
-- The bridge's server for one client: reference/ros1/tcp_bridge/src/tcp_server.cpp. Every handler
-- runs on the one strand, so it is a step. A socket is a number, one for each object of
-- startAccept. Boost's part is the operations handed to it (`writing`, `reading`), the
-- results that it calls the handlers with, and the bytes that it puts into the buffer.
pub mod Steps
pub mod Writes
pub mod Frames
use new_robot.Base.{
  ℕ, Bool, true, false, ◌&&◌, Option, none, some, List, [], ◌∷◌, ◌++◌, ◌==◌, if◌then◌else◌,
}

-- boost::system::error_code.
pub data ErrorCode : Type 0 where
  no_error : ErrorCode
  not_found : ErrorCode
  operation_aborted : ErrorCode
  other_error : ErrorCode

-- A std::string, as its bytes.
abbrev pub Bytes : Type 0
Bytes = List ℕ

-- '\n'
abbrev pub newline : ℕ
newline = 10

-- `has_callback`: whether message_callback_ is set. `delivered`: its calls. `client_open`: whether
-- the client's socket is open. `writing`, `reading`: the asynchronous operations that wait.
pub record Server : Type 0 where
  pub client_socket : Option ℕ
  pub client_open : Bool
  pub connected : Bool
  pub send_queue : List Bytes
  pub receive_buffer : Bytes
  pub has_callback : Bool
  pub writing : List (ℕ × Bytes)
  pub reading : List ℕ
  pub delivered : List Bytes

-- `socket == client_socket_`
abbrev pub is_client : ℕ → Option ℕ → Bool
is_client k none = false
is_client k (some j) = k == j

abbrev pub write_to : Option ℕ → Bool → List Bytes → List (ℕ × Bytes)
write_to (some k) true (m ∷ ms) = (k, m) ∷ []
write_to _ _ _ = []

unfoldable pub start_write : Server → Server
start_write s = record s {
  writing = s.writing ++ write_to s.client_socket s.client_open s.send_queue;
}

unfoldable pub start_read : ℕ → Server → Server
start_read k s = record s { reading = s.reading ++ k ∷ [] }

-- The socket that is left behind is closed, and nothing reads its state again.
unfoldable pub handle_disconnect : ℕ → Server → Server
handle_disconnect k s =
    if is_client k s.client_socket
    then record s {
      connected = false;
      client_socket = none;
      client_open = false;
      receive_buffer = [];
      send_queue = [];
    }
    else s

unfoldable pub handle_accept : ℕ → ErrorCode → Server → Server
unfolding start_read
handle_accept k ErrorCode.no_error s = start_read k (record s {
  client_socket = some k;
  client_open = true;
  connected = true;
  receive_buffer = [];
  send_queue = [];
})
handle_accept k _ s = s

-- std::getline: the bytes before the first '\n' and those behind it, or all.
unfoldable pub get_line : Bytes → Bytes × Bytes
get_line [] = ([], [])
get_line (c ∷ cs) =
    let (line, rest) = get_line cs in if c == newline then ([], cs) else (c ∷ line, rest)

abbrev pub deliver : Bool → Bytes → List Bytes → List Bytes
deliver true (c ∷ cs) ms = ms ++ (c ∷ cs) ∷ []
deliver _ _ ms = ms

unfoldable pub take_line : Server → Server
unfolding get_line
take_line s =
    let (line, rest) = get_line s.receive_buffer in
    record s { receive_buffer = rest; delivered = deliver s.has_callback line s.delivered }

-- A full buffer without a line (`not_found`) and any other error but an abort disconnect; the text of
-- the warning differs.
unfoldable pub handle_read : ℕ → ErrorCode → Server → Server
unfolding start_read take_line handle_disconnect
handle_read k e s =
    if is_client k s.client_socket
    then (elim e [
      | ErrorCode.no_error ↦ start_read k (take_line s)
      | ErrorCode.not_found ↦ handle_disconnect k s
      | ErrorCode.operation_aborted ↦ s
      | ErrorCode.other_error ↦ handle_disconnect k s
    ])
    else s

-- json_message + "\n"
abbrev pub frame : Bytes → Bytes
frame m = m ++ newline ∷ []

abbrev pub is_none_left : List Bytes → Bool
is_none_left [] = true
is_none_left (m ∷ ms) = false

abbrev pub has_client : Option ℕ → Bool
has_client none = false
has_client (some k) = true

unfoldable pub send_message : Bytes → Server → Server
unfolding start_write
send_message m s =
    let queued = record s { send_queue = s.send_queue ++ frame m ∷ [] } in
    if s.connected && has_client s.client_socket && s.client_open
    then (if is_none_left s.send_queue then start_write queued else queued)
    else s

abbrev pub pop : List Bytes → List Bytes
pop [] = []
pop (m ∷ ms) = ms

unfoldable pub handle_write : ℕ → ErrorCode → Server → Server
unfolding start_write handle_disconnect
handle_write k e s =
    if is_client k s.client_socket
    then (elim e [
      | ErrorCode.no_error ↦ start_write (record s { send_queue = pop s.send_queue })
      | ErrorCode.not_found ↦ handle_disconnect k s
      | ErrorCode.operation_aborted ↦ s
      | ErrorCode.other_error ↦ handle_disconnect k s
    ])
    else s

unfoldable pub stop : Server → Server
stop s = record s { connected = false; client_open = false }

abbrev pub new_server : Bool → Server
new_server has_callback = record {
  client_socket = none;
  client_open = false;
  connected = false;
  send_queue = [];
  receive_buffer = [];
  has_callback = has_callback;
  writing = [];
  reading = [];
  delivered = [];
}
