-- ===== src/Tests/Bridge.antt =====
-- A client that is sent two messages, and one that sends them, for the concrete runs.
use new_robot.Base.{◌≡◌, refl, true, some, [], ◌∷◌, ◌++◌, All, arith}
use new_robot.Bridge.Server.{
  Server, Bytes, ErrorCode, handle_accept, handle_write, new_server, newline, send_message,
}
use new_robot.Bridge.Server.Steps.{Step, Reachable}
use new_robot.Bridge.Server.Writes.{first, writes_of, writes_of-Reachable}
use new_robot.Bridge.Server.Frames.{IsLine, reads, reads-frames}

abbrev line : Bytes
line = 65 ∷ 66 ∷ []

abbrev other_line : Bytes
other_line = 67 ∷ []

abbrev accepted : Server
accepted = handle_accept 1 ErrorCode.no_error (new_server true)

abbrev sent : Server
sent = send_message other_line (send_message line accepted)

abbrev after_write : Server
after_write = handle_write 1 ErrorCode.no_error (record sent { writing = [] })

after_write-Reachable : Reachable true after_write
unfolding handle_accept send_message
after_write-Reachable =
    Reachable.next
      (Reachable.next
        (Reachable.next
          (Reachable.next Reachable.begin (Step.accept 1 ErrorCode.no_error (new_server true) tt))
          (Step.send line accepted))
        (Step.send other_line (send_message line accepted)))
      (Step.written 1 (line ++ newline ∷ []) ErrorCode.no_error [] [] sent refl λ e. absurd (cc e))

after_write-connected : (after_write.connected ≡ true) × (after_write.client_socket ≡ some 1)
unfolding handle_accept send_message handle_write
after_write-connected = (refl, refl)

writes_of-Reachable_example :
    (after_write.client_open ≡ true)
    × (writes_of 1 after_write.writing ≡ first after_write.send_queue)
writes_of-Reachable_example =
    writes_of-Reachable 1 after_write-Reachable after_write-connected.0 after_write-connected.1

-- The buffer holds both lines and the beginning of a third.
abbrev received : Server
received = record accepted { receive_buffer = 65 ∷ 66 ∷ 10 ∷ 67 ∷ 10 ∷ 68 ∷ [] }

lines-IsLine : All IsLine (line ∷ other_line ∷ [])
lines-IsLine = (
  ((λ e. absurd (cc e)), (omega arith, (omega arith, tt))),
  (((λ e. absurd (cc e)), (omega arith, tt)), tt),
)

received-client : received.client_socket ≡ some 1
unfolding handle_accept
received-client = refl

received-callback : received.has_callback ≡ true
unfolding handle_accept
received-callback = refl

reads-frames_example :
    ((reads 2 1 received).delivered ≡ received.delivered ++ line ∷ other_line ∷ [])
    × ((reads 2 1 received).receive_buffer ≡ 68 ∷ [])
reads-frames_example =
    reads-frames (line ∷ other_line ∷ []) 1 (68 ∷ []) received lines-IsLine received-client
      received-callback refl
