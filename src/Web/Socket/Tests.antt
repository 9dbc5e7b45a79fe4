-- ===== src/Web/Socket/Tests.antt =====
-- The theorems on WebSocket sessions at concrete inputs.
use pow_server.Prelude.{◌<◌, ◌≡◌, refl, true, false, [], ◌∷◌, codes, arith, length}
use pow_server.Web.Socket.{
  Socket, new_socket, on_accept, write_response, write_queued_messages, on_sent, on_message_read,
}
use pow_server.Web.Socket.History.{
  Reach, initial, later, accepts, reads_message, responds, IsSound, Reach-IsSound,
}
use pow_server.Web.Socket.Stuck.{here, next, failed-Run}

-- The handshake is complete, and a message was read.
abbrev open_socket : Socket
open_socket = on_message_read (on_accept false new_socket)

reading : 0 < (on_accept false new_socket).reads
unfolding on_accept
reading = omega arith

open_socket-Reach : Reach [] open_socket
open_socket-Reach = later (later initial (accepts false refl)) (reads_message reading)

-- Two messages: one is written, the other one waits.
abbrev two_messages : Socket
two_messages = write_response (codes "b") (write_response (codes "a") open_socket)

two_messages-Reach : Reach (codes "a" ∷ codes "b" ∷ []) two_messages
two_messages-Reach = later (later open_socket-Reach (responds (codes "a"))) (responds (codes "b"))

Reach-IsSound_example : IsSound (codes "a" ∷ codes "b" ∷ []) two_messages
Reach-IsSound_example = Reach-IsSound two_messages-Reach

writing : two_messages.completed < length two_messages.started
unfolding write_response write_queued_messages on_message_read on_accept
writing = omega arith

one_waits : 1 < length two_messages.send_queue
unfolding write_response write_queued_messages on_message_read on_accept
one_waits = omega arith

-- A third message, behind the failed write.
abbrev third : Socket
third = write_response (codes "c") (on_sent true two_messages)

failed-Run_example : (third.started ≡ two_messages.started) × (0 < length third.send_queue)
failed-Run_example =
    failed-Run two_messages-Reach writing one_waits (next here (responds (codes "c")))
