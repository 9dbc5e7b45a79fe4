-- ===== src/Entry/Accounts.antt =====
-- What a connection of the whole program is given (src/entry/nano_pow_server.cpp).
use pow_server.Prelude.{
  ℕ, ◌+◌, ◌-◌, ◌<◌, ◌≡◌, refl, ap, Bool, List, [], ◌∷◌, ◌++◌, Text, ◌==◌, if◌then◌else◌, arith,
  length, length-append, take, drop, Bool-cases, ==_iff, inl, inr,
}
use pow_server.Web.Pipeline.{
  Pipeline, respond, on_write, start_front, queue_on_write, is_full, read,
}
use pow_server.Web.Session.{write_json_response}
use pow_server.Web.Socket.{Socket, write_response, write_queued_messages, on_sent}
use pow_server.Config.{Config}
use pow_server.Handler.{Libraries, Reply}
use pow_server.Handler.Accounting.{tally, reply_client}
use pow_server.Entry.Program.{
  Connection, http, websocket, WebLibraries, update, give, deliver, deliver_all,
}

-- How many responses a queue was given: those whose write was started, and those that wait
-- behind the one that is written.
abbrev pub given_to : List Text → List Text → ℕ
given_to items started = length started + (length items - 1)

length-take_one : (xs : List Text) → length (take 1 xs) ≡ (if length xs == 0 then 0 else 1)
length-take_one [] = refl
length-take_one (x ∷ xs) = ground arith

length-drop_one : (xs : List Text) → length (drop 1 xs) ≡ length xs - 1
length-drop_one [] = omega arith
length-drop_one (x ∷ xs) = omega arith

pub respond-given :
    (msg : Text) (p : Pipeline)
    → given_to (respond msg p).items (respond msg p).started ≡ given_to p.items p.started + 1
unfolding respond start_front
respond-given msg p = ground (
  arith,
  length-append p.items (msg ∷ []),
  length-take_one (p.items ++ msg ∷ []),
  length-append p.started (take 1 (p.items ++ msg ∷ [])),
)

pub on_write-given :
    (close : Bool) (p : Pipeline)
    → 0 < length p.items
    → given_to (on_write close p).items (on_write close p).started ≡ given_to p.items p.started
unfolding on_write queue_on_write is_full read start_front
on_write-given close p some_item = ground (
  arith,
  length-drop_one p.items,
  length-take_one (drop 1 p.items),
  length-append p.started (take 1 (drop 1 p.items)),
)

-- How many messages a WebSocket session was given: those whose write ended, and its queue.
abbrev pub given_socket : Socket → ℕ
given_socket s = s.completed + length s.send_queue

pub socket-given :
    (msg : Text) (s : Socket) → given_socket (write_response msg s) ≡ given_socket s + 1
unfolding write_response write_queued_messages
socket-given msg s = ground (arith, length-append s.send_queue (msg ∷ []))

pub on_sent-given :
    (fails : Bool) (s : Socket)
    → 0 < length s.send_queue
    → given_socket (on_sent fails s) ≡ given_socket s
unfolding on_sent write_queued_messages
on_sent-given fails s some_message = ground (arith, length-drop_one s.send_queue)

-- How many responses a connection was given, those posted to the strand of a WebSocket included.
abbrev pub given : Connection → ℕ
given (http s) = given_to s.pipeline.items s.pipeline.started
given (websocket s posts) = given_socket s + length posts

-- A connection that is given `n` more is the only one whose account changes.
pub update-given :
    (i k n : ℕ) (c : Connection) (connections : ℕ → Connection)
    → given c ≡ given (connections i) + n
    → given (update i c connections k) ≡ given (connections k) + (if i == k then n else 0)
update-given i k n c connections more = elim (Bool-cases (k == i)) [
  | inl here ↦
      let same = ap (λ j. given (connections j)) ((==_iff k i).0 here) in
      rw here (ground (arith, same))
  | inr other ↦ rw other (ground arith)
]

module _ {Double Float Tree Regex : Type 0} (lib : Libraries Double Float Tree)
    (web : WebLibraries Regex) (config : Config) where
  give-given : (body : Text) (c : Connection) → given (give lib web config body c) ≡ given c + 1
  unfolding give write_json_response
  give-given body (http s) = respond-given _ s.pipeline
  give-given body (websocket s posts) = omega (arith, length-append posts (body ∷ []))

  deliver-given :
      (r : Reply) (connections : ℕ → Connection) (k : ℕ)
      → given (deliver lib web config r connections k)
        ≡ given (connections k) + (if r.client == k then 1 else 0)
  unfolding deliver
  deliver-given r connections k =
      update-given r.client k 1 (give lib web config r.body (connections r.client)) connections
        (give-given r.body (connections r.client))

  -- What is delivered to a connection is what is for it.
  pub deliver_all-given :
      (rs : List Reply) (connections : ℕ → Connection) (k : ℕ)
      → given (deliver_all lib web config rs connections k)
        ≡ given (connections k) + tally reply_client k rs
  unfolding deliver_all
  deliver_all-given [] connections k = omega arith
  deliver_all-given (r ∷ rs) connections k = omega (
    arith,
    deliver_all-given rs (deliver lib web config r connections) k,
    deliver-given r connections k,
  )
