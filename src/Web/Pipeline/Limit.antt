-- ===== src/Web/Pipeline/Limit.antt =====
-- The limit of queued responses, for handlers that respond at once
-- (src/workserver/webserver.hpp, http_session::queue).
use pow_server.Prelude.{
  ◌-◌, ◌<◌, ◌≡◌, ◌⊎◌, refl, inl, false, List, [], ◌∷◌, some, Text, arith, length, length-append,
  drop,
}
use pow_server.Web.Pipeline.{
  Pipeline, limit, respond, on_write, on_read, accepted, start_front, queue_on_write, is_full, read,
  begin_read, read_next,
}

-- The states of a session whose handlers respond before they return and that keeps alive.
pub data Prompt : Pipeline → Type 0 where
  begun : Prompt accepted
  read_done : {p : Pipeline} (msg : Text) → Prompt p → 0 < p.reads → Prompt (on_read (some msg) p)
  write_done : {p : Pipeline} → Prompt p → 0 < length p.items → Prompt (on_write false p)

-- One read is under way while there is room, and none when the queue is full.
abbrev pub IsPaced : Pipeline → Type 0
IsPaced p = ((p.reads ≡ 1) × (length p.items < limit)) ⊎ ((p.reads ≡ 0) × (length p.items ≡ limit))

length-drop_one : (xs : List Text) → length (drop 1 xs) ≡ length xs - 1
length-drop_one [] = omega arith
length-drop_one (x ∷ xs) = omega arith

read_done-IsPaced :
    (msg : Text) (p : Pipeline) → IsPaced p → 0 < p.reads → IsPaced (on_read (some msg) p)
unfolding on_read begin_read read_next is_full read respond start_front
read_done-IsPaced msg p v busy = ground (arith, length-append p.items (msg ∷ []))

write_done-IsPaced : (p : Pipeline) → IsPaced p → 0 < length p.items → IsPaced (on_write false p)
unfolding on_write queue_on_write is_full read start_front
write_done-IsPaced p v some_item = ground (arith, length-drop_one p.items)

-- If every handler responds before it returns and the connection is kept alive, at most eight
-- responses are queued, exactly one read is under way while there are fewer, and none when there
-- are eight.
pub Prompt-IsPaced : {p : Pipeline} → Prompt p → IsPaced p
Prompt-IsPaced begun = inl (refl, omega arith)
Prompt-IsPaced (read_done {p} msg before busy) =
    read_done-IsPaced msg p (Prompt-IsPaced before) busy
Prompt-IsPaced (write_done {p} before some_item) =
    write_done-IsPaced p (Prompt-IsPaced before) some_item
