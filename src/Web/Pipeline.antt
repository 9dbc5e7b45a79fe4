-- ===== src/Web/Pipeline.antt =====
-- src/workserver/webserver.hpp: the pipeline of an http_session, from a request that is read to
-- the response that is written.
pub mod History
pub mod Order
pub mod Racing
pub mod Limit
use pow_server.Prelude.{
  ℕ, ◌+◌, ◌-◌, ◌<◌, ◌≡◌, Bool, true, false, not, List, [], ◌∷◌, ◌++◌, Option, none, some, Text, leb,
  ◌==◌, if◌then◌else◌, is_nil, length, drop, take,
}

-- The queue's items; the writes that were started, oldest first; how many reads are under way; and
-- whether the sending side is shut down.
pub record Pipeline : Type 0 where
  pub items : List Text
  pub started : List Text
  pub reads : ℕ
  pub closed : Bool

abbrev pub limit : ℕ
limit = 8

unfoldable pub is_full : Pipeline → Bool
is_full p = leb limit (length p.items)

-- `(*items_.front ()) ()`
unfoldable pub start_front : Pipeline → Pipeline
start_front p = record p { started = p.started ++ take 1 p.items }

-- queue::operator ()
unfoldable pub respond : Text → Pipeline → Pipeline
unfolding start_front
respond msg p =
    let grown : Pipeline = record p { items = p.items ++ msg ∷ [] } in
    if length grown.items == 1 then start_front grown else grown

-- http_session::read
unfoldable pub read : Pipeline → Pipeline
read p = record p { reads = p.reads + 1 }

-- queue::on_write, which also says whether to read again
unfoldable pub queue_on_write : Pipeline → Pipeline × Bool
unfolding is_full start_front
queue_on_write p =
    let rest : Pipeline = record p { items = drop 1 p.items } in
    (if is_nil rest.items then rest else start_front rest, is_full p)

-- http_session::on_write, for a write that came out well
unfoldable pub on_write : Bool → Pipeline → Pipeline
unfolding queue_on_write read
on_write close p =
    let (q, was_full) = queue_on_write p in
    if close then record p { closed = true } else if was_full then read q else q

-- The read that is complete is no longer under way.
unfoldable pub begin_read : Pipeline → Pipeline
begin_read p = record p { reads = p.reads - 1 }

-- `if (!queue_.is_full ()) read ();`
unfoldable pub read_next : Pipeline → Pipeline
unfolding is_full read
read_next p = if not (is_full p) then read p else p

-- http_session::on_read for a request that is no upgrade: the handler responds at once, or keeps
-- the session to respond later.
unfoldable pub on_read : Option Text → Pipeline → Pipeline
unfolding begin_read read_next respond
on_read answer p =
    read_next (elim answer [ none ↦ begin_read p | some msg ↦ respond msg (begin_read p) ])

-- `run` on a new session, up to the first read.
abbrev pub accepted : Pipeline
accepted = record { items = []; started = []; reads = 1; closed = false }
