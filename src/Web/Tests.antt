-- ===== src/Web/Tests.antt =====
-- The theorems on the web server at concrete inputs.
use pow_server.Prelude.{
  ℕ, ◌≡◌, refl, true, false, List, [], ◌∷◌, ◌++◌, length, ◌<◌, ◌-◌, ◌^◌, ◌≤◌, none, some, Text,
  codes, arith, false, text_eq, if◌then◌else◌,
}
use pow_server.Web.Endpoints.{RestEndpoint, get_verb, same_verb, find_endpoint}
use pow_server.Web.Reference.{plain_regexes, init}
use pow_server.Web.Mime.{mime_type, extension, type_of, iequals, to_lower}
use pow_server.Web.Pages.{
  Opened, opened, no_such_file, StaticPages, page, handle_request, is_absolute, has_dots, send_page,
  send_index, send_file, requested_path, path_cat, trim, ends_in_slash,
}
use pow_server.Web.Pipeline.{
  Pipeline, is_full, respond, on_write, on_read, accepted, start_front, queue_on_write, read,
  begin_read, read_next,
}
use pow_server.Web.Pipeline.Limit.{Prompt, begun, IsPaced, Prompt-IsPaced}
use pow_server.Web.Pipeline.Order.{HasOrder, Reach-IsInOrder}
use pow_server.Web.Pipeline.History.{History, Step, Reach, initial, later, respond_later}
use pow_server.Web.Pipeline.Racing.{Racing, alone, one_waits, doubled_lem}
use pow_server.Web.Pipeline.Racing as Racing
use pow_server.Web.Pipeline.Limit as Limit
use pow_server.Web.Pipeline.History as Order
use pow_server.Web.Socket.{Socket, on_timer, activity, on_ping, on_timer-activity}
use pow_server.Web.Server.{serving, serving_lem}
use pow_server.Web.Served.{IsServed, handle_request-IsServed}

-- One file, the index of the root.
abbrev files : Text → Opened
files path = if text_eq path (codes "pub/index.html") then opened 5 else no_such_file

abbrev pages : StaticPages
pages = record { allow = true; allow_remote = false }

abbrev api : List (RestEndpoint Text ℕ)
api =
    record { verb = get_verb; path_verbatim = codes "/ping"; path = codes "/ping$"; handler = 1 }
    ∷ []

index_sent :
    handle_request files (codes "pub/") plain_regexes api pages true get_verb (codes "/a")
    ≡ page (codes "pub/index.html") (codes "text/html") 5
unfolding handle_request is_absolute has_dots find_endpoint same_verb init send_page send_index
    send_file requested_path path_cat trim ends_in_slash mime_type extension type_of iequals
    to_lower text_eq
index_sent = refl

handle_request-IsServed_example :
    IsServed files
      (codes "pub/")
      plain_regexes
      api
      pages
      true
      get_verb
      (codes "/a")
      (codes "pub/index.html")
      (codes "text/html")
      5
handle_request-IsServed_example =
    handle_request-IsServed files (codes "pub/") plain_regexes api pages true get_verb (codes "/a")
      (codes "pub/index.html") (codes "text/html") 5 index_sent

-- Two requests are read whose handlers keep the session; the second responds first.
abbrev two_read : History
two_read = record Order.init { pipeline = on_read none (on_read none accepted) }

abbrev answered : History
answered = record Order.init {
  pipeline = respond (codes "a") (respond (codes "b") two_read.pipeline);
  responses = codes "b" ∷ codes "a" ∷ [];
}

reading : 0 < accepted.reads
reading = omega arith

reading_again : 0 < (on_read none accepted).reads
unfolding on_read begin_read read_next is_full read
reading_again = omega arith

answered-Reach : Reach answered
answered-Reach =
    later
      (later
        (later (later initial (Order.read_done none reading)) (Order.read_done none reading_again))
        (respond_later (codes "b")))
      (respond_later (codes "a"))

Reach-IsInOrder_example : HasOrder answered
Reach-IsInOrder_example = Reach-IsInOrder answered-Reach

-- A request is read whose handler keeps the session, and then responds.
abbrev one_answered : History
one_answered = record Order.init {
  pipeline = respond (codes "a") (on_read none accepted);
  responses = codes "a" ∷ [];
}

one_answered-Reach : Reach one_answered
one_answered-Reach =
    later (later initial (Order.read_done none reading)) (respond_later (codes "a"))

one_answered-waits : Racing.Reach (one_waits (alone one_answered) (codes "a"))
unfolding respond start_front on_read begin_read read_next is_full read
one_answered-waits = Racing.Reach-Reach one_answered-Reach

writes_one : length one_answered.written < length one_answered.pipeline.started
unfolding respond start_front on_read begin_read read_next is_full read
writes_one = omega arith

doubled_lem_example :
    (t : Racing) × Racing.Reach t
    × (t.history.pipeline.items ≡ codes "b" ∷ [])
    × (t.history.pipeline.started ≡ one_answered.pipeline.started ++ codes "b" ∷ codes "b" ∷ [])
    × (t.history.written ≡ codes "a" ∷ [])
doubled_lem_example =
    doubled_lem (alone one_answered) (codes "a") (codes "b") one_answered-waits writes_one

Prompt-IsPaced_example : IsPaced (on_read (some (codes "a")) accepted)
Prompt-IsPaced_example = Prompt-IsPaced (Limit.read_done (codes "a") begun reading)

abbrev six_more : Pipeline → Pipeline
six_more p = respond [] (respond [] (respond [] (respond [] (respond [] (respond [] p)))))

-- Handlers that respond later can fill the queue while a read is under way; then a write that
-- completes starts a second one.
two_reads : (on_write false (six_more answered.pipeline)).reads ≡ 2
unfolding on_write queue_on_write is_full read respond start_front on_read begin_read read_next
two_reads = refl

abbrev socket : Socket
socket = record {
  send_queue = codes "a" ∷ [];
  started = codes "a" ∷ [];
  completed = 0;
  ping_state = 2;
  accepting = false;
  is_open = true;
  reads = 1;
  closed = false;
}

on_timer-activity_example :
    let pinged = on_timer true (activity socket) in
    let waiting = if true then on_ping pinged else pinged in
    (pinged.closed ≡ socket.closed)
    × (pinged.ping_state ≡ 1)
    × ((on_timer true waiting).closed ≡ true)
on_timer-activity_example = on_timer-activity socket true refl

abbrev threads : ℕ
threads = 4

some_thread : 1 ≤ threads
some_thread = omega arith

threads_fit : threads < 2 ^ 32
threads_fit = omega arith

serving_lem_example :
    (2 ≤ threads → serving (λ n. n) threads ≡ threads - 1)
    × (threads ≡ 1 → serving (λ n. n) threads ≡ 2 ^ 64)
serving_lem_example = serving_lem (λ n. n) threads some_thread threads_fit refl
