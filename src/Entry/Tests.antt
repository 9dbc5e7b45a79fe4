-- ===== src/Entry/Tests.antt =====
-- The theorems on the whole program at concrete inputs, with the reference libraries.
use pow_server.Prelude.{
  ℕ, ◌+◌, ◌≡◌, ◌<◌, ◌↔◌, refl, true, false, [], Text, codes, arith, ok, text_eq, ◌≢◌, ◌==◌,
  if◌then◌else◌, inl, inr, Bool-cases,
}
use pow_server.Config.{default_server}
use pow_server.Entry.Control.{on_http-exits}
use pow_server.Entry.Shutdown.{Reach-runs}
use pow_server.Entry.Accepting.{one_accept}
use pow_server.Entry.{stop, register_endpoints}
use pow_server.Entry.Accounts.{given}
use pow_server.Entry.Answered.{requests_answered}
use pow_server.Entry.Balance.{self}
use pow_server.Web.Listener.{
  Listener, SetUp, new_listener, run, do_accept, connected, on_accepted, count, is_gone,
  is_connected,
}
use pow_server.Web.Socket.{new_socket}
use pow_server.Entry.Program.{
  http, websocket, Connection, WebLibraries, Request, Program, on_http, on_other_read,
  on_accepted_by, welcome, serving, exited, failed,
}
use pow_server.Entry.Steps.{connection, request, read_ends, IsLive, IsNew, Reach, initial, later}
use pow_server.Entry.Routes.{IsRoute}
use pow_server.Handler.Accounting.{tally, task_client, running_client}
use pow_server.Handler.Reference.{lib}
use pow_server.Handler.Run.{mocking, generate_body}
use pow_server.Handler.System as System
use pow_server.Web.Endpoints.{get_verb, post_verb}
use pow_server.Web.Pages.{no_such_file}
use pow_server.Web.Reference.{plain_regexes, init, replaced}
use pow_server.Web.Session.{new_session, upgrade, on_read_end}
use pow_server.Entry.State.{lives}
use pow_server.Web.Endpoints.{
  find_websocket, add_websocket_endpoint, add_get_endpoint, add_delete_endpoint, add_post_endpoint,
}
use pow_server.Web.Url.{parse_url}

abbrev web : WebLibraries Text
web = record {
  re = plain_regexes;
  json_message = λ version keepalive body. body;
  page_message = λ version keepalive response. codes "HTTP";
  open_file = λ path. no_such_file;
}

abbrev all_well : SetUp
all_well = record {
  open_fails = false;
  option_fails = false;
  bind_fails = false;
  listen_fails = false;
}

abbrev listening : Listener
listening = record { is_open = true; listens = true; accepts = 0; sessions = 0; failures = [] }

listening-made : new_listener all_well ≡ ok listening
unfolding new_listener
listening-made = refl

-- The number 3 stands for an HTTP session, 5 for a WebSocket.
abbrev sessions : ℕ → Connection
sessions i = if i == 5 then websocket new_socket [] else http new_session

sessions-IsNew : (i : ℕ) → IsNew lib web mocking (sessions i)
sessions-IsNew i = elim (Bool-cases (i == 5)) [
  | inl five ↦ rw five (refl, refl)
  | inr other ↦ rw other refl
]

abbrev started : Program ℕ
started = record {
  system = System.init lib mocking;
  connections = sessions;
  sessions = [];
  listener = run listening;
  asked = [];
  ended = [];
  phase = serving;
}

started-Reach : Reach lib web mocking listening started
started-Reach = initial sessions sessions-IsNew

accepting : 0 < started.listener.accepts
unfolding run do_accept
accepting = omega arith

-- The session 3 is accepted.
abbrev accepted : Program ℕ
accepted = on_accepted_by 3 connected started

accepted-Reach : Reach lib web mocking listening accepted
accepted-Reach = later started-Reach (connection 3 connected refl accepting refl refl)

accepted-IsLive : IsLive lib web mocking 3 accepted
unfolding on_accepted_by on_accepted welcome
accepted-IsLive = (refl, refl)

accepted-http : accepted.connections 3 ≡ http new_session
unfolding on_accepted_by
accepted-http = refl

abbrev work_request : Request
work_request = record {
  verb = post_verb;
  target = codes "/api/v1/work";
  body = generate_body;
  version = 11;
  keepalive = true;
  loopback = true;
}

abbrev requested : Program ℕ
requested = on_http lib web mocking 3 new_session work_request accepted

reading : 0 < new_session.pipeline.reads
reading = omega arith

requested-Reach : Reach lib web mocking listening requested
requested-Reach =
    later accepted-Reach (request 3 new_session work_request accepted-IsLive accepted-http reading)

requests_answered_example :
    given (requested.connections 3)
      + tally task_client 3 requested.system.handler.posted
      + tally running_client 3 requested.system.running
    ≡ tally self 3 requested.asked
requests_answered_example = requests_answered lib web mocking 3 requested-Reach

abbrev stop_request : Request
stop_request = record work_request { verb = get_verb; target = codes "/api/v1/stop"; body = [] }

on_http-exits_example :
    ((on_http lib web mocking 3 new_session stop_request started).phase ≡ exited)
    ↔ (IsRoute stop get_verb (codes "/api/v1/stop") × (mocking.server.allow_control ≡ true))
on_http-exits_example = on_http-exits lib web mocking 3 new_session stop_request started refl

no_control : mocking.server.allow_control ≡ false
unfolding default_server
no_control = refl

Reach-runs_example :
    (requested.phase ≢ exited) × (count is_gone requested.ended ≡ 0 → requested.phase ≢ failed)
Reach-runs_example = Reach-runs lib web mocking no_control requested-Reach

one_accept_example :
    (requested.listener.accepts + count is_gone requested.ended ≡ 1)
    × (requested.listener.sessions ≡ count is_connected requested.ended)
one_accept_example = one_accept lib web mocking all_well refl listening-made requested-Reach

-- The session 3 is upgraded, and hands its socket to 5.
abbrev upgraded : Program ℕ
upgraded = on_other_read lib web mocking 3 5 new_session (upgrade (codes "/websocket")) accepted

upgraded-Reach : Reach lib web mocking listening upgraded
unfolding on_accepted_by welcome
upgraded-Reach = later accepted-Reach (
    read_ends 3 5 new_session (upgrade (codes "/websocket")) accepted-IsLive accepted-http reading
      refl refl)

-- The session that was handed the socket runs.
upgraded-lives : lives 5 upgraded ≡ true
unfolding on_other_read on_read_end find_websocket register_endpoints add_websocket_endpoint
    add_get_endpoint add_delete_endpoint add_post_endpoint text_eq parse_url init replaced
upgraded-lives = refl
