-- ===== src/Entry/Balance.antt =====
-- What each handler and each response of the program does to the accounts of the connections
-- (src/entry/nano_pow_server.cpp and src/workserver/webserver.hpp).
use pow_server.Prelude.{
  ℕ, ◌+◌, ◌≡◌, refl, ap, Text, Bool, true, false, ◌==◌, if◌then◌else◌, arith, Bool-cases, inl, inr,
}
use pow_server.Config.{Config}
use pow_server.Entry.{
  Action, work_endpoint, work_queue_endpoint, work_queue_delete_endpoint, ping, stop, version,
}
use pow_server.Entry.Accounts.{given, update-given, deliver_all-given, respond-given}
use pow_server.Entry.Program.{
  Program, Connection, http, websocket, WebLibraries, deliver_all, perform, send, after_request,
  go_on, send_to, send_own, answer, exits,
}
use pow_server.Handler.{Libraries}
use pow_server.Handler.Accounting.{tally, tally-append, reply_client}
use pow_server.Handler.Reports.{handle_queue_request, handle_queue_delete_request}
use pow_server.Handler.Request.{handle_request_async}
use pow_server.Handler.System.{System, on_request, on_take, on_finish, on_delete}
use pow_server.Handler.System as HandlerSystem
use pow_server.Web.Pages.{Response, bad_request, not_found, server_error, handled, head_of, page}
use pow_server.Web.Pipeline.{read_next, read, is_full}
use pow_server.Web.Session.{Session, end_request}

abbrev pub self : ℕ → ℕ
self i = i

module _ {Double Float Tree Regex : Type 0} (lib : Libraries Double Float Tree)
    (web : WebLibraries Regex) (config : Config) where
  -- The handler's part of the program goes through states that the handler reaches on its own.
  pub perform-Reach :
      (i : ℕ) (body : Text) (a : Action) (s : System Double)
      → HandlerSystem.Reach lib config s
      → HandlerSystem.Reach lib config (perform lib web config i body a s).0
  unfolding perform
  perform-Reach i body work_endpoint s r = HandlerSystem.later r (HandlerSystem.request body i)
  perform-Reach i body work_queue_endpoint s r = r
  perform-Reach i body work_queue_delete_endpoint s r =
      HandlerSystem.later r (HandlerSystem.delete i)
  perform-Reach i body ping s r = r
  perform-Reach i body stop s r = r
  perform-Reach i body version s r = r

  pub perform-tally :
      (i k : ℕ) (body : Text) (a : Action) (s : System Double)
      → let (t, replies) = perform lib web config i body a s in
        tally reply_client k replies + tally self k t.asked + tally reply_client k s.replies
        ≡ tally reply_client k t.replies + tally self k s.asked + (if i == k then 1 else 0)
  unfolding perform on_request on_delete handle_queue_request handle_queue_delete_request
  perform-tally i k body work_endpoint s = omega (
    arith,
    tally-append reply_client k (handle_request_async lib config body i s.handler).1 s.replies,
  )
  perform-tally i k body work_queue_endpoint s = omega arith
  perform-tally i k body work_queue_delete_endpoint s = omega arith
  perform-tally i k body ping s = omega arith
  perform-tally i k body stop s = omega arith
  perform-tally i k body version s = omega arith

  after_request-given : (c : Connection) → given (after_request lib web config c) ≡ given c
  unfolding after_request end_request read_next read
  after_request-given (http s) = elim (Bool-cases (is_full s.pipeline)) [
    | inl full ↦ rw full refl
    | inr room ↦ rw room refl
  ]
  after_request-given (websocket s posts) = refl

  pub go_on-given :
      (i k : ℕ) (connections : ℕ → Connection)
      → given (go_on lib web config i connections k) ≡ given (connections k)
  unfolding go_on
  go_on-given i k connections =
      let same = after_request-given (connections i) in
      ground (
        arith,
        update-given i k 0 (after_request lib web config (connections i)) connections
            (omega (arith, same)),
      )

  send-given :
      (i k : ℕ) (s : Session) (response : Response Action) (connections : ℕ → Connection)
      → connections i ≡ http s
      → given (send lib web config i response connections k)
        ≡ given (connections k) + (if i == k then 1 else 0)
  unfolding send send_to
  send-given i k s response connections e =
      let one =
        respond-given (web.page_message s.client_version s.client_keepalive response) s.pipeline in
      rw e (update-given i k 1 _ connections (omega (arith, one, ap given e)))

  -- What a connection was given, set against the answers of the handler.
  abbrev pub IsBalanced : Program Double → ℕ → Type 0
  IsBalanced p k =
      given (p.connections k) + tally self k p.system.asked
      ≡ tally reply_client k p.system.replies + tally self k p.asked

  send_own-IsBalanced :
      (i k : ℕ) (response : Response Action) (s : Session) (begun : ℕ → Connection)
      (p : Program Double)
      → begun i ≡ http s
      → given (begun k) ≡ given (p.connections k)
      → IsBalanced p k
      → IsBalanced (send_own lib web config i response begun p) k
  unfolding send_own
  send_own-IsBalanced i k response s begun p e same v = omega (
    arith,
    go_on-given i k (send lib web config i response begun),
    send-given i k s response begun e,
  )

  unless-given :
      (leaves : Bool) (i k : ℕ) (connections : ℕ → Connection)
      → given ((if leaves then connections else go_on lib web config i connections) k)
        ≡ given (connections k)
  unless-given true i k connections = refl
  unless-given false i k connections = go_on-given i k connections

  pub answer-IsBalanced :
      (i k : ℕ) (body : Text) (response : Response Action) (s : Session) (begun : ℕ → Connection)
      (p : Program Double)
      → begun i ≡ http s
      → given (begun k) ≡ given (p.connections k)
      → IsBalanced p k
      → IsBalanced (answer lib web config i body response begun p) k
  unfolding answer
  answer-IsBalanced i k body (handled action params) s begun p e same v = omega (
    arith,
    unless-given (exits lib web config action) i k
        (deliver_all lib web config (perform lib web config i body action p.system).1 begun),
    deliver_all-given lib web config (perform lib web config i body action p.system).1 begun k,
    perform-tally i k body action p.system,
  )
  answer-IsBalanced i k body (bad_request why) s begun p e same v =
      send_own-IsBalanced i k (bad_request why) s begun p e same v
  answer-IsBalanced i k body (not_found target) s begun p e same v =
      send_own-IsBalanced i k (not_found target) s begun p e same v
  answer-IsBalanced i k body (server_error what) s begun p e same v =
      send_own-IsBalanced i k (server_error what) s begun p e same v
  answer-IsBalanced i k body (head_of path mime size) s begun p e same v =
      send_own-IsBalanced i k (head_of path mime size) s begun p e same v
  answer-IsBalanced i k body (page path mime size) s begun p e same v =
      send_own-IsBalanced i k (page path mime size) s begun p e same v
