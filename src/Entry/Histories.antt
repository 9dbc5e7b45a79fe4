-- ===== src/Entry/Histories.antt =====
-- What the operations of the whole program (src/entry/nano_pow_server.cpp) make of the sessions of
-- its connections.
use pow_server.Prelude.{
  ℕ, ◌+◌, ◌-◌, ◌≤◌, ◌<◌, ◌≡◌, refl, sym, subst, Bool, true, false, List, [], ◌∷◌, ◌++◌, Text,
  if◌then◌else◌, arith, Bool-cases, inl, inr, ◌==◌, ==_iff,
}
use pow_server.Config.{Config}
use pow_server.Entry.{Action}
use pow_server.Entry.Program.{
  Program, Connection, http, websocket, WebLibraries, update, give, deliver, deliver_all, send_to,
  send, after_request, go_on, send_own, answer, perform, exits,
}
use pow_server.Handler.{Libraries, Reply}
use pow_server.Web.Pages.{Response, handled, bad_request, not_found, server_error, head_of, page}
use pow_server.Web.Pipeline.History as Pipelined
use pow_server.Web.Session.{Session, write_json_response, begin_request, end_request}
use pow_server.Web.Socket.{Socket}
use pow_server.Web.Socket.History as History

-- An HTTP session as a state of its pipeline.
abbrev pub pipelined : Session → List Text → List Text → ℕ → Pipelined.History
pipelined s responses written handling = record {
  pipeline = s.pipeline;
  responses = responses;
  written = written;
  handling = handling;
  stalled = s.stalled;
}

-- The session of the connection is in a state that a session reaches on its own, an HTTP session
-- with so many requests or more whose handler is not behind them.
abbrev pub IsHistory : ℕ → Connection → Type 0
IsHistory n (http s) =
    (responses : List Text) × (written : List Text) × (handling : ℕ) × Pipelined.Reach
      (pipelined s responses written handling)
    × (n ≤ handling)
IsHistory n (websocket s posts) = (given : List Text) × History.Reach given s

abbrev pub AreHistories : (ℕ → ℕ) → (ℕ → Connection) → Type 0
AreHistories f connections = (k : ℕ) → IsHistory (f k) (connections k)

abbrev pub none_handled : ℕ → ℕ
none_handled k = 0

-- The connection `i` alone handles a request.
abbrev pub handled_by : ℕ → ℕ → ℕ
handled_by i k = if k == i then 1 else 0

pub handled_self : (i : ℕ) → handled_by i i ≡ 1
handled_self i = rw ((==_iff i i).1 refl) refl

weaken : (n m : ℕ) (c : Connection) → m ≤ n → IsHistory n c → IsHistory m c
weaken n m (http s) le (responses, written, handling, r, some) =
    (responses, written, handling, r, omega (arith, some, le))
weaken n m (websocket s posts) le old = old

pub update-AreHistories :
    (i : ℕ) (c : Connection) (connections : ℕ → Connection) (f g : ℕ → ℕ)
    → IsHistory (g i) c
    → ((k : ℕ) → (k == i) ≡ false → g k ≤ f k)
    → AreHistories f connections
    → AreHistories g (update i c connections)
update-AreHistories i c connections f g new less all k = elim (Bool-cases (k == i)) [
  | inl here ↦ rw here (subst (λ j. IsHistory (g j) c) (sym ((==_iff k i).0 here)) new)
  | inr other ↦ rw other (weaken (f k) (g k) (connections k) (less k other) (all k))
]

-- A WebSocket session that takes a step.
pub step-IsHistory :
    {s t : Socket} {more posts : List Text} (rest : List Text) (c : Connection)
    → c ≡ websocket s posts
    → History.Step s more t
    → IsHistory 0 c
    → IsHistory 0 (websocket t rest)
step-IsHistory {s} {t} {more} {posts} rest c here st old =
    let (given, r) : IsHistory 0 (websocket s posts) = subst (IsHistory 0) here old in
    (given ++ more, History.later r st)

pub begin_request-IsHistory :
    (version : ℕ) (keepalive : Bool) (s : Session) (c : Connection)
    → c ≡ http s
    → 0 < s.pipeline.reads
    → IsHistory 0 c
    → IsHistory 1 (http (begin_request version keepalive s))
unfolding begin_request
begin_request-IsHistory version keepalive s c here busy old =
    let (responses, written, handling, r, some) : IsHistory 0 (http s) =
      subst (IsHistory 0) here old in
    (responses, written, handling + 1, Pipelined.later r (Pipelined.read_begins busy), omega arith)

module _ {Double Float Tree Regex : Type 0} (lib : Libraries Double Float Tree)
    (web : WebLibraries Regex) (config : Config) where
  give-IsHistory :
      (n : ℕ) (body : Text) (c : Connection)
      → IsHistory n c
      → IsHistory n (give lib web config body c)
  unfolding give write_json_response
  give-IsHistory n body (http s) (responses, written, handling, r, some) =
      let msg = web.json_message s.client_version s.client_keepalive body in
      (
        responses ++ msg ∷ [],
        written,
        handling,
        Pipelined.later r (Pipelined.respond_later msg),
        some,
      )
  give-IsHistory n body (websocket s posts) old = old

  pub deliver_all-AreHistories :
      (f : ℕ → ℕ) (replies : List Reply) (connections : ℕ → Connection)
      → AreHistories f connections
      → AreHistories f (deliver_all lib web config replies connections)
  unfolding deliver_all deliver
  deliver_all-AreHistories f [] connections all = all
  deliver_all-AreHistories f (r ∷ rs) connections all = deliver_all-AreHistories f rs _ (
      update-AreHistories r.client _ connections f f
        (give-IsHistory (f r.client) r.body (connections r.client) (all r.client))
        (λ k other. omega arith) all)

  after_request-IsHistory :
      (c : Connection) → IsHistory 1 c → IsHistory 0 (after_request lib web config c)
  unfolding after_request end_request
  after_request-IsHistory (http s) (responses, written, handling, r, some) = (
    responses,
    written,
    handling - 1,
    Pipelined.later r (Pipelined.read_goes_on (omega (arith, some))),
    omega arith,
  )
  after_request-IsHistory (websocket s posts) old = old

  go_on-AreHistories :
      (i : ℕ) (connections : ℕ → Connection)
      → AreHistories (handled_by i) connections
      → AreHistories none_handled (go_on lib web config i connections)
  unfolding go_on
  go_on-AreHistories i connections all =
      update-AreHistories i _ connections (handled_by i) none_handled
        (after_request-IsHistory (connections i)
          (subst (λ n. IsHistory n (connections i)) (handled_self i) (all i)))
        (λ k other. omega arith) all

  send_to-IsHistory :
      (n : ℕ) (response : Response Action) (c : Connection)
      → IsHistory n c
      → IsHistory n (send_to lib web config response c)
  unfolding send_to
  send_to-IsHistory n response (http s) (responses, written, handling, r, some) =
      let msg = web.page_message s.client_version s.client_keepalive response in
      (
        responses ++ msg ∷ [],
        written,
        handling,
        Pipelined.later r (Pipelined.respond_later msg),
        some,
      )
  send_to-IsHistory n response (websocket s posts) old = old

  send-AreHistories :
      (f : ℕ → ℕ) (i : ℕ) (response : Response Action) (connections : ℕ → Connection)
      → AreHistories f connections
      → AreHistories f (send lib web config i response connections)
  unfolding send
  send-AreHistories f i response connections all =
      update-AreHistories i _ connections f f
        (send_to-IsHistory (f i) response (connections i) (all i)) (λ k other. omega arith) all

  either-AreHistories :
      (b : Bool) (i : ℕ) (connections : ℕ → Connection)
      → AreHistories (handled_by i) connections
      → AreHistories none_handled (if b then connections else go_on lib web config i connections)
  either-AreHistories true i connections all =
      λ k. weaken (handled_by i k) 0 (connections k) (omega arith) (all k)
  either-AreHistories false i connections all = go_on-AreHistories i connections all

  pub answer-AreHistories :
      (i : ℕ) (body : Text) (response : Response Action) (begun : ℕ → Connection)
      (p : Program Double)
      → AreHistories (handled_by i) begun
      → AreHistories none_handled (answer lib web config i body response begun p).connections
  unfolding answer send_own
  answer-AreHistories i body (handled action params) begun p all =
      either-AreHistories (exits lib web config action) i _ (
        deliver_all-AreHistories (handled_by i) (perform lib web config i body action p.system).1
          begun all)
  answer-AreHistories i body (bad_request why) begun p all =
      go_on-AreHistories i _ (send-AreHistories (handled_by i) i _ begun all)
  answer-AreHistories i body (not_found target) begun p all =
      go_on-AreHistories i _ (send-AreHistories (handled_by i) i _ begun all)
  answer-AreHistories i body (server_error what) begun p all =
      go_on-AreHistories i _ (send-AreHistories (handled_by i) i _ begun all)
  answer-AreHistories i body (head_of path mime size) begun p all =
      go_on-AreHistories i _ (send-AreHistories (handled_by i) i _ begun all)
  answer-AreHistories i body (page path mime size) begun p all =
      go_on-AreHistories i _ (send-AreHistories (handled_by i) i _ begun all)
