-- ===== src/Web/Listener.antt =====
-- src/workserver/webserver.hpp: the listener, and the start of a webserver. What the acceptor's
-- calls give is a parameter.
use pow_server.Prelude.{
  ℕ, ◌+◌, ◌-◌, zero, suc, ◌≤◌, ◌<◌, ◌==◌, ◌≡◌, Bool, true, false, List, [], ◌∷◌, Text, codes, Error,
  Result, ok, err, ◌>>=◌, if◌then◌else◌, arith, >>=-eq-ok,
}
use native.Mathlib.Decide.{dec_lt}
use pow_server.Web.Server.{extra_threads}

-- How the calls of the listener's constructor end, each if it is made: open, set_option, bind and
-- listen. The call of set_option takes no error code, so it throws.
pub record SetUp : Type 0 where
  pub open_fails : Bool
  pub option_fails : Bool
  pub bind_fails : Bool
  pub listen_fails : Bool

-- `accepts` counts the async_accepts under way, `sessions` the http_sessions that run was called
-- on; `failures` is what `fail` was called with, the latest first.
pub record Listener : Type 0 where
  pub is_open : Bool
  pub listens : Bool
  pub accepts : ℕ
  pub sessions : ℕ
  pub failures : List Text

abbrev pub closed_listener : Listener
closed_listener = record {
  is_open = false;
  listens = false;
  accepts = 0;
  sessions = 0;
  failures = [];
}

-- fail (ec, what)
abbrev pub fail : Text → Listener → Listener
fail what l = record l { failures = what ∷ l.failures }

-- The constructor. The error code that is tested behind set_option is still that of open.
unfoldable pub new_listener : SetUp → Result Listener
new_listener s =
    let opened = record closed_listener { is_open = true } in
    if s.open_fails
    then ok (fail (codes "open") closed_listener)
    else if s.option_fails
    then err (Error.library (codes "set_option"))
    else if s.bind_fails
    then ok (fail (codes "bind") opened)
    else if s.listen_fails
    then ok (fail (codes "listen") opened)
    else ok (record opened { listens = true })

unfoldable pub do_accept : Listener → Listener
do_accept l = record l { accepts = l.accepts + 1 }

unfoldable pub run : Listener → Listener
unfolding do_accept
run l = if l.is_open then do_accept l else l

-- How an async_accept ends; the peer of an accepted socket can be gone when its address is asked
-- for.
pub data Accepted : Type 0 where
  accept_failed peer_gone connected : Accepted

-- on_accept, and what it throws: remote_endpoint takes no error code.
unfoldable pub on_accepted : Accepted → Listener → Listener × Result (Unit {0})
unfolding do_accept
on_accepted accept_failed l =
    (do_accept (fail (codes "accept") (record l { accepts = l.accepts - 1 })), ok tt)
on_accepted peer_gone l =
    (record l { accepts = l.accepts - 1 }, err (Error.library (codes "remote_endpoint")))
on_accepted connected l =
    (do_accept (record l { accepts = l.accepts - 1; sessions = l.sessions + 1 }), ok tt)

-- How the emplace_back of a thread ends: it runs; std::thread throws its system_error; or there is
-- no memory for a larger vector.
pub data Emplaced : Type 0 where
  emplaced : Emplaced
  no_thread : Error → Emplaced
  no_memory : Emplaced

-- How the loop of the threads ends: all run, or one is not emplaced behind so many that run.
pub data Spawned : Type 0 where
  all_run : Spawned
  no_more : ℕ → Error → Spawned
  out_of_memory : Spawned

-- The rounds of the loop that are left, behind so many threads that run.
unfoldable pub spawn_all : (ℕ → Emplaced) → ℕ → ℕ → Spawned
spawn_all emplace zero running = all_run
spawn_all emplace (suc left) running = elim (emplace running) [
  | emplaced ↦ spawn_all emplace left (running + 1)
  | no_thread e ↦ no_more running e
  | no_memory ↦ out_of_memory
]

-- What start comes to: so many threads serve; or the process is terminated, since main does not
-- catch what is thrown, or since a thread that runs is not joined when the vector is destroyed.
pub data Started : Type 0 where
  serves_with : Listener → ℕ → Started
  dies : Started

unfoldable pub spawn_threads : (ℕ → Emplaced) → ℕ → Listener → Result Started
unfolding spawn_all
spawn_threads emplace rounds listener = elim (spawn_all emplace rounds 0) [
  | all_run ↦ ok (serves_with listener (rounds + 1))
  | no_more running e ↦ if running == 0 then err e else ok dies
  | out_of_memory ↦ ok dies
]

-- webserver::start up to the join, for a vector of threads that has this capacity: make_address may
-- throw, then the listener runs, and so do the threads.
unfoldable pub start_server :
    (Text → Result (Unit {0})) → (Text → ℕ → SetUp) → (ℕ → Emplaced) → Text → ℕ → ℕ → Result Started
unfolding new_listener run spawn_threads extra_threads
start_server make_address set_up emplace address port capacity = do
  _ ← make_address address
  listener ← new_listener (set_up address port)
  spawn_threads emplace (extra_threads capacity) (run listener)

-- A thread that is not emplaced ends the loop.
spawn_all-refused :
    (emplace : ℕ → Emplaced) (left running i : ℕ)
    → running ≤ i
    → i < running + left
    → ¬ (emplace i ≡ emplaced)
    → ¬ (spawn_all emplace left running ≡ all_run)
unfolding spawn_all
spawn_all-refused emplace zero running i from below refused runs = absurd (omega arith)
spawn_all-refused emplace (suc left) running i from below refused runs = elim (dec_lt running i) [
  | yes later ↦
      let rest =
        spawn_all-refused emplace left (running + 1) i (omega arith) (omega arith) refused in
      grind arith
  | no now ↦ let same : i ≡ running = omega arith in grind arith
]

-- If one of the threads is not emplaced, start does not get to serve.
pub start_server-refused :
    (make_address : Text → Result (Unit {0})) (set_up : Text → ℕ → SetUp) (emplace : ℕ → Emplaced)
    (address : Text) (port capacity i : ℕ)
    → i < extra_threads capacity
    → ¬ (emplace i ≡ emplaced)
    → (l : Listener) (n : ℕ)
    → ¬ (start_server make_address set_up emplace address port capacity ≡ ok (serves_with l n))
unfolding start_server spawn_threads
start_server-refused make_address set_up emplace address port capacity i below refused l n served =
    let (_, _, looked_up) = >>=-eq-ok (make_address address) _ served in
    let (listener, _, made) = >>=-eq-ok (new_listener (set_up address port)) _ looked_up in
    let ends =
      spawn_all-refused emplace (extra_threads capacity) 0 i (omega arith) (omega arith) refused in
    grind arith

-- How many accepts of a history ended with this outcome.
abbrev pub count : (Accepted → ℕ) → List Accepted → ℕ
count f [] = 0
count f (a ∷ more) = f a + count f more

abbrev pub is_connected : Accepted → ℕ
is_connected connected = 1
is_connected _ = 0

abbrev pub is_gone : Accepted → ℕ
is_gone peer_gone = 1
is_gone _ = 0

-- The histories of a listener that ran: an accept that is under way ends.
pub data Reach (first : Listener) : List Accepted → Listener → Type 0 where
  initial : Reach first [] (run first)
  later :
      {ended : List Accepted} {l : Listener} (a : Accepted)
      → Reach first ended l
      → 0 < l.accepts
      → Reach first (a ∷ ended) (on_accepted a l).0

record IsAccepting (first : Listener) (ended : List Accepted) (l : Listener) : Type 0 where
  one : l.accepts + count is_gone ended ≡ (if first.is_open then 1 else 0)
  each : l.sessions ≡ first.sessions + count is_connected ended

on_accepted-IsAccepting :
    (first l : Listener) (ended : List Accepted) (a : Accepted)
    → 0 < l.accepts
    → IsAccepting first ended l
    → IsAccepting first (a ∷ ended) (on_accepted a l).0
unfolding on_accepted
on_accepted-IsAccepting first l ended accept_failed busy v = record {
  one = omega (arith, v.one);
  each = omega (arith, v.each);
}
on_accepted-IsAccepting first l ended peer_gone busy v = record {
  one = omega (arith, v.one);
  each = omega (arith, v.each);
}
on_accepted-IsAccepting first l ended connected busy v = record {
  one = omega (arith, v.one);
  each = omega (arith, v.each);
}

run-IsAccepting : (first : Listener) → first.accepts ≡ 0 → IsAccepting first [] (run first)
unfolding run
run-IsAccepting first idle = record { one = ground arith; each = ground arith }

Reach-IsAccepting :
    {first l : Listener} {ended : List Accepted}
    → first.accepts ≡ 0
    → Reach first ended l
    → IsAccepting first ended l
Reach-IsAccepting {first} idle initial = run-IsAccepting first idle
Reach-IsAccepting {first} idle (later {ended} {l} a r busy) =
    on_accepted-IsAccepting first l ended a busy (Reach-IsAccepting idle r)

new_listener-idle :
    (s : SetUp) (first : Listener)
    → s.open_fails ≡ false
    → new_listener s ≡ ok first
    → (first.is_open ≡ true) × (first.accepts ≡ 0) × (first.sessions ≡ 0)
unfolding new_listener
new_listener-idle s first opens made = ground arith

-- A listener whose open and set_option come out well, whether or not its bind and listen do, has one
-- accept under way at any time after run, until the address of a peer that is gone is asked for,
-- which ends the accepting for good; and it runs one session for each connection.
pub accepting_lem :
    (s : SetUp) (first l : Listener) (ended : List Accepted)
    → s.open_fails ≡ false
    → new_listener s ≡ ok first
    → Reach first ended l
    → (l.accepts + count is_gone ended ≡ 1) × (l.sessions ≡ count is_connected ended)
accepting_lem s first l ended opens made r =
    let (is_open, idle, none_yet) = new_listener-idle s first opens made in
    let v = Reach-IsAccepting idle r in let one = v.one in (ground arith, omega (arith, v.each))
