-- ===== src/Lib.antt =====
-- The proof-of-work server: its work handler, the job queue, the devices, the configuration,
-- and the sessions of its web server.
--
-- The program takes JSON requests over HTTP and WebSocket. `work_handler`
-- (src/workserver/work_handler.hpp and work_handler.cpp) queues a job for each work_generate
-- and posts a lambda to a thread pool that has one thread for each configured device. A lambda
-- takes the job on top of the queue, acquires a device, searches for a work and answers. Here:
--
-- * Bigint (src/workserver/util.hpp): `bigint` is an array of bytes, most significant first,
--   with set, number, to_hex and from_hex. Multiplier has to_multiplier and from_multiplier.
-- * Job and JobQueue (work_handler.hpp): `job`, its comparator, and push_job, pop_job and
--   remove_job. std::priority_queue does not fix the order of its vector, so the queue is a
--   list in any order and `take_top` finds a greatest job; it compares in the code's order.
-- * Config (src/workserver/config.hpp): the settings and their defaults, Load the constructor,
--   Export what export_documented writes; Reference is a TOML reader for the exported sections.
-- * Devices (work_handler.hpp): the registered devices and aquire_first_available_device for
--   one worker; Devices.Scan has all threads of the pool, one atomic exchange at a time, and
--   the work that throws, behind which the flag stays set.
-- * Pow (work_handler.cpp): the search loop, the difficulty arithmetic, the format of the work.
-- * Json is what the code uses of boost::property_tree.
-- * Handler (work_handler.cpp): Request is handle_request_async to the post, Task the posted
--   lambda, Reports handle_queue_request and handle_queue_delete_request. The lambda has two
--   parts, since other threads run while it works: take_task ends with the entry in the active
--   jobs, finish_task is the rest. System composes them: requests, deletions, and threads that
--   take and finish lambdas, in any order, each step atomic as the mutexes make it. Calm has
--   the histories without a cancellation or a deletion, Own which job a lambda gets in them.
--   Racing has the threads of the web server and of the pool a step at a time: a job is
--   constructed, queued under the mutex, its lambda posted; a lambda is taken, pops a job, finds
--   a device, enters the job in the active ones, answers, releases the device and completes the
--   job (Stages has what each does to the handler, Steps all of them). Accounts, Threads and
--   Settled are about the answers, Held and Drivers about the devices, Composed about the steps
--   of System as several of these, Swapped about which lambda gets which job.
--   Tallies, Tracked, Active and Shown are about the active jobs, whose order Task.Active and
--   Task.Places have. Run has test data.
-- * Web (src/workserver/webserver.hpp): Endpoints has rest_endpoint, websocket_endpoint and
--   how a webserver registers and finds them; Url and Mime are `url` and mime_type, Pages
--   is http_session::handle_request, and Pipeline the queue of responses, with its
--   histories in History, where a call of the queue is one step; Pipeline.Racing has the
--   steps of a call apart, as the threads of the pool take them without a lock. Session is
--   an http_session around its pipeline: what a read, a write or the timer that ends makes
--   of it, and the upgrade. Socket is a websocket_session: the handshake's end, reads, the
--   send queue and the pings, with its histories in History, Queued about the order of the
--   messages, Stuck about a failed write. Listener is `listener` with the start of a
--   webserver, its threads' creation included, Server the number of threads that serve.
-- * Entry (src/entry/nano_pow_server.cpp): the endpoints and handlers of main. State and
--   Program put the listener, the sessions, these handlers and the work handler together:
--   `on_accepted_by` ends an accept, `on_http` and `on_message` read a request or a message
--   and run its handler, `on_other_read` has the upgrade, `deliver` gives a response to its
--   connection: it calls the queue of an http_session, and posts write_response to the
--   strand of a websocket_session. Steps has one step for each completion, for what the
--   strands were posted, for the threads of the pool that take or finish lambdas, and for
--   the phases of the end: a signal stops the io_context, which runs nothing any more while
--   the pool goes on, and start returns. A connection is a number; which session it stands
--   for is fixed from the start, and the session does nothing until it is accepted or
--   handed over. Routes and Control are about the requests that reach a handler; Accounts,
--   Given, Balance and Answered about the responses; Refines, Accepting, Histories and
--   Sessions about the work handler, the listener and the sessions inside the program;
--   Shutdown about what makes it end. Launch is main from the options to the server that
--   serves, CommandLine from the arguments.
-- * UnitTests (src/tests/work.cpp): the program's unit tests of `bigint` and the queue.
--
-- Code that is not the repository's is a parameter, a record of operations with the laws that
-- its documentation states: boost::multiprecision (Multiprecision), its floats and the
-- machine's doubles (Floats), boost::property_tree (PropertyTree), boost::circular_buffer
-- (CircularBuffer), cpptoml (Toml), the files (Files), Blake2b and the random numbers
-- (Sources), std::regex (Regexes), boost::program_options (CommandLine), and the calls of asio
-- (SetUp, Machine). The modules named Reference, and the tests, give instances that run. The
-- clock is an argument.
--
-- Errors: an exception is the `err` of a Result, and `what` gives its text. Machine integers
-- keep their width: the job id wraps at 2 ^ 32, the work value at 2 ^ 64. Fuel: the search loop
-- has one round more than max_iterations, which is what leaving the loop takes; the loops that
-- empty the queue have as many rounds as there are jobs.
--
-- Not modelled: the log; a logic_error but for that of boost::program_options; the clocks
-- of the timers, whose test is an argument, and the handshake's messages; what happens
-- behind start's return, where main destroys the web server, then the work handler, while
-- lambdas can still run; threads that call the queue of an http_session at once, but for
-- Pipeline.Racing, which has such a session and no handlers; the moment between the
-- queueing of a job and the post of its lambda, but for Handler.Racing, which has the work
-- handler and no sessions; the partly filled result of a running job that a queue report
-- can show; that an array of a `bigint` is not initialised before from_hex throws; Bigint's
-- to_dec, which is not called; a TOML key that is a value where the code expects a table,
-- whose pointer is null.
pub mod Prelude
pub mod Bigint
pub mod Multiplier
pub mod Job
pub mod JobQueue
pub mod Config
pub mod Devices
pub mod Pow
pub mod Json
pub mod Handler
pub mod Web
pub mod Entry
pub mod UnitTests
