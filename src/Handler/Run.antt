-- ===== src/Handler/Run.antt =====
-- Runs of src/workserver/work_handler.cpp with the reference libraries: a request is queued, a thread
-- takes its lambda, and finishes it.
use pow_server.Prelude.{
  ℕ, ◌<◌, ◌≡◌, refl, false, ◌+◌, ◌^◌, List, [], ◌∷◌, ◌++◌, none, some, Error, Text, codes, ok, err,
  arith, replicate, length, what, text_eq,
}
use pow_server.Bigint.{of_hex, from_hex, number, overlay, set, to_hex}
use pow_server.Config.{Config, default_server, default_device, default_admin}
use pow_server.Json.Reference.{
  Object, choose, find, key_of, pairs, strings, text_of, double_of, unsigned_of,
}
use pow_server.Job.{Job, JobResult, new_job, fetch_add, less, set_priority, start, stop}
use pow_server.Json.{Key, text, Key-discrete}
use pow_server.Handler.{Handler, Reply, new_handler}
use pow_server.Handler.Reference.{lib}
use pow_server.Handler.Replies.{attach_correlation_id}
use pow_server.Handler.Request.{
  handle_request_async, validate, dispatch, fill_job, generate, granted_priority, validate_tree,
  report, requested_difficulty,
}
use pow_server.Handler.Task.{
  Running, begin_task, finish_task, work_result, take_task, is_mock, mocked, result_tree,
}
use pow_server.Handler.Outcome.{queued}
use pow_server.Handler.System.{
  System, on_request, on_take, on_finish, init, Reach, initial, later, request, take, finish,
}
use pow_server.Handler.Calm.{Calm}
use pow_server.Bigint.Digits.{is_hex}
use pow_server.Bigint.Reference.{scan, strip, all_hex, digits_of, bytes_of, print}
use pow_server.Devices.{
  aquire_first_available_device, driver_of, find_device, register_devices, release, release_at,
  try_aquire,
}
use pow_server.JobQueue.{pop_job, push, take_top}
use pow_server.Pow.{print_bytes, work_hex}
use pow_server.Handler.Task.Active.{erase_active, insert_active}

abbrev pub mocking : Config
mocking = record {
  server = default_server (codes "::1") 4;
  devices = default_device ∷ [];
  work = record {
    base_difficulty = record { bytes = replicate 15 0 ++ 1 ∷ [] };
    mock_work_generation_delay = 1;
  };
  admin = default_admin;
}

abbrev pub generate_body : Text
generate_body = codes "{\"id\": \"7\", \"action\": \"work_generate\", \"hash\": \"0a\"}"

abbrev pub cancel_body : Text
cancel_body = codes "{\"action\": \"work_cancel\", \"hash\": \"0A\"}"

abbrev pub asked : System ℕ
asked = on_request lib mocking generate_body 5 (init lib mocking)

abbrev pub taken : System ℕ
taken = on_take lib mocking 8 asked

-- The lambda that a thread works on, and a given one if none does.
abbrev pub first_running : List (Running ℕ) → Running ℕ → Running ℕ
first_running [] r = r
first_running (r ∷ _) _ = r

abbrev pub idle_running : Running ℕ
idle_running = record {
  task = record { correlation_id = none; client = 0 };
  device = 0;
  job = new_job lib.fl lib.mp 0;
}

abbrev pub worked : Running ℕ
worked = first_running taken.running idle_running

abbrev pub finished : System ℕ
finished = on_finish lib mocking 9 [] worked [] taken

no_thread : length asked.running < 1
unfolding on_request
no_thread = omega arith

-- What the simulation gives, and a given result if it throws.
abbrev pub mock_result : JobResult ℕ
mock_result = elim (mocked lib mocking) [ ok r ↦ r | err e ↦ idle_running.job.result ]

abbrev pub validated : Object
validated = (Key.hash, text (codes "0a")) ∷ (Key.work, text (codes "2f")) ∷ []

abbrev pub validation : Reply
validation = record { client = 5; body = lib.json.write_json (validate_tree lib mocking none) }

-- A request is queued, a thread takes its lambda, and finishes it.
pub cycle :
    (taken.running ≡ [] ++ worked ∷ [])
    × (finished.handler.posted ≡ [])
    × (finished.running ≡ [])
    × (begin_task lib mocking 8 worked.task asked.handler
        ≡ (record taken.handler { posted = asked.handler.posted }, [], some worked))
    × (work_result lib mocking worked.job ≡ ok mock_result)
    × (validate lib mocking none 5 validated ≡ ok (validation ∷ []))
unfolding validate validate_tree what text_eq of_hex from_hex number overlay set to_hex is_hex scan
    strip all_hex digits_of bytes_of print aquire_first_available_device driver_of find_device
    register_devices release release_at try_aquire default_server fetch_add less new_job
    set_priority start stop pop_job push take_top Key-discrete choose find key_of pairs strings
    text_of double_of unsigned_of print_bytes work_hex new_handler attach_correlation_id
    handle_request_async dispatch fill_job generate granted_priority report requested_difficulty
    erase_active insert_active take_task begin_task finish_task is_mock mocked result_tree
    work_result on_request on_take on_finish
cycle = (refl, refl, refl, refl, refl, refl)

pub never_throws : (j : Job ℕ) (e : Error) → work_result lib mocking j ≡ err e → ⊥
unfolding work_result is_mock
never_throws j e h = let fine : work_result lib mocking j ≡ ok mock_result = cycle.4 in absurd cc

pub taken-Reach : Reach lib mocking taken
taken-Reach = later (later initial (request generate_body 5)) (take 8 no_thread)

pub finished-Reach : Reach lib mocking finished
finished-Reach = later taken-Reach (finish 9 [] worked [] cycle.0)

-- The request that `cycle` runs is a history without a cancellation.
abbrev pub parsed : Object
parsed = elim (lib.json.read_json generate_body) [ ok tree ↦ tree | err e ↦ [] ]

abbrev pub first_job : List (Job ℕ) → Job ℕ
first_job [] = idle_running.job
first_job (j ∷ _) = j

abbrev pub queued_job : Job ℕ
queued_job = first_job asked.handler.jobs

abbrev pub idle : Handler ℕ
idle = (init lib mocking).handler

pub queueing :
    (mocking.server.allow_prioritization ≡ false)
    × (fill_job lib mocking parsed (new_job lib.fl lib.mp idle.job_id_dispenser) ≡ ok queued_job)
    × (handle_request_async lib mocking generate_body 5 idle ≡ (
      record idle {
        job_id_dispenser = fetch_add idle.job_id_dispenser;
        jobs = push idle.jobs queued_job;
        posted = idle.posted ++ record { correlation_id = some (codes "7"); client = 5 } ∷ [];
      },
      [],
    ))
    × ((take_task lib mocking 8 asked.handler).2 ≡ some worked)
unfolding text_eq of_hex from_hex number overlay set to_hex is_hex scan strip all_hex digits_of
    bytes_of print aquire_first_available_device driver_of find_device register_devices release
    release_at try_aquire default_server fetch_add less new_job set_priority start pop_job push
    take_top Key-discrete choose find key_of pairs strings text_of double_of unsigned_of new_handler
    handle_request_async dispatch fill_job generate granted_priority report requested_difficulty
    insert_active take_task begin_task on_request on_take
queueing = (refl, refl, refl, refl)

room : length idle.jobs < mocking.server.request_limit
unfolding default_server new_handler
room = omega arith

ids_left : idle.job_id_dispenser + 1 < 2 ^ 32
unfolding new_handler
ids_left = omega arith

pub asked-Calm :
    Calm lib mocking asked
      ((record { correlation_id = some (codes "7"); client = 5 }, queued_job.job_id) ∷ [])
asked-Calm =
    Calm.request generate_body 5
      (queued (some (codes "7")) parsed queued_job refl queueing.1 room queueing.2) Calm.initial
      refl ids_left
