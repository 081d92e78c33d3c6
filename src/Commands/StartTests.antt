-- ===== src/Commands/StartTests.antt =====
-- Runs of the start of a server, and the theorem at a concrete input.
use iroh_proxy.Common.{ℕ, ◌≡◌, refl, true, false, none, some, [], ◌∷◌, ok, err, if◌then◌else◌, ltb}
use iroh_proxy.Common.Text.{text}
use iroh_proxy.Common.Utf8.{text_computes}
use iroh_proxy.Daemon.Service.{Status}
use iroh_proxy.Control.{Transport, client_status, connect_running}
use iroh_proxy.Commands.Starting.{
  running, exited, Launch, timed_out, exited_while_starting, started, already_running, server_args,
  is_answering, poll_once, poll, ensure_server_running, start_backend,
}
use iroh_proxy.Commands.Started.{Launches, ensure_server_running-Launches}

abbrev empty_status : Status
empty_status = record { endpoint_id = text "a"; connections = 0; served = 0; forwards = 0 }

abbrev answers : Transport
answers = record { connects = true; builds_proxy = true; status_reply = some empty_status }

abbrev silent : Transport
silent = record answers { connects = false }

-- A server that answers from the given query on.
abbrev answers_from : ℕ → Launch
answers_from n = record {
  current_exe = some (text "x");
  spawns = true;
  answer = λ k. if ltb k n then silent else answers;
  wait = λ k. running;
}

start_runs : Unit {0}
unfolding text_computes client_status connect_running server_args is_answering poll_once poll
    ensure_server_running start_backend
start_runs = tt

-- A server that another command has just spawned holds the key's lock, so the child exits; the
-- command fails although that server answers at the next query.
abbrev second_start : Launch
second_start = record (answers_from 2) { wait = λ k. exited (text "1") }

start_tests :
    (start_backend (answers_from 0) none (text "c") true
      ≡ (ok false, record { result = ok already_running; children = []; sleeps = 0 }))
    × (start_backend (answers_from 3) (some (text "k")) (text "c") false ≡ (
      ok true,
      record {
        result = ok started;
        children =
            (text "x"
              ∷ text "--key-file"
              ∷ text "k"
              ∷ text "--no-mdns"
              ∷ text "--config-file"
              ∷ text "c"
              ∷ text "server"
              ∷ [])
            ∷ [];
        sleeps = 3;
      },
    ))
    × ((ensure_server_running (answers_from 31) none (text "c") true).result ≡ err timed_out)
    × ((ensure_server_running second_start none (text "c") true).result
        ≡ err (exited_while_starting (text "1")))
unfolding start_runs
start_tests = (refl, refl, refl, refl)

ensure_server_running-Launches_example :
    Launches
      (answers_from 3)
      (server_args none (text "c") true)
      (ensure_server_running (answers_from 3) none (text "c") true)
ensure_server_running-Launches_example =
    ensure_server_running-Launches (answers_from 3) none (text "c") true
