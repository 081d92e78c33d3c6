-- ===== src/Commands/Starting.antt =====
-- src/main.rs and src/tui.rs: starting a server in the background, `ensure_server_running` and
-- `start_backend`. The server is queried at once and after each sleep; query `k` is that after `k`
-- sleeps.
use iroh_proxy.Common.{
  ℕ, zero, suc, ◌+◌, ◌*◌, Bool, true, false, Option, none, some, List, [], ◌∷◌, ◌++◌, Result, ok,
  err, if◌then◌else◌, is_some,
}
use iroh_proxy.Common.Text.{Text, text}
use iroh_proxy.Control.{Transport, connect_running}

-- What `try_wait` tells of the child: the text of its exit status once it has ended.
pub data Waited : Type 0 where
  wait_failed running : Waited
  exited : Text → Waited

-- What the operating system and the server do: the path of the executable, whether the child can be
-- spawned, and the query and `try_wait` after so many sleeps.
pub record Launch : Type 0 where
  pub current_exe : Option Text
  pub spawns : Bool
  pub answer : ℕ → Transport
  pub wait : ℕ → Waited

pub data StartError : Type 0 where
  no_executable spawn_failed waiting_failed timed_out : StartError
  exited_while_starting : Text → StartError

-- A server that ran before, or that the call started.
pub data Found : Type 0 where
  already_running started : Found

-- How a call ends: its result, the command lines of the children it spawned, and its sleeps.
pub record Launched : Type 0 where
  pub result : Result StartError Found
  pub children : List (List Text)
  pub sleeps : ℕ

-- 200 ms for each sleep.
abbrev pub slept_ms : Launched → ℕ
slept_ms launched = launched.sleeps * 200

abbrev pub rounds : ℕ
rounds = 30

abbrev pub key_file_args : Option Text → List Text
key_file_args none = []
key_file_args (some path) = text "--key-file" ∷ path ∷ []

abbrev pub mdns_args : Bool → List Text
mdns_args mdns_enabled = if mdns_enabled then [] else text "--no-mdns" ∷ []

-- The arguments of the child.
unfoldable pub server_args : Option Text → Text → Bool → List Text
server_args key_file config_file mdns_enabled =
    key_file_args key_file
    ++ (mdns_args mdns_enabled ++ (text "--config-file" ∷ config_file ∷ text "server" ∷ []))

module _ (launch : Launch) where
  unfoldable pub is_answering : ℕ → Bool
  is_answering k = is_some (connect_running (launch.answer k))

  -- One turn of the loop; `none` goes on.
  unfoldable pub poll_once : ℕ → Option (Result StartError Found)
  unfolding is_answering
  poll_once k = if is_answering k then some (ok started) else elim (launch.wait k) [
    | wait_failed ↦ some (err waiting_failed)
    | exited status ↦ some (err (exited_while_starting status))
    | running ↦ none
  ]

  -- The turns that are left, after so many sleeps: the result, and all sleeps.
  unfoldable pub poll : ℕ → ℕ → Result StartError Found × ℕ
  unfolding poll_once
  poll zero k = (err timed_out, k)
  poll (suc left) k = elim (poll_once (k + 1)) [ some r ↦ (r, k + 1) | none ↦ poll left (k + 1) ]

  abbrev pub launched_with : List Text → Result StartError Found × ℕ → Launched
  launched_with args (result, sleeps) = record {
    result = result;
    children = args ∷ [];
    sleeps = sleeps;
  }

  abbrev pub not_launched : Result StartError Found → Launched
  not_launched result = record { result = result; children = []; sleeps = 0 }

  abbrev pub spawn_server : Option Text → List Text → Launched
  spawn_server none args = not_launched (err no_executable)
  spawn_server (some exe) args =
      if launch.spawns
      then launched_with (exe ∷ args) (poll rounds 0)
      else not_launched (err spawn_failed)

  unfoldable pub ensure_server_running : Option Text → Text → Bool → Launched
  unfolding poll is_answering server_args
  ensure_server_running key_file config_file mdns_enabled =
      if is_answering 0
      then not_launched (ok already_running)
      else spawn_server launch.current_exe (server_args key_file config_file mdns_enabled)

  -- The same steps; the result is whether a server was started.
  abbrev pub was_started : Result StartError Found → Result StartError Bool
  was_started (ok already_running) = ok false
  was_started (ok started) = ok true
  was_started (err e) = err e

  unfoldable pub start_backend : Option Text → Text → Bool → Result StartError Bool × Launched
  unfolding ensure_server_running
  start_backend key_file config_path mdns_enabled =
      let launched = ensure_server_running key_file config_path mdns_enabled in
      (was_started launched.result, launched)
