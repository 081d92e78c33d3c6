-- ===== src/Proxy/Pump.antt =====
-- src/proxy.rs: `pump_streams` and `forward_tcp_conn`.
use iroh_proxy.Common.{
  ℕ, ◌+◌, max, Bool, true, false, Option, none, some, Result, ok, err, if◌then◌else◌, leb,
}
use iroh_proxy.Daemon.Connections.{ActiveConnection, ConnectionRegistry, register, drop_guard}

-- How `io::copy` and the shutdown after it end: the copied bytes or an error. The down direction runs
-- in a task of its own, which may panic.
pub data Copied : Type 0 where
  bytes : ℕ → Copied
  copy_failed panicked : Copied

-- When each direction ends, if ever, and how; and by how much the response's timer fires late.
pub record Streams : Type 0 where
  pub up_end : Option ℕ
  pub up : Result (Unit {0}) ℕ
  pub down_end : Option ℕ
  pub down : Copied
  pub timer_late : ℕ

pub record PumpStats : Type 0 where
  pub up_bytes : ℕ
  pub down_bytes : ℕ
  pub timed_out : Bool

pub data PumpError : Type 0 where
  local_to_iroh_failed iroh_to_local_failed task_panicked : PumpError

-- The down task when the call returns.
pub data Task : Type 0 where
  running finished aborted : Task

pub record Pumped : Type 0 where
  pub result : Result PumpError PumpStats
  pub at : ℕ
  pub down_task : Task

-- A task that is over when it is aborted stays so.
abbrev pub abort_at : ℕ → Option ℕ → Task
abort_at now none = aborted
abort_at now (some ended) = if leb ended now then finished else aborted

-- `joined.context(..)??`, and the statistics.
abbrev pub joined : ℕ → Copied → Result PumpError PumpStats
joined up_bytes (bytes n) = ok (record { up_bytes = up_bytes; down_bytes = n; timed_out = false })
joined up_bytes copy_failed = err iroh_to_local_failed
joined up_bytes panicked = err task_panicked

abbrev pub timed_out_at : Streams → ℕ → ℕ → Pumped
timed_out_at streams fires up_bytes = record {
  result = ok (record { up_bytes = up_bytes; down_bytes = 0; timed_out = true });
  at = fires;
  down_task = abort_at fires streams.down_end;
}

abbrev pub joined_at : Streams → ℕ → ℕ → Pumped
joined_at streams at up_bytes = record {
  result = joined up_bytes streams.down;
  at = at;
  down_task = finished;
}

-- `timeout(.., &mut down)`, which polls the task when its timer fires.
unfoldable pub await_within : Streams → ℕ → ℕ → ℕ → Option ℕ → Pumped
await_within streams now fires up_bytes none = timed_out_at streams fires up_bytes
await_within streams now fires up_bytes (some ended) =
    if leb ended fires
    then joined_at streams (max now ended) up_bytes
    else timed_out_at streams fires up_bytes

-- `(&mut down).await`, which does not return if the task never ends.
unfoldable pub await_end : Streams → ℕ → ℕ → Option ℕ → Option Pumped
await_end streams now up_bytes none = none
await_end streams now up_bytes (some ended) = some (joined_at streams (max now ended) up_bytes)

-- The rest of the call, from the end of the up direction at `now`.
unfoldable pub after_up : Streams → Option ℕ → ℕ → Result (Unit {0}) ℕ → Option Pumped
unfolding await_within await_end
after_up streams close_on_request_timeout now (err e) = some (record {
  result = err local_to_iroh_failed;
  at = now;
  down_task = abort_at now streams.down_end;
})
after_up streams (some timeout) now (ok up_bytes) =
    some (await_within streams now (now + timeout + streams.timer_late) up_bytes streams.down_end)
after_up streams none now (ok up_bytes) = await_end streams now up_bytes streams.down_end

-- `none` stands for a call that does not return.
unfoldable pub pump_streams : Streams → Option ℕ → Option Pumped
unfolding after_up
pump_streams streams close_on_request_timeout = elim streams.up_end [
  | none ↦ none
  | some now ↦ after_up streams close_on_request_timeout now streams.up
]

-- The iroh connection of a forwarded stream.
pub data Link : Type 0 where
  not_connected opened closed : Link

pub data ForwardError (E : Type 0) : Type 0 where
  connect_failed : E → ForwardError E
  open_bi_failed : ForwardError E
  pump_failed : PumpError → ForwardError E

pub record Forwarded (E : Type 0) : Type 0 where
  pub result : Result (ForwardError E) Bool
  pub registry : ConnectionRegistry
  pub link : Link

-- The end of the call: `result?`, with the guard dropped on the way out.
abbrev pub finish_forward :
    {E : Type 0} → ℕ → ConnectionRegistry → Link → Result (ForwardError E) Bool → Forwarded E
finish_forward guard registry link result = record {
  result = result;
  registry = drop_guard guard registry;
  link = link;
}

abbrev pub pump_result : {E : Type 0} → Result PumpError PumpStats → Result (ForwardError E) Bool
pump_result (ok stats) = ok stats.timed_out
pump_result (err e) = err (pump_failed e)

-- The close of the connection after the copying, and the return.
abbrev pub after_pump : {E : Type 0} → ℕ → ConnectionRegistry → Option Pumped → Option (Forwarded E)
after_pump guard held none = none
after_pump guard held (some pumped) =
    some (finish_forward guard held closed (pump_result pumped.result))

-- `connected` is what `connect_remote_with_retry` returns, `open_bi` whether the stream opens and
-- the streams it has, `others` what the registry's other users do meanwhile. Dropping the last
-- handle of a connection closes it. The result is whether the timeout was reached.
unfoldable pub forward_tcp_conn :
    {E : Type 0}
    → Result E (Unit {0})
    → Option Streams
    → ActiveConnection
    → ℕ
    → (ConnectionRegistry → ConnectionRegistry)
    → ConnectionRegistry
    → Option (Forwarded E)
unfolding pump_streams
forward_tcp_conn (err e) open_bi info timeout others registry =
    some
      (record { result = err (connect_failed e); registry = others registry; link = not_connected })
forward_tcp_conn (ok connected) open_bi info timeout others registry =
    let (guard, held) = register info registry in
    elim open_bi [
      | none ↦ some (finish_forward guard (others held) closed (err open_bi_failed))
      | some streams ↦ after_pump guard (others held) (pump_streams streams (some timeout))
    ]
