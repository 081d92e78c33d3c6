-- ===== src/FdPass.antt =====
-- src/fdpass.rs: the descriptors that the parent sends to ssh and leaves to the relay. The state of a
-- process is its table of descriptors.
use iroh_proxy.Common.{
  ℕ, zero, suc, Bool, true, false, Option, none, some, List, [], ◌∷◌, Result, ok, err, ◌>>=◌, ◌>>◌,
  bail_if, nat_eq, if◌then◌else◌, ℕ_Keyed,
}
use iroh_proxy.Common.Dict.{Dict, lookup, insert, remove}
pub mod Inherited
pub mod Relay
mod Tests

-- What a descriptor refers to: the ends of the new socket pair, or what was open before.
pub data File : Type 0 where
  dev_null for_ssh for_child : File
  inherited : ℕ → File

pub record Descriptor : Type 0 where
  pub file : File
  pub close_on_exec : Bool

abbrev pub Table : Type 0
Table = Dict ℕ Descriptor

pub record FdOs : Type 0 where
  pub socketpair_fails : Bool
  pub dup2_fails : Bool
  pub fcntl_fails : Bool
  pub spawn_fails : Bool

pub data FdError : Type 0 where
  socketpair_failed spawn_failed bad_descriptor : FdError
  send_failed : ℕ → FdError

-- The two numbers are unused ones; std opens sockets close-on-exec.
unfoldable pub unix_socketpair : ℕ → ℕ → Table → Table
unix_socketpair ssh_raw child_raw table =
    insert child_raw (record { file = for_child; close_on_exec = true })
      (insert ssh_raw (record { file = for_ssh; close_on_exec = true }) table)

-- `Stdio::null()` for the three standard streams, which std sets up before `pre_exec`.
unfoldable pub null_stdio : Table → Table
null_stdio table =
    insert 2 (record { file = dev_null; close_on_exec = false })
      (insert 1 (record { file = dev_null; close_on_exec = false })
        (insert 0 (record { file = dev_null; close_on_exec = false }) table))

-- `dup2`, which leaves the table alone if the numbers are the same.
abbrev pub dup2_of : ℕ → ℕ → Table → Option Descriptor → Result FdError Table
dup2_of old new table none = err bad_descriptor
dup2_of old new table (some descriptor) = ok (
    if nat_eq old new
    then table
    else insert new (record descriptor { close_on_exec = false }) table)

unfoldable pub dup2 : ℕ → ℕ → Table → Result FdError Table
dup2 old new table = dup2_of old new table (lookup old table)

-- `fcntl(F_SETFD)` without FD_CLOEXEC.
abbrev pub clear_of : ℕ → Table → Option Descriptor → Result FdError Table
clear_of fd table none = err bad_descriptor
clear_of fd table (some descriptor) =
    ok (insert fd (record descriptor { close_on_exec = false }) table)

unfoldable pub clear_close_on_exec : ℕ → Table → Result FdError Table
clear_close_on_exec fd table = clear_of fd table (lookup fd table)

-- The closure of `pre_exec`.
unfoldable pub pre_exec : FdOs → ℕ → Table → Result FdError Table
unfolding dup2 clear_close_on_exec
pre_exec os child_raw table = do
  bail_if os.dup2_fails spawn_failed
  duplicated ← dup2 child_raw 3 table
  bail_if os.fcntl_fails spawn_failed
  clear_close_on_exec 3 duplicated

-- What is left in the new program.
unfoldable pub exec : Table → Table
exec [] = []
exec ((fd, descriptor) ∷ table) =
    let rest = exec table in if descriptor.close_on_exec then rest else (fd, descriptor) ∷ rest

-- The relay's table.
unfoldable pub spawn_relay_child : FdOs → ℕ → Table → Result FdError Table
unfolding null_stdio pre_exec exec
spawn_relay_child os child_raw table = do
  prepared ← pre_exec os child_raw (null_stdio table)
  bail_if os.spawn_fails spawn_failed
  ok (exec prepared)

-- What a call of `sendmsg` gives.
pub data Sendmsg : Type 0 where
  sent interrupted : Sendmsg
  failed : ℕ → Sendmsg

-- The loop of `send_fd`, on fuel: the calls from the given one on.
unfoldable pub send_fd : ℕ → (ℕ → Sendmsg) → ℕ → Option (Result FdError (Unit {0}))
send_fd zero calls i = none
send_fd (suc fuel) calls i = elim (calls i) [
  | sent ↦ some (ok tt)
  | interrupted ↦ send_fd fuel calls (suc i)
  | failed code ↦ some (err (send_failed code))
]

-- The relay's table and the end of the call, which drops the relay's end and sends the other one.
unfoldable pub run_fdpass_parent :
    FdOs → ℕ → ℕ → ℕ → (ℕ → Sendmsg) → Table → Option (Result FdError Table)
unfolding unix_socketpair spawn_relay_child send_fd
run_fdpass_parent os ssh_raw child_raw fuel calls table =
    elim (bail_if os.socketpair_fails socketpair_failed
      >> spawn_relay_child os child_raw (unix_socketpair ssh_raw child_raw table)) [
        | err e ↦ some (err e)
        | ok relay ↦ elim (send_fd fuel calls 0) [ none ↦ none | some r ↦ some (r >> ok relay) ]
      ]
