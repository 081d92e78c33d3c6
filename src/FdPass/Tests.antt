-- ===== src/FdPass/Tests.antt =====
-- Runs of src/fdpass.rs, and the theorem at a concrete input.
use iroh_proxy.Common.{
  ℕ, ◌≡◌, refl, false, true, none, some, [], ◌∷◌, ok, err, arith, nat_eq, if◌then◌else◌, ℕ_Keyed,
}
use iroh_proxy.Common.Dict.{lookup, insert, keys}
use iroh_proxy.FdPass.{
  dev_null, for_child, inherited, Table, FdOs, Sendmsg, sent, interrupted, failed, send_failed,
  spawn_failed, unix_socketpair, null_stdio, dup2, clear_close_on_exec, pre_exec, exec,
  spawn_relay_child, send_fd, run_fdpass_parent,
}
use iroh_proxy.FdPass.Inherited.{IsPair}
use iroh_proxy.FdPass.Relay.{Passes, run_fdpass_parent-Passes}

abbrev no_faults : FdOs
no_faults = record {
  socketpair_fails = false;
  dup2_fails = false;
  fcntl_fails = false;
  spawn_fails = false;
}

-- The standard streams that ssh gives.
abbrev from_ssh : Table
from_ssh =
    (0, record { file = inherited 0; close_on_exec = false })
    ∷ (1, record { file = inherited 1; close_on_exec = false })
    ∷ []

abbrev interrupted_once : ℕ → Sendmsg
interrupted_once i = if nat_eq i 0 then interrupted else sent

abbrev relay_table : Table
relay_table =
    (0, record { file = dev_null; close_on_exec = false })
    ∷ (1, record { file = dev_null; close_on_exec = false })
    ∷ (3, record { file = for_child; close_on_exec = false })
    ∷ (2, record { file = dev_null; close_on_exec = false })
    ∷ []

fd_runs : Unit {0}
unfolding lookup insert keys unix_socketpair null_stdio dup2 clear_close_on_exec pre_exec exec
    spawn_relay_child send_fd run_fdpass_parent
fd_runs = tt

-- Either end may have got the number 3.
fd_tests :
    (run_fdpass_parent no_faults 3 4 2 interrupted_once from_ssh ≡ some (ok relay_table))
    × (run_fdpass_parent no_faults 4 3 2 interrupted_once from_ssh ≡ some (ok relay_table))
    × (run_fdpass_parent no_faults 4 3 1 interrupted_once from_ssh ≡ none)
    × (run_fdpass_parent (record no_faults { dup2_fails = true }) 4 3 1 interrupted_once from_ssh
        ≡ some (err spawn_failed))
    × (run_fdpass_parent no_faults 4 3 1 (λ i. failed 9) from_ssh ≡ some (err (send_failed 9)))
unfolding fd_runs
fd_tests = (refl, refl, refl, refl, refl)

from_ssh-IsPair : IsPair 4 3 from_ssh
unfolding lookup keys
from_ssh-IsPair = record {
  high = omega arith;
  distinct = ((λ e. omega (arith, e), tt), (tt, tt));
  unused = λ fd d found is. ground arith;
}

run_fdpass_parent-Passes_example :
    Passes (run_fdpass_parent no_faults 4 3 2 interrupted_once from_ssh)
run_fdpass_parent-Passes_example =
    run_fdpass_parent-Passes no_faults 4 3 2 1 interrupted_once from_ssh from_ssh-IsPair
      (omega arith) (λ e. ground arith)
