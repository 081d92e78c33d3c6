-- ===== src/ControlPlane/Socket.antt =====
-- src/daemon/control_plane.rs: binding the control socket (`bind_control_listener`), and its
-- directory (`start_p2p_control_plane` up to the accept loop, with the permissions of macOS). The
-- state is that of the socket's path and its directory.
use iroh_proxy.Common.{
  ℕ, Bool, true, false, Option, none, some, Result, ok, err, if◌then◌else◌, bail_if, nat_eq,
}
use iroh_proxy.Common.State.{pure, fail, lift, ◌>>◌}

-- The process that bound the socket, and whether it still listens.
pub record SocketFile : Type 0 where
  pub owner : ℕ
  pub answers : Bool
  pub mode : ℕ

pub record ControlDir : Type 0 where
  pub dir_mode : Option ℕ
  pub socket : Option SocketFile

-- Which calls fail, at the first or at the second attempt to bind.
pub record SocketOs : Type 0 where
  pub process : ℕ
  pub create_mode : ℕ
  pub bind_fails : Bool → Bool
  pub metadata_fails : Bool → Bool
  pub probe_fails : Bool
  pub remove_fails : Bool
  pub create_dir_fails : Bool
  pub restrict_dir_fails : Bool
  pub restrict_socket_fails : Bool

-- The error kinds that the code tells apart.
pub data BindError : Type 0 where
  addr_in_use other_error : BindError

pub data Probe : Type 0 where
  answered refused not_found probe_error : Probe

pub data ControlError : Type 0 where
  already_served remove_failed rebind_failed probe_failed bind_failed : ControlError
  create_dir_failed restrict_dir_failed restrict_socket_failed : ControlError

-- What other processes do before the probe, the removal and the second bind, and between the bind and
-- the restriction of the socket, which goes by its path.
pub record Others : Type 0 where
  pub before_probe : ControlDir → ControlDir
  pub before_remove : ControlDir → ControlDir
  pub before_bind : ControlDir → ControlDir
  pub before_chmod : ControlDir → ControlDir

abbrev pub SocketIo : Type 0 → Type 0
SocketIo E = ControlDir → Result E (Unit {0}) × ControlDir

abbrev pub put_socket : Option SocketFile → ControlDir → ControlDir
put_socket socket d = record d { socket = socket }

module _ (os : SocketOs) where
  abbrev pub fresh_socket : Bool → SocketFile
  fresh_socket answers = record { owner = os.process; answers = answers; mode = os.create_mode }

  -- A listener that is dropped leaves its file behind.
  abbrev pub bind_at : Bool → Option SocketFile → SocketIo BindError
  bind_at again (some socket) d = fail (if os.bind_fails again then other_error else addr_in_use) d
  bind_at again none d =
      if os.bind_fails again
      then fail other_error d
      else if os.metadata_fails again
      then fail other_error (put_socket (some (fresh_socket false)) d)
      else pure tt (put_socket (some (fresh_socket true)) d)

  -- `L::bind`.
  abbrev pub bind : Bool → SocketIo BindError
  bind again d = bind_at again d.socket d

  abbrev pub probe_at : Option SocketFile → Probe
  probe_at none = not_found
  probe_at (some socket) = if socket.answers then answered else refused

  -- `L::probe`.
  abbrev pub probe : ControlDir → Probe
  probe d = if os.probe_fails then probe_error else probe_at d.socket

  -- The error of a failed bind after the removal.
  abbrev pub rebound :
      Result BindError (Unit {0}) × ControlDir → Result ControlError (Unit {0}) × ControlDir
  rebound (ok done, d) = (ok done, d)
  rebound (err e, d) = (err rebind_failed, d)

  abbrev pub remove_and_rebind :
      (ControlDir → ControlDir) → ControlDir → Result ControlError (Unit {0}) × ControlDir
  remove_and_rebind before_bind d =
      if os.remove_fails
      then fail remove_failed d
      else rebound (bind true (before_bind (put_socket none d)))

  module _ (others : Others) where
    abbrev pub after_probe : Probe → SocketIo ControlError
    after_probe answered d = fail already_served d
    after_probe refused d = remove_and_rebind others.before_bind (others.before_remove d)
    after_probe not_found d = remove_and_rebind others.before_bind (others.before_remove d)
    after_probe probe_error d = fail probe_failed d

    abbrev pub after_bind :
        Result BindError (Unit {0}) × ControlDir → Result ControlError (Unit {0}) × ControlDir
    after_bind (ok done, d) = (ok done, d)
    after_bind (err addr_in_use, d) = let d' = others.before_probe d in after_probe (probe d') d'
    after_bind (err other_error, d) = (err bind_failed, d)

    unfoldable pub bind_control_listener : SocketIo ControlError
    bind_control_listener d = after_bind (bind false d)

    -- Dropping the listener on an error leaves the socket at the path, which may be another one.
    abbrev pub close_listener : Option SocketFile → Option SocketFile
    close_listener none = none
    close_listener (some socket) =
        some (if nat_eq socket.owner os.process then record socket { answers = false } else socket)

    -- `set_permissions` at the socket's path.
    abbrev pub restrict_at : Option SocketFile → SocketIo ControlError
    restrict_at none d = fail restrict_socket_failed d
    restrict_at (some socket) d =
        if os.restrict_socket_fails
        then fail restrict_socket_failed (put_socket (close_listener (some socket)) d)
        else pure tt (put_socket (some (record socket { mode = 384 })) d)

    abbrev pub restrict_socket : SocketIo ControlError
    restrict_socket d = restrict_at d.socket d

    unfoldable pub start_p2p_control_plane : SocketIo ControlError
    unfolding bind_control_listener
    start_p2p_control_plane = do
      lift (bail_if os.create_dir_fails create_dir_failed)
      lift (bail_if os.restrict_dir_fails restrict_dir_failed)
      λ d. pure tt (record d { dir_mode = some 448 })
      bind_control_listener
      λ d. restrict_socket (others.before_chmod d)
