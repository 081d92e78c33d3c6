-- ===== src/ControlPlane/Starting.antt =====
-- src/daemon/control_plane.rs: a socket that a daemon serves is spared, a stale one replaced.
use iroh_proxy.Common.{
  ℕ, ◌≡◌, Bool, true, false, Option, none, some, Result, ok, err, is_ok, arith, inl, inr,
  Bool-cases, ◌∙◌,
}
use iroh_proxy.Common.State.{continue}
use iroh_proxy.ControlPlane.Socket.{
  restrict_socket, SocketFile, ControlDir, SocketOs, ControlError, Others, fresh_socket, put_socket,
  bind_control_listener, start_p2p_control_plane,
}

-- The calls of an operating system that does not fail.
pub record IsSound (os : SocketOs) : Type 0 where
  pub binds : (again : Bool) → os.bind_fails again ≡ false
  pub inspects : (again : Bool) → os.metadata_fails again ≡ false
  pub probes : os.probe_fails ≡ false
  pub removes : os.remove_fails ≡ false

abbrev pub idle_others : Others
idle_others = record {
  before_probe = λ d. d;
  before_remove = λ d. d;
  before_bind = λ d. d;
  before_chmod = λ d. d;
}

abbrev dir_at : Option ℕ → Option SocketFile → ControlDir
dir_at mode socket = record { dir_mode = mode; socket = socket }

-- A socket that this process serves, and only its owner may use, in a directory for its owner.
abbrev pub private_socket : SocketOs → SocketFile
private_socket os = record { owner = os.process; answers = true; mode = 384 }

abbrev pub Started : SocketOs → Result ControlError (Unit {0}) × ControlDir → Type 0
Started os (ok done, d) = (d.socket ≡ some (private_socket os)) × (d.dir_mode ≡ some 448)
Started os (err e, d) = Unit

-- Other processes leave the directory's mode alone, and the socket that this process just bound.
pub record LetsStart (os : SocketOs) (others : Others) : Type 0 where
  pub probe_mode : (d : ControlDir) → (others.before_probe d).dir_mode ≡ d.dir_mode
  pub remove_mode : (d : ControlDir) → (others.before_remove d).dir_mode ≡ d.dir_mode
  pub bind_mode : (d : ControlDir) → (others.before_bind d).dir_mode ≡ d.dir_mode
  pub chmod_mode : (d : ControlDir) → (others.before_chmod d).dir_mode ≡ d.dir_mode
  pub chmod_socket :
      (d : ControlDir)
      → d.socket ≡ some (fresh_socket os true)
      → (others.before_chmod d).socket ≡ some (fresh_socket os true)

module _ (os : SocketOs) where
  -- While a daemon answers on the socket, a second one does not start, and leaves the socket alone,
  -- whatever other processes do once it was found to answer.
  pub bind_control_listener-spares :
      (others : Others) (d : ControlDir) (served : SocketFile)
      → d.socket ≡ some served
      → (others.before_probe d).socket ≡ some served
      → served.answers ≡ true
      → let r = bind_control_listener os others d in
        (is_ok r.0 ≡ false) × (r.1.socket ≡ some served)
  unfolding bind_control_listener
  bind_control_listener-spares others d served e h live = go d.socket e h
    where
      go :
          (socket : Option SocketFile)
          → socket ≡ some served
          → (others.before_probe (dir_at d.dir_mode socket)).socket ≡ some served
          → let r = bind_control_listener os others (dir_at d.dir_mode socket) in
            (is_ok r.0 ≡ false) × (r.1.socket ≡ some served)
      go none e h = ground arith
      go (some socket) e h = ground arith

  -- A socket that no daemon answers on is replaced, and the listener started, if no call fails and no
  -- other process interferes.
  pub bind_control_listener-recovers :
      (d : ControlDir) (stale : SocketFile)
      → IsSound os
      → d.socket ≡ some stale
      → stale.answers ≡ false
      → bind_control_listener os idle_others d ≡ (ok tt, put_socket (some (fresh_socket os true)) d)
  unfolding bind_control_listener
  bind_control_listener-recovers d stale sound e dead =
      ground (arith, sound.binds false, sound.binds true, sound.inspects false, sound.inspects true)

  -- What a bound listener leaves: its fresh socket, in a directory for its owner.
  abbrev Bound : Result ControlError (Unit {0}) × ControlDir → Type 0
  Bound (ok done, d) = (d.socket ≡ some (fresh_socket os true)) × (d.dir_mode ≡ some 448)
  Bound (err e, d) = Unit

  bind_control_listener-Bound :
      (others : Others) (socket : Option SocketFile)
      → LetsStart os others
      → Bound (bind_control_listener os others (dir_at (some 448) socket))
  unfolding bind_control_listener
  bind_control_listener-Bound others none lets = ground arith
  bind_control_listener-Bound others (some s) lets =
      let d = others.before_probe (dir_at (some 448) (some s)) in
      let d' = others.before_remove d in
      ground (
        arith,
        lets.probe_mode (dir_at (some 448) (some s)),
        lets.remove_mode d,
        lets.bind_mode (put_socket none d'),
      )

  restrict_socket-Started :
      (others : Others) (socket : Option SocketFile) (mode : Option ℕ)
      → socket ≡ some (fresh_socket os true)
      → mode ≡ some 448
      → Started os (restrict_socket os others (dir_at mode socket))
  restrict_socket-Started others none mode e f = cc
  restrict_socket-Started others (some s) mode e f = ground arith

  restricted :
      (others : Others) (r : Result ControlError (Unit {0}) × ControlDir)
      → LetsStart os others
      → Bound r
      → Started os (continue r (λ done d. restrict_socket os others (others.before_chmod d)))
  restricted others (ok done, d) lets (e, mode) =
      restrict_socket-Started others (others.before_chmod d).socket (others.before_chmod d).dir_mode
        (lets.chmod_socket d e) (lets.chmod_mode d ∙ mode)
  restricted others (err e, d) lets h = tt

  -- A control plane that started serves its socket from a directory and a file that only their
  -- owner may use, whatever socket was there, if other processes leave the directory's mode alone
  -- and do not replace the socket between its binding and its restriction.
  pub start_p2p_control_plane-Started :
      (others : Others) (d : ControlDir)
      → LetsStart os others
      → Started os (start_p2p_control_plane os others d)
  unfolding start_p2p_control_plane
  start_p2p_control_plane-Started others d lets = elim (Bool-cases os.create_dir_fails) [
    | inl e ↦ rw e tt
    | inr e ↦ elim (Bool-cases os.restrict_dir_fails) [
      | inl f ↦ rw (e, f) tt
      | inr f ↦
          rw (e, f) (restricted others _ lets (bind_control_listener-Bound others d.socket lets))
    ]
  ]
