-- ===== src/Lib.antt =====
-- iroh-proxy: a server that exposes local TCP targets as named services over iroh, and forwards local
-- listeners to the services of remote endpoints. This library models its Rust code, under src/ of the
-- repository, and proves what makes its parts correct.
--
-- The parts and their files:
-- * RemotePath (src/remote_path.rs): service names, the ALPN identifier of a service
--   (`service_to_alpn`) and the path `<endpoint id>/tcp/<service>` (`parse` is `RemotePath::from_str`).
--   RemotePath/Names, Alpn and Parsing have their laws.
-- * Config (src/config.rs): Config/Rules has the rules in memory, Config/Files the configuration file:
--   `write_config_atomic`, `load_config_or_default` and the persistent additions and removals, as
--   actions on the files of the configuration's directory. Atomic, Loading, Serving and Forwarding
--   are about what they do when calls of the operating system fail; Codec has a concrete codec.
-- * Daemon (src/daemon/): Connections is the registry of live connections (connections.rs), whose
--   guards' drops are steps; Tracking is about their interleavings. State has the
--   routes, the forward listeners and their tasks (mod.rs, routes.rs, forwards.rs), Service the control
--   interface (service.rs), Start the loading of the configuration by `run_server` (mod.rs), Incoming
--   the handling of an incoming connection (routes.rs). Served, Loaded and Routed are about which names are
--   served, by what, and which connections reach a target; Owned, Reaching and Listening about the states that it reaches and the tasks of the
--   forward listeners. Diagnostics has the events that are logged of a connection (diagnostics.rs),
--   Reported is about what they tell.
-- * ControlPlane (src/daemon/control_plane.rs): Socket binds the control socket
--   (`bind_control_listener`, and `start_p2p_control_plane` up to its accept loop), Peers has the table
--   of connected peers, its signals and monitors; Starting, Connected and Signals are about them.
-- * Keys (src/keys.rs): the key file, its permissions and its lock. Private is about what is stored and
--   who may read it, Stable about loading it again, Locking about the server's lock.
-- * FdPass (src/fdpass.rs): the descriptors that the parent of `ProxyUseFdpass` sends and its relay
--   inherits. Inherited and Relay are about them.
-- * Systemd (src/systemd.rs): the user unit. Reading has a reader of its ExecStart line, Installed is
--   about the installed unit.
-- * Proxy (src/proxy.rs): Retry is the retry loop with its deadline, Errors the classification of
--   errors, which Connecting joins with the loop, Pump the bidirectional copy with
--   its abortable task, and the forwarding of a connection. Retrying and Pumping are about how they end.
-- * Control (src/control.rs) has the records of the control client and its queries, over the replies
--   of the transport.
-- * Tui (src/tui.rs): App has the state of the terminal interface, Keys its keys, Dialogs the keys of a
--   dialog, Fetch the query of the server, Loop the event loop, Labels, Draw and Popup what is drawn, as
--   text. Consistent, Sessions, Moves, Fields and Looping are about what holds in every round of the
--   loop, Fetching about what is shown of a server, Drawn about what the keys do to what is drawn.
-- * Commands (src/main.rs, src/tui.rs): Persistent has the commands and dialogs that add and remove
--   rules at the server and in the configuration; Rollback and ForwardRollback are about a persistence
--   that fails, Deleting about removals. Starting has the start of a server in the background, Started
--   is about how it ends.
-- * Server (src/main.rs, src/daemon/mod.rs): the command `Server`, which joins the key, the configuration,
--   the rules and the control socket; Runs is about what holds while it accepts connections.
-- * Standalone (src/forward.rs, src/main.rs, src/fdpass.rs): forwarding without a server. Bindings is
--   about what `forward-config` serves, Relay about the relays of standard streams and of a descriptor.
-- * Build (build.rs, src/version.rs): the time of the build and the version line. Calendar is the
--   calendar that Dates compares the dates with.
-- * Common has the shared helpers: tests, lists, results, actions on a state (State), maps as
--   association lists (Dict), texts as code points (Text, Utf8) and decimal numbers. In a `Tests`
--   module of each part are runs and the theorems at concrete inputs.
--
-- How the parts interact: a command calls the control service and then the configuration; the service
-- changes the routes and tells the endpoint its identifiers; an incoming connection looks its
-- identifier up in the routes and is registered while the pump runs; a forward listener's task
-- registers each connection that the retry loop established. The terminal interface runs the same calls
-- from its dialogs, and shows what a query of the service lists.
--
-- How the code is modelled: code that changes a state is a function from the state to a result
-- and a new state; a method that takes a lock is one step, so concurrency is the order of such
-- steps. `RwLock<HashMap>` is an association list whose order stands for the unspecified
-- iteration order. A listener's task is a number with the guards it holds and its phase:
-- aborting it schedules its cancellation, which is a later step, as is the end of each of its
-- connections. Time is a number of nanoseconds; how long an attempt takes, when a copy ends and
-- how late a timer fires are given from outside. A path is a file name in the configuration's
-- directory. Errors are data, without their formatting.
--
-- Other processes act on a key file before each round and between its read and its creation, and on a
-- control socket between the system calls, as functions on its state; what they do to a key file
-- while this process writes or restricts it is not modelled.
--
-- Bounds and fuel: registry ids and the ids of peers are 64 bits wide and the retry counter 32,
-- with their wrap-around. The retry loop runs on one unit of fuel for each allowed attempt, since
-- each turn makes one; decimal printing on the number itself plus one, which exceeds its count of
-- digits; the recursion of `load_or_create_secret_key` on a count of rounds, of which two are
-- enough unless another process removes the file again and again; the loop of `send_fd` on a count
-- of calls, one more than those that are interrupted. The polling for a started server has the 30
-- turns of the source; the event loop runs over the list of events that arrive.
--
-- Parameters for code of other packages: `Iroh` (reading and printing an endpoint id), `Toml` (reading
-- and printing a configuration), `Secret` (reading and printing a key), `Os`, `KeyOs`, `UnitOs`,
-- `FdOs` and `SocketOs` (which calls fail), whether an address can be bound, what a query of a server
-- returns, and the formatting of errors. A theorem that relies on their behaviour says so.
--
-- Not modelled: the terminal's set-up, its input thread, and the layout and styles of what is drawn
-- (src/tui.rs), the session bus of Linux and the transport of the control client
-- (src/daemon/control_plane.rs, src/control.rs), endpoint construction (src/proxy.rs), the printing of
-- the status (src/main.rs), the outputs of git, rustc and cargo (build.rs), argument parsing
-- (src/cli.rs), and on Windows the replacement of the configuration file. They are glue to the
-- operating system, or need only the crates they call.
pub mod Common
pub mod Build
pub mod RemotePath
pub mod Config
pub mod Daemon
pub mod Proxy
pub mod Control
pub mod Tui
pub mod Commands
pub mod Keys
pub mod Systemd
pub mod ControlPlane
pub mod FdPass
pub mod Standalone
pub mod Server
