-- ===== src/Lib.antt =====
-- SYSU NetAuth: an 802.1X client for wired campus networks. A background service owns the
-- authentication; front ends talk to it over a local socket.
--
-- The parts and their files:
--   Protocol         src/protocol.rs: EAPOL frames. `parse`, `control`, `response` and `answer`
--                    stand for the functions of these names; a frame is a list of bytes.
--   Authentication   src/authentication.rs: what a received packet leads to. `receive` returns the
--                    pinned authenticator, which the source updates in place.
--   Config           src/config.rs: settings, their checks, the preferences patch, load and save;
--                    Storage the replacement of a file, as the states after each system call.
--   Update           src/update.rs: versions, trusted URLs, the redirects of a download, and the
--                    cached result of a check; Feed the manifests of the two sources. Texts
--                    are lists of code points there.
--   Platform         src/platform/mod.rs: the network adapters, and Session the thread that carries
--                    packets to the engine; Bpf (src/platform/bpf.rs) and Capture
--                    (src/platform/macos.rs) where the packets come from; Ping the
--                    echo request and the wait of src/platform/unix.rs, Linux the list of
--                    adapters of src/platform/linux.rs.
--   Ipc              src/ipc.rs: frames, requests and responses; Client, Server and Clients the
--                    two ends of a connection and the count of connections; Frames and Watching
--                    their theorems.
--   Diagnostics      src/diagnostics.rs: the log file and its export.
--   Engine           src/engine.rs: the service. Types holds the state and the events, and the
--                    calls of src/ipc.rs; Base publishing and states; Candidates the choice of an
--                    adapter, sessions, failures and retries; Network packets, adapter changes and
--                    power events; Settings connecting and the settings; Updates release checks;
--                    Calls the requests of clients; Loop the deadlines and `handle`; Run creation
--                    and `run`; Signals the notices of callbacks. The other modules below Engine
--                    hold theorems: Invariant, Held, Deadlines, Outcomes, Ranking, Selection,
--                    Subscribers, Saving.
--   Notifications    src/gui/notifications.rs: the notices of the front end on an outage; Agent
--                    and Posting the notification assistant of src/notify.rs.
--   Gui              src/gui.rs: the state behind the window; System the window and its threads as
--                    steps, Waiting, Locked and Runs the theorems on them. Adapters is
--                    src/gui/adapters.rs.
--   Cli              src/bin/cli.rs: the loop of the direct authentication of the command line, its
--                    wait and its clock; Direct the adapters that it tries.
--   NativeEap        src/native_eap.rs: the credentials of the validation utility.
--   Connectivity     src/connectivity.rs: the rounds of pings after a handshake; Probe the thread that
--                    runs them.
--   Common           helpers: tests, lists, bytes, results.
--   Tests            runs on concrete inputs.
--
-- A method on `&mut self` is a function from the engine's state to the new state and, where it may
-- fail, a result. The outside world is the record `Env`: for the n-th question that the engine asks
-- (the clock, the adapters, opening a capture, sending, writing a file, spawning a thread) it has
-- the answer, and any functions are allowed, so the theorems hold whatever the platform answers.
-- What the engine does to the world is recorded in `trace`, the latest first. Instants count
-- nanoseconds, the wall clock seconds. Counters keep their wrap-around or saturation.
--
-- The queue of events and the latched notices of the callbacks are a list of inputs: each is the
-- end of one wait of the loop or one notice, in any order. The loop runs by recursion on that list,
-- so no fuel is needed; a theorem on all lists speaks of every point of every run. The download
-- has the four hops of the source as its bound.
--
-- Below the engine the answers of the system are lists or records of their own: the passes of a
-- capture's loop, the attempts at a full queue, the calls of a file replacement. A watch and a walk
-- over a buffer have fuel: the bytes that are left, since a frame has four at least and a record
-- twenty. The listener and the threads of clients are a step relation, and so are the window and
-- its two threads.
--
-- Not modelled: GBK, MD5 and JSON (parameters, or the records they decode to), threads, sockets,
-- files and captures (the environment), the drawing of the front ends, and the platform layers'
-- system calls.
pub mod Adapters
pub mod Authentication
pub mod Cli
pub mod Common
pub mod Config
pub mod Connectivity
pub mod Diagnostics
pub mod Engine
pub mod Gui
pub mod Ipc
pub mod NativeEap
pub mod Notifications
pub mod Platform
pub mod Protocol
pub mod Tests
pub mod Update
