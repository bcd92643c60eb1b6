-- ===== src/Lib.antt =====
-- The control side of QuadControl: the Rust crates that pair with a phone, mirror it and end what they
-- have started.
--
-- The parts, the files that model them and the code they stand for:
-- - Base: numbers, lists, results and texts. A text is the list of its code points. Os: what the
--   crates use of a child process and of a thread that reads its output; the answers of the system are
--   fields.
-- - Wireless: crates/quadcontrol-android/src/wireless.rs. Secret is generate_pairing_secret; Round is RoundState with observe,
--   observe_for_round and close. Process is PairProcess with poll, kill_reap, finish and its drop.
--   Close is round_close. Services is parse_mdns_services, find_guid and what is near them; Devices is
--   require_supported_adb, deduplicate_devices and stderr_summary. Pairing is
--   run_pairing_round_with_cancel: a Tick holds what the system shows in one turn of its loop, turn is
--   one turn, and run takes the ticks one after another. Collect is collect_child; Online is run_adb,
--   check_adb, connect, adb_mdns_services, wait_for_guid_with_cancel and the part of
--   pair_qr_command_with_cancel that brings the phone online; Command is pair_qr_command_with_cancel
--   around all of these, with identity_pairs.
-- - Android: crates/quadcontrol-android/src/lib.rs. Options is filtered_args and build_args, on bytes;
--   Select is select_device and validate_version_text; Session is supervise; Shutdown is shutdown_all.
-- - Process: crates/quadcontrol-process/src/lib.rs. Ring is RingBuffer and drain_stderr. Ladder is
--   terminate and terminate_all on unix, with their waits.
-- - Gui: crates/quadcontrol-gui/src-tauri/src/lib.rs. Pairing is PairingStore with start_pairing,
--   pair_manual, cancel_pairing and set_pairing_result; Manual is the worker of pair_manual with the
--   check of what is typed in; Sessions is SessionStore with start_session, stop_session and sessions;
--   IosSlot is the slot of start_ios_session and stop_ios_session; Recent is remember_recent_app and
--   app_display_name; Status is IosMeta with ios_session_status and spawn_installed_apps_load;
--   Shutdown is run, begin_shutdown and reclaim_sessions.
-- - Ios: crates/quadcontrol-ios/src. Error is the errors and their codes. GoIos is lib.rs and
--   devices.rs: Version is the version check, Devices and Apps the two lists, Capture
--   run_capture_stdout. Session is session.rs: Classify is classify_child_failure, Spawn is
--   spawn_child and spawn_forward, Start is await_tunnel, await_status and start_session up to its
--   last loop, Run is run_until_stop, shutdown and supervise; Shutdown is its shutdown_all. Wda is
--   wda.rs: Client is the session and its recreation, Actions and Verified the operations, Base64 is
--   decode_base64. Slot and Frames are mjpeg.rs: the frame that the reading thread and the writers
--   share, the reader of frames, and pump_upstream; Downstream is write_downstream.
-- - Probe: agents/android-shell/adb-probe/src/lib.rs. Its data and reports, and in Parse the parsers
--   of what adb prints. Run is run_probe and read_limited, Json is json_escape.
-- - Examples: runs on concrete inputs.
--
-- The parts meet as in the code: the desktop client's pairing worker runs the loop of Wireless and
-- reports its result to the store; the loop's event goes to round_close, which reaps the processes;
-- the sessions end their children by the ladder of Process; select_device reads the devices of Probe.
--
-- Concurrency is a sequence of steps: a data type Move or Event has a constructor for what each thread
-- does under the lock. Numbers of 64 bits wrap at 2 ^ 64. A session, and each of its waits, runs on
-- fuel: one turn for each pause in its budget and one more, which is enough since a turn sleeps for at
-- least the pause; Session.Liveness shows it. The reader of frames has one turn for each byte that is
-- left, since a line takes one at least. The polls of a wait are bounded by timeout / 100 + 2, which
-- is enough since each sleeps for 100 ms at least. In the same way an adb command has 1001 turns of 10
-- ms for its 10 s, the wait for a phone one turn for each millisecond of its budget, the wait for the
-- pairing worker 521 turns of 25 ms for its 13 s, and the wait of the last event 601 turns of 25 ms
-- for its 15 s. The loop of a pairing round has no bound of its own; it is run on a list of ticks.
--
-- Parameters: what children do on a signal, when the user asks again and how long calls take (Env of
-- Process.Ladder), what adb answers in the turns of a round (Tick), what starting adb comes to and
-- what its process does (Adb, Process of Wireless.Collect), when the user cancels, when supervisors
-- and the pairing worker report (Client of Gui.Shutdown), how late sleeps end, the quotient of
-- floating point numbers that is the frame rate, which writes of a connection are accepted
-- (Connection), the results of workers and of spawn_supervised; for a session a Machine, for the
-- client a Device: the answers of ureq, what other clones do meanwhile, and the values of serde_json
-- and of floating point numbers, which are types of their own.
--
-- Not modelled: the spawning of processes and the sockets themselves, which are calls of the system;
-- the ladder and the sessions for windows; the environment of the children and the threads that read
-- their stderr; how long the waits and joins of a session last; the floating point geometry of taps;
-- poisoned locks; the list of sockets and the accept loop of the MJPEG proxy; the drawing of QR codes;
-- the turns of two tasks of the client that fall between the locks of one poll; and the command line
-- program. The Swift, Java and JavaScript clients are other programs.
pub mod Base
pub mod Os
pub mod Wireless
pub mod Android
pub mod Probe
pub mod Process
pub mod Gui
pub mod Ios
pub mod Examples
