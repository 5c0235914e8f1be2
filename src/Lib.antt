-- ===== src/Lib.antt =====
-- TAURI-VPN-PLUGIN is a Tauri plugin that runs a VPN with sing-box: the frontend calls commands,
-- which validate a profile, generate a sing-box configuration from it and start an engine; a profile
-- may also tunnel through a WB Stream room ("OLC RTC"), over which a multiplexer carries streams.
--
-- Parts of the program and the files that model them:
-- src/errors.rs: Errors. VpnError with its texts; Result is the result type of every fallible
--   operation, and do blocks over it are the source's `?`.
-- src/models.rs: Models. Structs are records, enums are data types with the source's names, a
--   BTreeMap is an association list (Common/Dict); serde_json's Value is Models/Json.
-- src/platform.rs: Platform. The compilation target is an argument (TargetOs). Platform/Elevation is
--   the query of the process's token on Windows, with its handle (Common/Handles).
-- src/protocols.rs: Protocols (list_protocols, validate); Protocols/Usable describes, without the
--   code's error lists, which profiles can be used.
-- src/config.rs: Config. Config/Dns, Config/Routes and Config/Outbound model the parts of the
--   document, Config/Generate generate_sing_box_config, each with the proofs in its child module.
--   The document is a JSON value; Config/Routes/Order reads the rules as sing-box does, of which the
--   first that matches a connection decides.
-- src/olcrtc/mod.rs: Olcrtc/Settings (from_profile, local_socks_endpoint).
-- src/olcrtc/crypto.rs: Olcrtc/Crypto. The AEAD cipher is a parameter with the law that opening
--   what was sealed gives the plaintext; the nonce is an argument. The decoder of keys is modelled
--   with its panics.
-- src/olcrtc/mux.rs: Olcrtc/Frame is the wire format, Olcrtc/Stream the receiving side of a stream
--   (reordering, at most 100 chunks held), Olcrtc/Mux the Multiplexer's operations. What one task
--   does under the lock is one function, and the interleavings of tasks are the steps of
--   Olcrtc/Mux/Reachable. The link is a parameter `send` over a state of its own.
-- src/olcrtc/wbstream.rs: Olcrtc/WbStream, the requests that get a room's token over a service that
--   is a parameter, and the peer's send and close; Olcrtc/WbStream/Connect is connect with the task
--   that receives from the room and the one that publishes to it. Olcrtc/WbStream/Waiting interleaves
--   the calls of send: one that found the peer open waits for a place in the queue while others act.
-- src/olcrtc/client.rs: Olcrtc/Client, the SOCKS5 handshake and request over the bytes of a
--   connection, setup_tunnel and pump_from_mux, with the frames that arrive during them;
--   Olcrtc/Client/Relay proves what pump_from_mux writes when frames come between its steps,
--   Olcrtc/Client/Connection is a whole connection, whose two pumps are an argument, and
--   Olcrtc/Client/Runtime the start of the runtime, Olcrtc/Client/Accept its accept loop and stop,
--   with Olcrtc/Client/Shutdown on what can still be sent then.
--   Olcrtc/Client/Tunnel is what stands between the multiplexer and the room: the closure that
--   encrypts and sends, and the task that decrypts and hands on. The standard library's texts of addresses and
--   its UTF-8 decoder are parameters.
-- src/import.rs: Import. Import/Query reads the query of a link, Import/Links the links;
--   Import/Good and Import/Rooms hold the proofs. The crates url, base64 and
--   serde_json are a record of functions (Crates).
-- src/engine.rs: Engine. Engine/Calls is the engine's state (SingBoxEngine) with the effects that
--   it has on the system, in order, and the actions on both; an action that fails keeps what it did.
--   Engine/System holds the calls into the system, Engine/Fields what is done with the fields,
--   Engine/Desktop and Engine/Stop start_desktop and stop_desktop, Engine/Mobile the mobile calls,
--   Engine/Dispatch start and stop, Engine/Readiness the waits, Engine/Core the search for the
--   binary, Engine/Scripts the scripts and their quotes. What the system answers to a call is an
--   argument of it. The proofs follow the child and the runtime through a call by rules for each
--   action (Engine/Balance, Engine/Rules, Engine/Quiet, Engine/Running, Engine/Outcomes), up to the
--   abstract session of Engine/Session.
--   Engine/Job is the Windows job with its handles, Engine/Tasks the tasks that poll the statistics
--   and pass on the logs, Engine/Privileged sing-box as a process of the administrator on macOS,
--   which nothing calls, and Engine/Exit the cleanup at exit, with the event handler of src/lib.rs.
-- src/macos_vpn.rs: MacosVpn. MacosVpn/Framework is what it calls of NetworkExtension, a record of
--   functions over a state; MacosVpn/Profile models each function, MacosVpn/Store the list of saved
--   managers that the framework documents, against which MacosVpn/Starts and MacosVpn/Succeeds prove
--   what a start does.
-- src/state.rs and src/commands.rs: Commands. connect and disconnect lock the status twice; each
--   locked section is a function, Commands/Lifecycle interleaves them, and the engine's start and
--   stop, the platform's answers and the parser of UUIDs are parameters; Commands/Sessions puts the
--   engine of a desktop in their place, for commands one after the other.
--
-- The commands call Config through the engine, Config calls Protocols and Olcrtc/Settings, and the
-- tunnel's streams go through Olcrtc/Mux. Common holds the shared names, tests on native numbers,
-- lists, maps, texts and bytes.
--
-- Machine integers keep their wrap-around (% 2 ^ 16 for stream ids, % 2 ^ 32 for sequence numbers).
-- Loops on fuel: the loop over held chunks takes as many rounds as chunks are held, each of which it
-- removes; `chunks` as many as there are bytes; open_stream, whose loop has no bound in the source,
-- returns none when the fuel runs out, with 2 ^ 16 rounds when an id is free; the decimal digits of a
-- number as many as the number.
--
-- The readiness loop has the 20 rounds of the source, the query of the mobile status its 3 attempts and
-- the search for the binary its 8 ancestors; the waits for a system tunnel are over the answers that
-- come before the timeout.
--
-- Not modelled: of src/engine.rs, the text of the PowerShell script and the flags that hide command
-- windows; the sockets and timers of src/olcrtc/client.rs; of src/lib.rs the registration of commands and
-- mobile plugins, and build.rs; the commands of src/commands.rs that only call import and protocols; the
-- Kotlin, Swift and TypeScript code. The serde attributes of the data are not modelled, nor is the order
-- of a map's keys.
pub mod Common
pub mod Errors
pub mod Models
pub mod Olcrtc
pub mod Platform
pub mod Protocols
pub mod Config
pub mod Commands
pub mod Engine
pub mod Examples
pub mod Import
pub mod MacosVpn
