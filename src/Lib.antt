-- ===== src/Lib.antt =====
-- The process manager (manager/): a daemon that starts, watches, restarts and stops services.
--
-- Parts. A client sends a 65-byte command, and the manager answers with a 128-byte reply; it publishes
-- a health report of 128 bytes for each service. The manager owns the services, starts what a service
-- depends on before the service, and stops dependents first when it shuts down. A service is a state
-- machine that owns at most one child process, and reaches the operating system through two
-- interfaces, ProcessLauncher and ChildProcess.
--
-- Files.
--   Base: lists, integers, strings and Boolean tests over the native numbers.
--   Wire: manager/src/WireWriter.cpp and WireReader.cpp. A buffer is a list of bytes, put_u32 is
--     PutU32, read_text is WireReader::Text, fit_utf8 is FitUtf8. Wire.Fields has the theory of
--     fields that do not overlap, on which the codecs stand.
--   Command: manager/src/CommandMessage.cpp (EncodeCommand, DecodeReply, CommandCodeFromByte, ...).
--   Health: manager/src/HealthRecord.cpp.
--   State: manager/src/ServiceState.cpp.
--   Config: manager/src/ServiceConfig.cpp, the data of a service.
--   Parser: manager/src/ConfigParser.cpp. Lexing has Trim, StripInlineComment and Unquote, Values has
--     ParseInteger, ParseByteSize and SplitArguments, Keys and ServiceKeys the keys, Sections has
--     OpenSection and ParseLine, Cycles has FindCycle, Files has Validate, ParseText and ParseFile. A
--     step returns the state or the error that ends the parse.
--   Launcher: manager/src/ProcessLauncher.cpp and the interfaces in manager/include/ProcessLauncher.hpp.
--   Service: manager/src/Service.cpp. A method takes a Turn, the service with the trace of what was asked
--     of the system, and returns a Turn. Operations has the private methods, Ticking has Tick and
--     HandleExit, Methods has Start, Stop, Restart, Kill, Heartbeat, Abandon and Sample.
--   Manager: manager/src/ServiceManager.cpp. A reference to a service is an index into the vector.
--     Lookup has the questions about dependencies, Dependencies has StartDependencies, Commands has
--     Execute, Ticking has Tick, StopAll, KillAll and StartAutostart, Reload has Apply.
--   Server: manager/src/CommandServer.cpp. A message is a list of frames, receive is Receive on what the
--     socket had, reply_frames is what Reply sends.
--   Detailed: manager/src/DetailedReport.cpp. Layout has the fields at their offsets, Records one record,
--     Report the whole payload. Wire.Rows has records back to back.
--   Reports: manager/src/ReportBuilder.cpp and the messages of manager/src/ReportPublisher.cpp.
--   Daemon: manager/src/Daemon.cpp. Turns has a round of Run in its parts and the end of Start, the file
--     itself Reload, HandleCommands, Publish and BeginShutdown. What leaves the daemon is a list of
--     events. Plan lists the manager's operations that a round owes, read off the daemon at its start.
--   Invocation: manager/src/CommandLine.cpp. parse_arguments is the loop of ParseCommandLine, which takes
--     one argument or two from the list in each pass, apply_flag its chain of flags, connect_endpoint is
--     ConnectEndpoint. Modes and Endpoints have proofs.
--   Examples: the theorems at concrete inputs.
--
-- The system. What it answers is the parameter Host: any function of the trace of everything that was
-- asked so far. A call through a null child pointer is an event of its own in the trace.
--
-- Files. What std::filesystem says of a path is the parameter Paths, and what was read of a file is an
-- argument.
--
-- Fuel. StartDependencies recurses through services; start_dependencies takes one unit of fuel for each
-- level and prepare gives it one more than there are services. back_to_boundary, digits_of and the
-- other loops are structural. VisitForCycle recurses through services; visit has as much fuel as there
-- are services.
--
-- Time. Readings of the steady clock and wall times are numbers of nanoseconds without a bound, and a
-- later reading of the steady clock is not less than an earlier one. Percentages are exact quotients
-- where the program rounds to a double. Counters that are int in the program have no bound here.
--
-- A double on the wire is its 64-bit pattern.
--
-- The world of the daemon. What each read of the file, each sample of the monitors and each clock gives,
-- the messages that arrive and the signals are arguments (World, Round). How a percentage is rounded to a
-- double is the parameter Rounding.
--
-- Not modelled: log lines; the set-up of cgroups, GPU and sockets in Daemon::Start; sockets, the launchers
-- of each operating system, the monitors of GPU, cgroups and processes, the usage text and the entry point,
-- the client and the status table, which mostly call the system or format text.
pub mod Base
pub mod Wire
pub mod Command
pub mod Health
pub mod State
pub mod Config
pub mod Parser
pub mod Launcher
pub mod Service
pub mod Manager
pub mod Server
pub mod Detailed
pub mod Reports
pub mod Daemon
pub mod Invocation
pub mod Examples
