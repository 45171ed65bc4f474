-- ===== src/Lib.antt =====
-- ghostclaw: what the program that runs an agent decides before it acts.
--
-- The agent asks to run commands, touch files, use tools and send messages. Before a command
-- runs, `ApprovalManager::authorize` decides by the policy, an allowlist of globs, the store of
-- remembered answers and the user's answer over a socket. Before a tool is used, the tool policy
-- pipeline passes its name through seven layers of allow and deny lists. The calls are read from
-- the text that a model streams. The tool executor joins these: a call runs its tool if the
-- policy, the sandbox, the count of failures and the approval let it. A path is validated against
-- the workspace and the forbidden paths. A client is paired by a one-time code. Actions and sends
-- are limited in sliding windows. Messages wait in a queue, and texts are cut into chunks for the
-- memory. Sessions are named by keys, and a store keeps their states and transcripts in files.
-- Content from outside is cleaned of the markers that wrap it before the model sees it. Clients
-- reach the agent through a WebSocket server: a handshake, then frames, each a message that
-- subscribes to a session or calls a method. A language model is asked again, and then its
-- fallbacks, where a call fails; a channel that fails is started again after a pause. Jobs run at
-- the times of their cron expressions.
--
-- Parts and files (paths from the repository's root; headers under include/ghostclaw):
--   Base                     numbers, Boolean tests, lists and texts as lists of bytes
--   Common                   common/result.hpp: Result as ok and err
--   Common/Fs                src/common/fs.cpp: trim, to_lower, starts_with, is_subpath
--   Common/Json              src/common/json_util.cpp: json_escape, json_unescape, the searches and
--                            the getters of one field; Arrays has the getter of an array of texts
--                            and the splitting of an array into its objects, Flat has
--                            json_parse_flat
--   Common/Toml              src/common/toml.cpp: parse_toml, quote_toml_string and the getters
--   Security/Approval        src/security/approval.cpp: ApprovalStore, the texts of the socket's
--                            protocol, ApprovalManager; Names has the names of levels and answers
--   Security/Glob            glob_to_regex of src/security/tool_policy_pipeline.cpp and approval.cpp,
--                            with the part of std::regex that its results use
--   Security/ToolPolicy      src/security/tool_policy_pipeline.cpp: the layers and evaluate_tool;
--                            Setters has the setters, and Names the names, groups, profiles and
--                            patterns
--   Security/Policy          src/security/policy.cpp: SecurityPolicy and validate_path
--   Security/Pairing         src/security/pairing.cpp: PairingState::verify, constant_time_equals
--   Security/ActionTracker   src/security/action_tracker.cpp: record_at, check_at, count_at
--   Security/ExternalContent src/security/external_content.cpp: sanitizing and wrapping; Homoglyphs
--                            has normalize_homoglyphs of src/security/patterns.cpp
--   Sessions/Key             src/sessions/session_key.cpp: making and parsing keys
--   Sessions/State           src/sessions/session.cpp: the line of a session's state
--   Sessions/Transcript      src/sessions/transcript.cpp: the line of an entry of a transcript
--   Sessions/Store           src/sessions/store.cpp: the states, their index and the transcripts;
--                            Operations has the methods that change them
--   Sessions/SendPolicy      src/sessions/send_policy.cpp: allow, clear, queued_in_window
--   Agent/MessageQueue       src/agent/message_queue.cpp: push, pop, pop_all, empty
--   Agent/ToolExecutor       src/agent/tool_executor.cpp: the checks of a call and its cooldowns, with
--                            register_tool and get_tool of src/tools/tool_registry.cpp
--   Agent/StreamParser       src/agent/stream_parser.cpp: feed and parse_buffer
--   Memory/Chunker           src/memory/chunker.cpp: chunk_text
--   Sandbox                  src/sandbox/sandbox.cpp: which sessions and tools run in a container;
--                            Runtime has how a container is brought up
--   Channels/Allowlist       src/channels/allowlist.cpp: check_allowlist
--   Gateway/Frame            src/gateway/websocket.cpp: read_next_frame, and the bytes of send_frame
--   Gateway/Handshake        perform_handshake and parse_headers of the same file
--   Gateway/Client           client_loop and handle_client_message of the same file
--   Gateway/Message          src/gateway/protocol.cpp: the JSON of messages, parse_ws_client_message
--   Providers/Reliable       src/providers/reliable.cpp: the retries and fallbacks of a chat
--   Channels/Supervisor      src/channels/supervisor.cpp: the loop that keeps a channel running
--   Channels/PluginRegistry  src/channels/plugin_registry.cpp: the factories of the channels
--   Heartbeat/Cron           src/heartbeat/cron.cpp: CronExpression::parse, matches, next_occurrence
--   Tests                    the theorems at concrete inputs
--
-- An object's state is a record, and a method takes the state and returns the next one. A mutex is
-- held for the whole body of a method, so a run is a list of whole calls; the tool executor holds
-- it for parts of a call only, and those parts are functions of their own. Most loops go over a
-- list or over the rounds that are left. On fuel run the loop over a client's frames, for which the
-- length of the stream suffices, since each frame takes bytes from it; the search and replacement
-- of a text and the folding of its code points, for which the length of the text suffices, since
-- each round takes a byte; the loops over the items of an array and over a flat object, likewise;
-- and the loop over a range of a cron field, for which the length of the range suffices, since its
-- step is positive. A hash map is a function from its keys, or the list of its entries where the
-- program goes over it. Integers do not reach their bounds but in a few places, where the width is
-- written out: the count of failed pairing attempts (32 bits), the bytes of constant_time_equals,
-- the length of a frame and the wait between two attempts (64 bits). In a cron field, a sum of two
-- int that overflows, which C++ leaves undefined, is an error of the model alone, the text
-- `overflow`: a result that is ok has no such sum, and a step of at most 2147483588 makes none.
-- Times are nanoseconds of the clock, or minutes for a cron expression, as natural numbers, so that
-- a subtraction stops at 0, before which there is no event.
--
-- The model of PairingState::verify gives the codes that it compares beside its result, so that a
-- run of attempts shows them.
--
-- A run of the channel supervisor is given by what it reads, round by round, since its loop has no
-- end of its own. The providers of a chat and its sleep are functions on the state of everything
-- outside.
--
-- Code that is not in the repository is an argument: SHA-256 (`IsDigest` says that a digest is 32
-- bytes), the bytes of the random generator, weakly_canonical, the clock, the exchange with the
-- approval socket, and whether the store's file can be written (a file that is written in part is
-- not modelled). So is expand_path of src/common/fs.cpp, which reads the environment, together
-- with the conversion of its text to a path, the local time of a minute, the key that answers a
-- handshake, and the bytes that each read of a socket gives. The matches of the stream parser's
-- regular expressions are arguments, with the reading of a call's arguments. A regular expression
-- that std::regex refuses for its size is not modelled either. The docker program, std::hash, the
-- creation of directories, std::sort, and whether a file of the session store can be opened or
-- replaced are arguments as well, and so is build_docker_create_args, which prints floating point
-- numbers, and std::to_string of the number of a line.
--
-- Not modelled: the channels and providers themselves, the built-in tools, the browser, the
-- gateway's HTTP server and the other modules that call services, processes, databases and
-- devices; the sockets, the accepting of clients and the publishing of events; the detection of
-- suspicious patterns, which runs regular expressions of its own; the threads of the tool
-- executor; the floating point numbers of a configuration; the scheduler and the memory index.
pub mod Base
pub mod Common
pub mod Agent
pub mod Channels
pub mod Gateway
pub mod Heartbeat
pub mod Memory
pub mod Providers
pub mod Sandbox
pub mod Security
pub mod Sessions
pub mod Tests
