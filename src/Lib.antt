-- ===== src/Lib.antt =====
-- A model of the parts of nap-cli that keep state between calls, and theorems on them.
--
-- resources/scripts/napseer_mcp_supervisor.py stands between an MCP client and a worker process
-- that it restarts when its source changes. Supervisor/Message reads the JSON-RPC lines
-- (parse_message, request_id, cancelled_request_id, worker_error). Supervisor/Worker has the state
-- of `Worker` and what starts, stops and writes to the process (ensure_current, start,
-- _stop_locked, _fail_generation, _write). Supervisor/Requests has the calls on requests (submit,
-- cancel, _expire_cancelled, _deliver_response, wait), and Supervisor/Loop the loop of `supervise`
-- with its waiting threads. A request is an object that the table of requests and its thread
-- share: the objects stand in a list, and the table and the threads name them by their number. The
-- lines handed to a process (`sent`) and passed on to the client (`emitted`) are kept as
-- histories. There each call is one function. Supervisor/Sections cuts the calls at the locks that
-- they take and release, with how far each `submit` has come, and Supervisor/Interleaved has the
-- sections of all threads in any order. The other modules of Supervisor are proofs: Invariant,
-- Preserved and Answers for the calls one after another, Moves, Kept and Anytime for the sections,
-- Failing and Answering for what becomes of a request, Admission for
-- submissions, Responses for the count of answers, Reverting for a reload that was put off.
--
-- resources/scripts/terminal/pty_manager.py runs commands under pseudo-terminals. Terminal/Session
-- has `TerminalSession`, its reader thread included, and Terminal/Manager `PtySessionManager`.
-- Terminal/Replay, Reader and Input and Terminal/Manager/Laws are proofs.
--
-- `nap_batch` of resources/scripts/napseer_mcp_server.py runs a batch of tool calls. Batch/Plan
-- has `_batch_order_predecessors` and `validate_batch` from the parsed actions on, Batch/Schedule
-- `execute_batch`. Batch/Progress, Ready, Waves, Skip, Rounds, Complete, Barriers and Width are
-- proofs, and Batch/Ranks a test that a plan has no cycle. Its tests are in Batch/Tests, as those
-- of the others.
--
-- Gateway/Log has `compact_log_file` and Gateway/Output `gateway_terminal_output_delta` of the
-- same file.
--
-- The worker's own dispatcher, `McpRequestRuntime` of the same file, is Runtime/Dispatch: requests
-- are objects in a list that the table and the threads name by number, as in the supervisor;
-- `begin_execute` and `finish_execute` are the two halves of `_execute`, `shut` and `drop_one` the
-- parts of `close`, and `sent` and `handled` histories. Runtime/Steps has the steps between them
-- and, with Table and Entries, what holds of the table; Cancelled and Silence are about a request
-- that is cancelled, Weights and Answers count the messages sent.
--
-- The gateway's relay carries its messages in websocket frames and under AES-256-GCM, both written
-- out in the same file. Relay/Socket has `ws_recv_exact` over the packets that come in,
-- Relay/Frame `ws_send_frame` and `ws_read_text`, Relay/Aes the block cipher
-- (`_aes_encrypt_block_256` and what it calls), Relay/Gcm GHASH, the counter mode and the two
-- operations (`aes_gcm_encrypt`, `aes_gcm_decrypt`). FrameTrip, Counter and Sealing are proofs.
-- Its local vault uses ChaCha20-Poly1305: Vault/Chacha has `_chacha20_xor`, Vault/Poly
-- `_poly1305_mac` and `_aead_mac_data`, Vault/Payload the two operations on a payload, and
-- Vault/Sealing is proofs. A byte string is a list of numbers, a random nonce or mask an argument.
--
-- The keys of the relay come from resources/scripts/napseer_spake2.py. Spake/Hex has what it uses
-- of `bytes.hex` and `bytes.fromhex`, Spake/Curve the arithmetic of P-256 up to `scalar_mult`,
-- Spake/Point the encodings of points, and Spake/Keys `hkdf_sha256`,
-- `_spake2_finish_b_with_labels` with its callers, and `relay_key_from_secret`. PointTrip, Scalars,
-- Transcript and Expand are proofs; Expand also has the expansion of RFC 5869 to compare with.
--
-- The gateway's cron schedules are Schedule/Cron (`cron_field_matches`, `cron_expr_matches`,
-- `validate_gateway_cron_expr`, `next_gateway_schedule_run`), over what Schedule/Text has of
-- Python's texts; Schedule/Next is proofs. The minutes after a time, which datetime computes, are a
-- function from offsets.
--
-- Credentials/Store has `CredentialStore` of resources/scripts/napseer_credentials.py (selected,
-- read, use_user, login, logout) over what stands at its five paths, and Credentials/Logout a proof.
--
-- Prelude has the shared helpers: tests on numbers, lists, dictionaries as association lists,
-- integers, JSON values, results with an error, bits, words as bytes, and a key stream laid over
-- bytes block by block.
--
-- Parameters of the model: Python's json and str (`Config`), shlex.split, sorted, SHA-256, HMAC,
-- base64, datetime, the calls of tools and handlers, and the answers of the operating system, which
-- each method takes as arguments (the time, the process when it is polled, each os.write, whether a
-- process starts). Threads interleave between the sections of Supervisor/Sections; what is shown of
-- a whole call of the worker, such as Failing and Answering have it, is of a call that no other
-- thread cuts.
--
-- The bounds: a line of the worker may come from a process of any generation. The loops of the
-- source that wait (`_write_all`, `_read_loop`) run over the answers that they are given, and say
-- when they are still waiting. The visits of `_batch_order_predecessors` and the rounds of
-- `execute_batch` run on as much fuel as there are actions: each visit and each round settles at
-- least one. The loops over the blocks of a byte string have as much fuel as it has bytes.
-- `scalar_mult` has 256 rounds for a number below 2 ^ 256, and `hkdf_sha256` 257, of which the last
-- raises.
--
-- Not modelled: signals, file descriptors and the framing of lines, the shutdown of `supervise`,
-- threads that overlap inside one call of a terminal session, the checks of a batch's raw
-- arguments, and the rest of resources/scripts: the installer, the writing and migration of
-- credentials, the gateway's connections, search, and the tools themselves.
mod Prelude
pub mod Batch
pub mod Gateway
pub mod Relay
pub mod Supervisor
pub mod Terminal
pub mod Vault
pub mod Spake
pub mod Runtime
pub mod Schedule
pub mod Credentials
