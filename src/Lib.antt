-- ===== src/Lib.antt =====
-- YantraOS: an agent that runs on a host, asks language models for the next action, confirms each
-- external action, runs scripts in a container behind a root broker, and keeps its records in files.
--
-- The parts and the files that model them:
--
-- Revocation (skill_revocation.py). The signed list of revoked skills: Listing has the list and the
-- order `_newer`, Payload and Document the checks of a document, Cache the files, `active_revocations`,
-- `ensure_skill_allowed` and `install_document`. Order, Bounds, Install and InForce are about them.
-- Consent (compliance_executor.py). Store has the two SQLite tables and their transactions, Ledger the
-- hash chain, `record_consent`, `consent_granted` and the sweep of the telemetry; Chain, Recording,
-- Commitment and Telemetry are about them.
-- Sandbox (sandbox.py). Script has `validate_script` and the results, Logs the bounded read of a log,
-- Engine `_blocking_execute`, `execute`, `initialize` and `shutdown`, Stale the cleanup of stale
-- containers; Cleanup is about the runs.
-- Broker (sandbox_broker.py). Request reads and decodes, Handler is `_handle_client`, which hands a
-- decoded script to the sandbox; Lifecycle is `start` and `close`; Execution and Slots are
-- about the handler, Slots with connections that interleave at every `await`; Closing is about a start
-- and the close after it.
-- Confirmation (action_confirmation.py). Counter is the file of the confirmed runs, Decision
-- `confirm_action` and `log_execution_outcome`; Approval is about them.
-- Router (hybrid_router.py). Endpoint has the checks of an endpoint and the tiers, Completion
-- `TieredRouter.complete`; Routing is about it.
-- Telegram (telegram_gateway.py). Chunks is `safe_send`, Splitting is about its pieces;
-- Polling is a round of `poll_notifications`.
-- Control (ipc_server.py). Guard is `guard_control_plane`, Notifications `consume_notifications`,
-- Inject `inject`; Access is about the guard, Longest about the notifications.
-- Audit (audit_log.py). Text, Sanitize and Fields have the bounded and redacted values of an entry,
-- Lines and Entry its bytes in the file, its hash and its truncation, Logging `log_action` and
-- `log_execution`; Access is `_open_audit_file`. Redaction, Truncation, Chain and Commitment are about
-- them.
-- Executor (host_executor.py). Output is the bounded reading of a child's pipe, Intent the checks of a
-- payload, Dispatch `_process_intent` with its audit entries, its snapshot and its command; Peer is
-- `_handle_client`, Socket the creation and the removal of the socket. Privilege, Success and Listening
-- are about them.
-- Bridge (computer_use_bridge.py). Task has `validate_task_intent` and `select_task_route`, Attempts
-- `run_intent_result`, Progress `update_ineffective_state`, Loop the steps of `run_intent` after a task
-- is confirmed, Action `validate_model_action` and `_managed_parts`. Judging, Retries, Confirmed, Steps, Stalling,
-- Accepted and Confinement are about them.
-- Planner (task_planner.py, foundry_action_bridge.py). Browser is `_validate_intent` of the Foundry
-- bridge, Advice `_host_step`, `_validated_steps` and `_template_steps`, Template `_template_actions`; the
-- function `plan_query`, with the steps of a chat and of an open browser, is in Planner/Plan. Policy,
-- Limits and Advisory are about them.
-- Snapshot (cli_snapshot.py). Command is `cmd_pre_flight` and `cmd_prune`; Protection is about them. The
-- executor runs this program before its own command.
-- Client (sandbox_client.py). Answer is `_result_from_response` with the answer that the broker writes,
-- Execution the client's `execute`.
-- Prelude, Json, Files and Transfer are shared: tests and lists over the native numbers, results of
-- code that raises, the values of `json.loads`, what `stat` reports, and the loops over a file
-- descriptor.
--
-- How the state corresponds: an object's fields are a record, an exception is `err`, and what the
-- operating system, Docker, a model or a person answers is a parameter, as a function or a record of
-- answers (`Docker`, `Client`, `Desk`, `Backend`, `Machine`, `World`, `Host`). A planner calls the checks of
-- the bridge and the tiers of the router as they are modelled here; a log that other parts write to is
-- the answer that it gives to them. Cryptography, base64, JSON text, URL parsing
-- and the methods of `str` are parameters too, with the laws that a theorem needs as its hypotheses.
-- Where a function writes and then fails, the written state stays, as in the code.
--
-- Bounds and fuel: the wait for a container has one look per tick of the deadline, which is enough for
-- a clock that moves with each look; an inference has two rounds, since a router that has gone to its
-- local mode does not go back; the splitting of a message has as much fuel as the message has
-- characters, since each round drops at least one, and so has the search for the prefix of a
-- notification that fits; a bounded read has as much fuel as the bytes that it
-- may read; the visual loop has its fifty steps and a task its three attempts, which are the code's own
-- limits.
--
-- Not modelled: the engine's loop, the skill loader and the client of the cloud; of the
-- bridges, the browser, the screenshots, the clipboard and the managed files themselves; of the
-- executor, its server's start and stop. Times in an answer are left out. Downloads, command lines,
-- signal handling, systemd notification, logging and the prompts' texts are input and output.
pub mod Prelude
pub mod Json
pub mod Files
pub mod Transfer
pub mod Revocation
pub mod Consent
pub mod Sandbox
pub mod Control
pub mod Telegram
pub mod Router
pub mod Confirmation
pub mod Broker
pub mod Audit
pub mod Executor
pub mod Bridge
pub mod Planner
pub mod Client
pub mod Snapshot
