-- ===== src/Lib.antt =====
-- takler, a workflow manager: a server keeps flows of tasks, submits their jobs, takes the reports of
-- the jobs and answers clients. This library models the server's core and parts of the client.
--
-- The parts, and how they interact:
--
-- * Status (src/takler/core/state.py): `NodeStatus` with its order, the aggregate of the children's
--   statuses that a container computes (`compute_most_significant_status` of node.py, here
--   `most_significant`), and the one of `Bunch.get_node_status` (here `bunch_status`).
-- * Status.Cache (src/takler/core/node_container.py): the counters `_status_counts` that a container
--   keeps, and `set_node_status_only`, `append_child`, `update_child`, `delete_child` and
--   `delete_children`, which update or drop them.
-- * Attr.Event, Attr.Meter, Attr.Repeat, Attr.TimeAttr, Attr.Calendar (src/takler/core/event.py,
--   meter.py, repeat.py, time_attr.py, calendar.py): the attributes of a node, one record each, with
--   one function for each method; a method that raises returns a result or an option.
-- * Task (src/takler/core/task_node.py): the identity of a task's attempt, and what `init`, `complete`,
--   `abort`, `increment_try_no` and `clear_current_attempt` write.
-- * Tree (src/takler/core/node.py, node_container.py, task_node.py): the tree of nodes.
--   `set_node_status` and `sink_status_change` change a node at a path; `swim_status_change` and
--   `swim_status_change_only` carry the change up to the root, with the repeats and the `requeue` that
--   they start. It uses Status, Attr and Task.
-- * Limit (src/takler/core/limit.py, node.py): limits in a store, by reference, and the in-limits of a
--   node and its ancestors: `resolve_in_limit`, `check_in_limit_up`, `increment_in_limit` and
--   `decrement_in_limit`. Limit.Holders puts them together to courses of starts and ends of tasks, as
--   `Task.run`, `Task.update_limits` and a requeue call them.
-- * Paths (src/takler/core/node.py): `node_path` and `find_node` over the tree of Tree; pathlib is an
--   argument.
-- * Parameters (src/takler/core/parameter.py, node.py, task_node.py, flow.py, bunch.py): the search of
--   a parameter up the tree and the dictionary of all that a node can read.
-- * Trigger (src/takler/core/expression_ast.py, expression.py): the values and the evaluation of a
--   trigger's syntax tree, with its exceptions. Trigger.Typing gives the kinds of its parts.
-- * Dependencies (src/takler/core/node.py, task_node.py): `check_dependencies` of nodes and tasks, over
--   Trigger, Attr.TimeAttr and Limit, and `free_dependencies`, `suspend` and `resume`.
-- * Scan (src/takler/server/scheduler.py, src/takler/core/node_container.py): `_flow_work`, the
--   generator that visits the nodes of a flow, `_process_flow` and `resolve_dependencies`, which it
--   stands for, and the turns that `main_loop` gives to the generators of all flows. What a node's own
--   methods do to the state is an interface, `Hooks`.
-- * Submission (src/takler/core/task_node.py, src/takler/server/scheduler.py): `Task.run`, with the
--   handlers that give back the last attempt, and `_run_node`; the methods that a subclass overrides are
--   an interface.
-- * Reports (src/takler/server/scheduler.py): `run_command_init`, `run_command_complete` and
--   `run_command_abort`, which find a task by Paths, ask the guard of Zombie, and change the status in
--   Tree, as `Task.init`, `complete` and `abort` do. Reports.Attributes: `run_command_event` and
--   `run_command_meter`.
-- * Force (src/takler/server/scheduler.py): `_force_path`, which uses Paths, Tree and Reports.
-- * Artifacts (src/takler/serialization/artifact_path_index.py, core/task_node.py): the index of the paths
--   of jobs and outputs, `update` and `conflicts`, and the writes of a task's fields that call `update`.
--   What the links of the disk make of a path is an argument.
-- * Control (src/takler/server/scheduler.py, src/takler/core/node.py): `run_command_requeue`,
--   `run_command_suspend`, `run_command_resume` and `run_command_free_dep` on one target, over Tree and
--   Dependencies, with `Bunch.find_node`. The decorator that runs them on each target is Batch.
-- * Definitions (src/takler/server/flow_replace.py, scheduler.py): `run_command_load`, `replace_flow` and
--   `_check_idle`, over Flows. What `build_definition` makes of a text and the check of the references
--   of other flows are an interface, `Builder`, and an argument.
-- * Handlers (src/takler/server/handlers.py): `dispatch` and `_handle_command`, the boundary around every
--   command, with the transaction of Journal, the error responses, the policy and the audit record. The
--   operations of the scheduler are an interface, `Service`.
-- * Flows (src/takler/core/flow.py, src/takler/server/scheduler.py): `begin` of a flow, which uses
--   Attr.Calendar and Tree, and `run_command_begin` on the flow that the decorator of Batch names.
-- * Batch (src/takler/server/batch.py): `batch_targets`, which runs a control command on each of its
--   targets, with the codes of Client.
-- * Access (src/takler/server/auth.py): the credential files with their cache and
--   `authorize_operator`; Access.Gate: the privilege of each method and `AuthGate.authorize`. The disk at
--   each read is an argument.
-- * Zombie (src/takler/server/zombie.py): the guard that every report of a job passes, with the
--   attempt of Task.
-- * Journal (src/takler/server/query_changes.py): the bounded journal that query clients follow.
-- * Client (src/takler/protocol/error_code.py, src/takler/client/exit_code.py) and Client.Retry
--   (src/takler/client/retry.py): the codes of errors and the retry loop of a call.
-- * Service (src/takler/core/bunch.py, src/takler/server/scheduler.py, checkpoint.py): the state of
--   the service and the causes of a halt. Checkpoint (src/takler/server/checkpoint.py): the outcomes
--   of the writes of checkpoints, which set and clear one of these causes.
-- * Checkpoint.Storage (src/takler/server/checkpoint.py): the files with their links, `_write_payload`,
--   `_prepare_fixed_version`, `_publish_prepared` and `write_checkpoint` of a server. What the system
--   does at each step of a write is an argument, `Plan`. Checkpoint.Restore: `restore` and
--   `_load_snapshot`; the reading and building of a snapshot are an interface, `Reader`.
--
-- Prelude holds the shared names, the tests on numbers, the lists over the native numbers and the
-- integers. Each part has a module of definitions, and child modules named for what they prove.
-- Examples has a concrete run for each result.
--
-- Numbers, bounds and fuel. Meters and instants are integers without bound, as in the source; tokens,
-- steps and counters are natural numbers, since the definition schema refuses negative ones; a date
-- is the number of a day, and an increment past the last date of the calendar raises; times of the
-- journal and of the retry loop are in microseconds. Three functions have fuel: `run_with_retry` is
-- given its number of attempts, and one more than the seconds of the window, rounded up, is enough;
-- `pass` and `exhaust`, of Scan, take one turn or one step for each node and each flow at most.
-- Everything else is structural recursion.
--
-- Not modelled: logs, the callbacks and notices to query clients, threads and worker processes, the
-- transports and the generated protocol code, since they are I/O or third-party; the parser of triggers
-- and the reading and printing of dates, which are libraries; the release of tokens inside
-- `set_node_status`, which Limit describes apart from Tree; the writes of generated parameters, the
-- startup checks of credentials, the contents of snapshots and definitions, the store of versions, the
-- service that answers queries and the caches of references. The index of the paths of tasks may refuse a
-- write (see Artifacts, and Submission for the run of a task); the requeues of Tree take it that it does
-- not.
-- Arguments stand for code that is not of the repository: `str.strip`, the reading of a UUID and of a
-- path, the length of a text in UTF-8, the clock, random texts and the outcome of a call; and for the
-- search of a node by its path, which Limit and Trigger use.
pub mod Prelude
pub mod Status
pub mod Attr
pub mod Task
pub mod Tree
pub mod Paths
pub mod Parameters
pub mod Limit
pub mod Trigger
pub mod Dependencies
pub mod Scan
pub mod Zombie
pub mod Journal
pub mod Client
pub mod Reports
pub mod Force
pub mod Flows
pub mod Control
pub mod Definitions
pub mod Handlers
pub mod Submission
pub mod Artifacts
pub mod Batch
pub mod Access
pub mod Service
pub mod Checkpoint
pub mod Examples
