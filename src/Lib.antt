-- ===== src/Lib.antt =====
-- perseval, a workspace for the traces of agents: a model of its core logic, with proofs.
--
-- The parts of the program and their files here:
--   * Topology: crates/perseval-store/src/workspace/topology.rs. `Walk` is the loop over a chain of
--     parents, `Layout` is topology_layout, `Projection` topology_projection, `Live` the
--     LiveTopologyIndex that the ingest of a trace keeps. The store writes depth and order of a
--     trace's spans from these.
--   * Ingest: `Pending` is pending_projection_sequences of
--     crates/perseval-store/src/workspace/ingest.rs, the rows of the journal that the writer
--     projects next.
--   * Service: crates/perseval-service/src. `Admission` is the byte budget of live.rs, as atomic
--     steps of threads that interleave; `Deltas` is the publication of live.rs to bounded channels;
--     `Supervision` is supervision.rs; `Retry` is the retry
--     state of live/writer.rs and the round that drives it.
--   * Assessments: crates/perseval-store/src/workspace/assessments.rs, the work queue of
--     evaluations. `State` has the tables as lists of rows and the types of
--     crates/perseval-store/src/model.rs; `Claim` is claim_next_assessment, `Commit`
--     commit_assessment_attempt and cancel_assessment_job, `Jobs` the end of an item and the counts
--     of its job, `Budget` the daily budget of a project. `Steps` runs these transactions in any
--     order.
--   * Reviews: crates/perseval-store/src/workspace/reviews.rs, people's judgement of assessments.
--     `Enqueue`, `Assign`, `Submit` and `Adjudicate` are the transactions enqueue_review_task,
--     assign_review_task, submit_annotation_revision and adjudicate_review_task, `Truth` what the
--     annotations of a task resolve to, `Blind` who sees what the model said of a task that is
--     reviewed without it (assessment_blind_embargo and blind_task_model_reveal_allowed); `Steps`
--     runs the four transactions in any order.
--   * Mcp: `Cursor` is crates/perseval-mcp/src/cursor.rs, the signed cursors of a paged tool.
--   * Controllers: apps/perseval-app/src/controllers. `Cache` is bounded_cache.rs, `Requests` is
--     query.rs and `Sequence` is subscription.rs, which watches the published sequence.
--   * Workbench: apps/perseval-app/src/workbench. `State` is state.rs and actions.rs; `Panes`,
--     `Tabs`, `Scope`, `Model` and `Restore` are model.rs; `Navigation` and `Registry` are the
--     files of those names.
--   * Trace: full_trace_timeline.rs and full_trace_tree.rs of
--     apps/perseval-app/src/screens/failure_inbox; Selection: selection.rs beside
--     them, its `Groups` the focus and the selection of failure groups.
--   * Base: lists, sets, maps, machine words and SQL statements on tables that the parts share.
--
-- A method that changes its object returns the new object, beside its result. Ids of spans, keys of
-- caches and texts of cursors are types with a decidable equality; hash maps are association lists.
-- Numbers are natural; where the source adds with saturation or wraps around at 32 or 64 bits, so
-- does the model. A hash map's iteration order is unspecified in the source and is the list's here.
--
-- A transaction of Assessments or Reviews is one function from the tables to an answer with new
-- tables, or to an error, which leaves the tables as they were; the store's lock makes each of them
-- one step. The clock is an argument, in milliseconds. The hashes that serve as ids, `trim`, the
-- order of texts and the checks of the evaluation library are the fields of a record `Externals`.
-- Amounts stay below 2^63, where the source casts them to a signed integer and back. An insertion
-- that meets a unique column with its value taken is an error; the other columns of a table that no
-- modelled statement reads are left out. Rows of a joined table that are read by a key are found by
-- that key.
--
-- Two loops run on fuel. The walk over parents gets one more than the number of rows, since it
-- stops at the first span that it has seen; the depth-first visit gets one more than the length of
-- the topology.
--
-- Not modelled: SQL but for the transactions above, the decision that an active threshold policy
-- adds to a commit, files, decoding of messages, the calls of models, rendering, and threads but
-- for the byte budget. What a thread did, the calls `try_send` and `close` of a channel,
-- what a retry round's query and publication answer, the rows of the query of pending sequences,
-- the clock, and the codecs and the hash of cursors are arguments.
pub mod Assessments
pub mod Base
pub mod Controllers
pub mod Ingest
pub mod Mcp
pub mod Reviews
pub mod Selection
pub mod Service
pub mod Topology
pub mod Trace
pub mod Workbench
