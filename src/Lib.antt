-- ===== src/Lib.antt =====
-- The action engine of queryops-ai, the authorization that it stands on, its dashboards, the joins of
-- its query plans, and its exports.
--
-- A user asks for an action on the records of a department, such as reclaiming unused licenses. The
-- request waits, as a pair of an action row and an approval row, until another user decides it, and an
-- approved action is executed by a handler. Who may do what is decided by permissions (of the role and
-- of the user), by scopes, and by two policies; the database then restricts the rows of a transaction
-- by settings that are derived from the user's scopes.
--
-- Dashboards lay out cards on a grid. A question becomes a plan of entities and relationships, which is
-- validated as a graph and then brought into an order of joins. Results are exported as comma-separated
-- text.
--
-- The files, with the code that they model (paths from the repository's root):
-- - Prelude, with what the modules share: tests on numbers, lists, stable sorting as `sorted` does
--   it, deduplication as `dict.fromkeys` does it, results, JSON values, UUIDs (numbers below 2 ^ 128,
--   with their text), and the values of the dicts that the access policy reads.
-- - Auth.Permissions: backend/app/auth/permissions.py. Auth.Context: backend/app/auth/access_context.py.
--   Auth.AccessPolicy: backend/app/auth/access_policy.py. Auth.Rls: backend/app/core/rls.py. Tables
--   are lists of rows, and a join walks both.
-- - Actions.Policy, Actions.Presentation, Actions.Audit, Actions.Notifications: the files of the same
--   names in backend/app/action_engine. Actions.Rows: the rows of backend/app/models/product.py.
-- - Actions.Session: the database session. `saved` is what others can see, `working` what the
--   transaction has made of it, and a list says which of the coming commits succeed. A conditional
--   update gives the number of rows that it changed.
-- - Actions.Lifecycle: `ApprovalLifecycleService` of backend/app/action_engine/approval.py, and
--   action_dispatch.py beside it. Base has the errors, the locked pair and the deadlines; Expire, Reject,
--   Approve, Complete, Failure and Skips have the methods, a definition for each part.
-- - Actions.Lifecycle.Steps: the state machine that the methods implement, written without them.
--   Refines: how the methods relate to it, and which runs of a handler their results depend on.
--   Invariant: what a step keeps. Service: sequences of requests, those of the requester included.
--   Once: the requests that follow an approval that was answered.
-- - Actions.Requests: `ActionLifecycleService` of backend/app/action_engine/service.py, as far as a
--   requester submits and cancels. Expire, Submit and Cancel have the methods; Changes has what they may
--   do to the tables, and Refines that they do no more. An approval is found by the column that names its
--   action, among the keys that `approval_keys` lists.
-- - Dashboards.Policy: backend/app/dashboards/policy.py. Dashboards.Sizes, Grid and Layout:
--   backend/app/dashboards/editor.py, the sizes of the cards, the coordinates with the search for a free
--   place, and the layout of all the cards of a dashboard. A card carries its visualization type.
-- - Queries.Requests: backend/app/query_engine/request_authorization.py.
-- - Queries.Joins: backend/app/query_engine/relational_semantics.py. Sequence describes join orders without
--   the search, Greedy and Inner are about the loop of the search, Order, Population and Nullable have what the
--   three functions promise. A missing key of a dict is an error value.
--
-- - Queries.Graph: `_validate_relationship_graph` of backend/app/query_engine/semantic_plan.py. Linked has
--   graphs without the algorithms; Parents, United and Acyclic are about its union-find, Neighbours and
--   Visiting about its search, and Adding and Tree put them together. Joinable is about plans that pass
--   this check and then meet the search for a join order.
-- - Exports.Csv: backend/app/exports/csv_exporter.py, on lists of code points, with what it uses of
--   `csv.writer` of Python's standard library, in the version 3.11 that pyproject.toml names:
--   the dialect `excel`, quotes where a field needs them, and a line feed after each row. Reader is an independent reader of the format; Roundtrip is about reading what
--   was written, and Formulas about cells that begin as formulas.
--
-- An exception is a value: `Outcome` has the service's own errors and, apart from them, a crash; the
-- guarded part of `approve` gives an `Attempt`, which says what it came to. Instants are whole
-- seconds (the source's have microseconds), and the clock, the printing of instants and the user's
-- context are arguments. JSON numbers are integers: a dict with a float in it is no value of the model.
--
-- What other transactions do shows at three points. Two are parameters of `Engine`: `lock`, which
-- waits for the rows of the handlers, and `meanwhile`, which stands between the rollback of a failed
-- attempt and the moment when its pair is locked again. The third is `meanwhile` of `Surroundings`, after
-- the rollback of a submission that violates a constraint. The rows are locked everywhere else. The
-- handlers are a parameter too, behind the protocol of backend/app/action_engine/base.py, as is
-- `validate_action_snapshot`, and with it the safe views of a stored preview. The database roles that
-- `approve` sets and resets around their calls are part of those calls.
--
-- All recursion is on lists, but for the search for a free place, which counts down the positions of a
-- row and the 10001 rows that the source's own loops run through, and for the loops over pending edges,
-- which count down their number: each round takes an edge off. In Queries.Graph, `find` has fuel for one
-- step more than there are relationships, since an entity stands no more steps below its root than edges
-- were united; the search has a round for its start and two for each relationship, since a visit pushes no
-- more than the ends that lie beside it.
--
-- Not modelled: listing and showing approvals, with their sweep of expired requests; making
-- previews and listing requests (the rest of service.py, preview.py); the settings of visualizations; the
-- rest of the query engine, evaluation and routes; the frontend, migrations and scripts.
pub mod Actions
pub mod Auth
pub mod Dashboards
pub mod Exports
pub mod Prelude
pub mod Queries
