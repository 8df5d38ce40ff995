-- ===== src/Lib.antt =====
-- The NeoCloud control plane (app/): a Python service that rents bare-metal GPU racks to tenants. Its
-- parts hold their state in memory: a store of tables, a simulated host manager, and simulated shared
-- services. An operation of the source is a function here; one that can fail with an `HTTPException`
-- is in the monad `Exec`, which keeps the state that was reached and the status of the error.
--
-- - Prelude: Boolean tests, lists, the monad `Exec`, decimal numerals. Dict: a Python `dict`, as the
--   list of its entries in the order of insertion, and its laws.
-- - Nico: app/nico_fake.py, class FakeNico. Nico/Address has the addresses of trays, Nico/Jobs the
--   jobs and failures (and `wait_job` of app/adapters.py), Nico/Hosts the life of a host,
--   Nico/Segments the tenant segments. Nico/Settled, Nico/Effect, Nico/Steps, Nico/Wiring, Nico/Run
--   and Nico/Safety are about sequences of calls while `job_latency` is 0, its default; Nico/Cycle
--   follows one host; Nico/Waiting is about wait_job; Nico/Vpc is about the members of segments.
--   Nico/Seeding has the hosts of the inventory, which Nico/Seeded is about.
-- - Shared: app/shared_services.py, class FakeSharedServices. Shared/Audit is about the audit trail,
--   Shared/Credentials about the revocation of credentials.
-- - Tenancy: app/tenancy.py over the tables of app/store.py with the models of app/models.py.
--   Tenancy/Slug, Tenancy/Vni, Tenancy/Tenants, Tenancy/Racks, Tenancy/Partitions and Tenancy/Report
--   follow the functions of that file in its order; Tenancy/Exclusive is about allocations,
--   Tenancy/Isolated and Tenancy/Isolation about the report.
-- - Guard: app/tenancy_guard.py, the middleware that holds a customer's request to its tenant.
--   Guard/Admission is about what it lets through and out.
-- - Lifecycle: nodes, orders and their state machines in app/lifecycle.py, and the record World of all
--   tables and simulators. Lifecycle/Machines is about the histories of nodes and orders,
--   Lifecycle/Placement has select_racks, which Lifecycle/Selection and Lifecycle/Capacity are about,
--   and Lifecycle/Reconcile has bootstrap_nodes and reconcile, which Lifecycle/Mirror,
--   Lifecycle/Unclaimed and Lifecycle/Mirrored are about.
-- - Orders: how a new order is fulfilled in app/lifecycle.py, over the components above. Orders/Saga has
--   the compensation, Orders/Stages the stages, and Orders/Pipeline how they follow each other;
--   Orders/Reclaim has the order that gives an allocation back, and Orders/Truth is about its nodes.
--   Orders/Holds, Orders/Kept and Orders/Ends have the rules on what a call leaves of an order and in
--   which state, Orders/Undone and Orders/Outcome apply them to the compensation and the stages;
--   Orders/Approval, Orders/Modes and Orders/Managed are about an order that the operator approves stage
--   by stage. Orders/Kubernetes has the installation of managed Kubernetes on an order, with its way
--   back, over the clusters of K8s (app/models.py); Orders/Caught and Orders/Rollback are about that
--   way back. Orders/Kubernetes/DayTwo has the installation on racks in service, which Orders/Restored
--   is about.
-- - Scenario: app/scenario_api.py, the life of a contract over the orders. Scenario/Accepting has the
--   acceptance of an order; Scenario/Contract says what may become of it, Scenario/Billing is about when
--   the billing starts, Scenario/Silence about a delivered order, and Scenario/Finalize about the
--   approvals that a decision runs through. Scenario/Terminating and Scenario/Erasing have the end of a
--   contract; Scenario/Guarded says what its states stand for, which Scenario/Ending and Scenario/Backup
--   are about. Scenario/Incidents has the incidents and the reports on their causes, which
--   Scenario/Incidents/Owed and Scenario/Incidents/Published are about; over them, and over the minutes
--   that services were down in Scenario/Downtime, stand Scenario/StatusPage, the public status page, and
--   Scenario/Sla, the report on a month's availability with its service credit (the prices are those of
--   app/business.py). Scenario/Inquiries has the inquiries of the public pages; Scenario/Sla/Calls,
--   Scenario/Sla/Ledger and Scenario/Sla/Kept are about any calls of all these.
-- - Vast: app/vast_fake.py, class FakeVast. Vast/Views is about the life of a view.
-- - Trace: app/trace.py, class Tracer. Trace/Log is about the answers of a query.
-- - Tests: runs of the definitions on small inputs.
--
-- `create_tenant` calls the shared services, whose state is a field of the store here. An operation of
-- app/tenancy.py that changes the store holds its lock from its first read to its end, so it is one step.
--
-- Bounds: the search for a VNI runs over the 10,000 numbers of a range; `wait_job` takes the number of
-- polls as its argument, which the stages set to 60; an order has seven stages, or eight with Kubernetes,
-- so eight approvals are enough for it. A numeral is written with as many digits as its value needs.
--
-- Not modelled: times, but for those of acceptances, terminations, incidents and inquiries; the messages
-- that the parts send to the tracer, log texts and the fields that no modelled operation reads; the
-- Kubernetes service and the customer operations; read-only views and simulated telemetry; the web
-- framework. Random tokens, the masking of secrets and Python's floating-point numbers (the records
-- Floats and Reckoning) are arguments, and so are the clock, the environment variables and the digest
-- (the records Outside and Times). A saga or an installation in its own thread is a call of its own,
-- whose steps no other call comes between. The stages of an order and the reclaim take the installation
-- of Kubernetes and the take-down of clusters as arguments.
pub mod Prelude
pub mod Dict
pub mod Nico
pub mod Shared
pub mod Tenancy
pub mod K8s
pub mod Lifecycle
pub mod Orders
pub mod Scenario
pub mod Guard
pub mod Vast
pub mod Trace
pub mod Tests
