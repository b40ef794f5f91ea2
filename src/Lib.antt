-- ===== src/Lib.antt =====
-- Korder, a Kubernetes operator that reserves capacity: an Order keeps a number of Tickets, each
-- Ticket holds a node by a guardian pod, and a pod that asks for a ticket takes its place.
--
-- The parts, with the files of the repository that they model:
--
--   Cron              internal/scheduler/cron.go: `is_time_to_run` is IsTimeToRun, `matches_field` is
--                     matchesField, `validate_schedule` and `validate_field` are ValidateSchedule and
--                     validateField. Cron/Field has a reference syntax of fields and its print.
--   Api               api/v1alpha1: the specs and statuses of tickets, orders and quotas, and the
--                     update of a status condition that the controllers repeat.
--   TicketController  internal/controller/ticket_controller.go: one function per handler
--                     (`handle_pending` is handlePendingTicket, ...), in Write, Guardian,
--                     Activate, Retire and Reconcile. Diagram and Phases have the
--                     phases that it writes, Cleanup what it deletes, Recreate the loop between two
--                     handlers.
--   OrderController   internal/controller/order_controller.go: `reconcile_tickets` is
--                     reconcileTickets, `handle_excess` handleExcessTickets; the code is in
--                     Tickets, Report, Balance and Reconcile. Create and Remove say
--                     which tickets come and go, Policy which may, Status what is reported, Returns
--                     that it returns.
--   PodWebhook        internal/webhook/v1/pod_webhook.go: `default` is the defaulter, which binds a pod
--                     to a ticket, `validate_create` the validator; the code is in Find,
--                     Choose, Defaulter and Validator. Select has the choice of a
--                     ticket, Selector the label selectors, Bind and Validate the two webhooks.
--   TicketWebhook     internal/webhook/v1alpha1/ticket_webhook.go: `default` is the defaulter,
--                     `validate_create` and `validate_update` the validator; the code is in
--                     Defaulter, Resources, Spec, Quotas and Validator. Defaults has what the
--                     defaulter leaves, Limits the resources, Admission which tickets get in.
--   QuotaWebhook      internal/webhook/v1alpha1/quota_webhook.go: Defaulter, Spec and Validator have
--                     the code, Defaults and Scopes what it comes to.
--   OrderWebhook      internal/webhook/v1alpha1/order_webhook.go: Defaulter, Spec, Quotas and
--                     Validator have the code (`validate_growth` is validateQuotaComplianceUpdate),
--                     Defaults, Requests, Admission, Decision, Updates, Growth, Burst and Deletion what it
--                     comes to.
--   QuotaController   internal/controller/quota_controller.go: Scope, Count, Limits, Reconcile and
--                     Validate have the code (`resource_usage` is calculateResourceUsage), Totals,
--                     Bounds and Reports what it comes to.
--   Usage             what those two have in common: the projected usage, the comparison with limits,
--                     the order of the entries of maps (Maps),
--                     and the laws of quantities that the theorems on amounts name (`IsMeasured`).
--   Lifecycle         the ticket controller and the pod webhook on one stored ticket: History has the
--                     steps, Machine the phases and claims, Refines the path that a history follows.
--   Admitted          the webhook of orders before the order controller; Refused is about an update
--                     of an order before the webhook of tickets.
--   Converge          the order controller on a server that stores what it accepts: what two runs of
--                     reconcileTickets in a row come to. A deletion that waits for a finalizer, which the
--                     ticket controller puts on every ticket, is not taken to have any effect.
--   Metrics           internal/metrics/metrics.go: Vectors and Record have its vectors and functions
--                     (`inc_tickets_total` is IncTicketsTotal), Requests its calls as data, Counts what the
--                     counters show, Timed the deferred report of the reconcilers, Created createTicket
--                     with its reports.
--   Manager           cmd/main.go: Setup has the flags and the calls, Slices the slices of TLS options,
--                     Options the options of the servers, Start init and main; Plan has the calls in
--                     order, Started and Tls what a run comes to.
--   Client            the API server and controller-runtime, which the program calls.
--   Prelude           strings, strconv and int32 arithmetic of Go, and lemmas that the parts share.
--
-- How they interact: the parts share no memory, only the objects at the server. A method takes the
-- object that it has fetched and makes calls. `Client` has the calls as data (`Call`), and the server
-- as a parameter (`Cluster`): what it answers may depend on every call before, so nothing is assumed
-- of caches, other clients or failures but what a theorem names as its hypothesis. A method is a
-- function from the calls made so far to its result and the calls after it, the newest first. It has
-- no result where the program does not return: a panic, or a recursion that runs out of fuel.
--
-- Bounds and fuel: numbers that Go keeps in int32 wrap around at 2 ^ 32 (`wrap32`), the products of
-- reserved amounts in int64 at 2 ^ 64 (`wrap64`). Go visits the entries of a map in any order, the
-- model in the order of an association list (Usage/Maps is about that order). Theorems about
-- counts say where they need fewer than 2 ^ 31 tickets. Times are integers of nanoseconds without a
-- bound. Fuel is used in one place, handlePendingTicket and handleReadyTicket, which call each other:
-- Recreate says for which servers three calls are enough. All other loops recur on their lists or
-- rounds.
--
-- The start of the program is a run of its own: the calls of controller-runtime as data (`SetupCall`)
-- and a heap of the arrays behind slices, since two slices of TLS options begin as one. The metrics are
-- a store that Prometheus, a parameter, changes.
--
-- Parameters: the server's answers, the clock, finalizers and owner references (controllerutil),
-- the formats of durations and times, float64, the matching of label selectors, the operations
-- of resource.Quantity, Prometheus, and the answers of controller-runtime at the start. Not modelled:
-- logs, the parsing of flags, the generated deep copies, the registration of the API types with the
-- scheme, and the dynamic type checks of the webhooks.
pub mod Prelude
pub mod Cron
pub mod Api
pub mod Client
pub mod TicketController
pub mod OrderController
pub mod PodWebhook
pub mod TicketWebhook
pub mod QuotaWebhook
pub mod Usage
pub mod Lifecycle
pub mod Converge
pub mod Manager
pub mod Metrics
pub mod Admitted
pub mod OrderWebhook
pub mod QuotaController
