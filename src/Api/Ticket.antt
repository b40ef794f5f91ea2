-- ===== src/Api/Ticket.antt =====
-- api/v1alpha1/ticket_types.go, and the types of order_types.go that a ticket shares.
use korder.Prelude.{Bool, true, false, Option, List, []}
use korder.Prelude.Int.{ℤ}
use korder.Prelude.Text.{Text, codes}
use korder.Api.Meta.{ObjectMeta, Time, Labels, ResourceRequirements}
use korder.Api.Condition.{Condition}

-- `new` is the empty phase of a ticket that no controller has seen.
pub data TicketPhase : Type 0 where
  new pending ready claimed expired : TicketPhase
  other : Text → TicketPhase

pub data CleanupPolicy : Type 0 where
  unset delete retain : CleanupPolicy
  other : Text → CleanupPolicy

pub record TicketLifecycle : Type 0 where
  pub ttl_seconds_after_finished : Option ℤ
  pub cleanup_policy : CleanupPolicy

pub record WindowSpec : Type 0 where
  pub start_time : Option Text
  pub time_zone : Option Text
  pub duration : Text

pub record TicketSpec : Type 0 where
  pub lifecycle : Option TicketLifecycle
  pub window : Option WindowSpec
  pub scheduler_name : Option Text
  pub priority_class_name : Option Text
  pub resources : Option ResourceRequirements
  pub node_name : Option Text
  pub node_selector : Option Labels
  pub affinity : Option Text
  pub tolerations : List Text
  pub topology_spread_constraints : List Text

pub record TicketStatus : Type 0 where
  pub phase : TicketPhase
  pub activation_time : Option Time
  pub expiration_time : Option Time
  pub claimed_time : Option Time
  pub utilization_rate : Option Text
  pub node_name : Option Text
  pub guardian_pod : Option Text
  pub claimed_pod : Option Text
  pub message : Option Text
  pub reason : Option Text
  pub observed_generation : Option ℤ
  pub conditions : List Condition

pub record Ticket : Type 0 where
  pub meta : ObjectMeta
  pub spec : TicketSpec
  pub status : TicketStatus

-- A phase as it is printed.
abbrev pub phase_text : TicketPhase → Text
phase_text TicketPhase.new = []
phase_text TicketPhase.pending = codes "Pending"
phase_text TicketPhase.ready = codes "Ready"
phase_text TicketPhase.claimed = codes "Claimed"
phase_text TicketPhase.expired = codes "Expired"
phase_text (TicketPhase.other p) = p

abbrev pub is_ready : TicketPhase → Bool
is_ready TicketPhase.ready = true
is_ready _ = false

abbrev pub is_pending : TicketPhase → Bool
is_pending TicketPhase.pending = true
is_pending _ = false

abbrev pub is_claimed : TicketPhase → Bool
is_claimed TicketPhase.claimed = true
is_claimed _ = false

abbrev pub is_expired : TicketPhase → Bool
is_expired TicketPhase.expired = true
is_expired _ = false
