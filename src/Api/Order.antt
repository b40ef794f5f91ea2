-- ===== src/Api/Order.antt =====
-- api/v1alpha1/order_types.go
use korder.Prelude.{Bool, Option, List}
use korder.Prelude.Int.{ℤ}
use korder.Prelude.Text.{Text}
use korder.Api.Meta.{ObjectMeta, LabelSelector}
use korder.Api.Condition.{Condition}
use korder.Api.Ticket.{TicketSpec}

pub data RefreshPolicy : Type 0 where
  unset always on_claim never : RefreshPolicy
  other : Text → RefreshPolicy

-- TicketTemplateSpec has the fields of TicketSpec, under the same names.
pub record TicketTemplate : Type 0 where
  pub meta : ObjectMeta
  pub spec : TicketSpec

pub record OrderSpec : Type 0 where
  pub paused : Option Bool
  pub replicas : Option ℤ
  pub refresh_policy : RefreshPolicy
  pub min_ready_seconds : Option ℤ
  pub selector : Option LabelSelector
  pub template : TicketTemplate

pub record OrderStatus : Type 0 where
  pub replicas : Option ℤ
  pub available_replicas : Option ℤ
  pub unavailable_replicas : Option ℤ
  pub terminal_replicas : Option ℤ
  pub updated_replicas : Option ℤ
  pub observed_generation : Option ℤ
  pub collision_count : Option ℤ
  pub conditions : List Condition

pub record Order : Type 0 where
  pub meta : ObjectMeta
  pub spec : OrderSpec
  pub status : OrderStatus
