-- ===== src/OrderController/Status.antt =====
-- The status that updateOrderStatus writes.
use korder.Prelude.{ℕ, ◌≡◌, refl, false, not, some, List, countb}
use korder.Prelude.Text.{Text, codes, text_eq}
use korder.Api.Meta.{Time}
use korder.Api.Condition.{
  holds, condition, status_of, status-update_condition, condition-update_condition_ne,
}
use korder.Api.Ticket.{Ticket, is_expired, is_pending}
use korder.Api.Order.{Order}
use korder.OrderController.Report.{condition_kind, with_status}

abbrev pub expired_in : List Ticket → ℕ
expired_in ts = countb (λ t. is_expired t.status.phase) ts

abbrev pub unexpired_in : List Ticket → ℕ
unexpired_in ts = countb (λ t. not (is_expired t.status.phase)) ts

abbrev pub pending_in : List Ticket → ℕ
pending_in ts = countb (λ t. is_pending t.status.phase) ts

-- After a status with the reason Failed the condition Failure holds, and the condition Ready is as
-- it was: an order that was ready stays so beside its failure.
pub failed-keeps_ready :
    (order : Order) (ts : List Ticket) (message : Text) (at_time : Time)
    → let written = (with_status order ts (codes "Failed") message at_time).status.conditions in
      (status_of (condition (codes "Failure") written) ≡ some holds)
      × (condition (codes "Ready") written ≡ condition (codes "Ready") order.status.conditions)
unfolding with_status condition_kind text_eq
failed-keeps_ready order ts message at_time = (
  status-update_condition (codes "Failure") holds at_time (codes "Failed") message
      order.status.conditions,
  condition-update_condition_ne (codes "Failure") holds at_time (codes "Failed") message
      (codes "Ready") order.status.conditions (unfold text_eq in refl),
)

-- A status with another reason sets Ready, and leaves the condition Failure as it was: a failure
-- that has passed is reported for good.
pub other_reason-keeps_failure :
    (order : Order) (ts : List Ticket) (reason message : Text) (at_time : Time)
    → text_eq reason (codes "Failed") ≡ false
    → let written = (with_status order ts reason message at_time).status.conditions in
      (status_of (condition (codes "Ready") written) ≡ some holds)
      × (condition (codes "Failure") written ≡ condition (codes "Failure") order.status.conditions)
unfolding with_status condition_kind
other_reason-keeps_failure order ts reason message at_time other = rw other (
  status-update_condition (codes "Ready") holds at_time reason message order.status.conditions,
  condition-update_condition_ne (codes "Ready") holds at_time reason message (codes "Failure")
      order.status.conditions (unfold text_eq in refl),
)
