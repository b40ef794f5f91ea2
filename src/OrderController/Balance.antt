-- ===== src/OrderController/Balance.antt =====
-- internal/controller/order_controller.go: reconcileTickets and handleExcessTickets.
use mathlib.Core.List.{reverse}
use korder.Prelude.{
  ℕ, zero, suc, true, false, Option, none, some, List, [], ◌∷◌, if◌then◌else◌, get_or,
}
use korder.Prelude.Int.{ℤ, pos, pos_part, ◌-ℤ◌, ltb_ℤ, leb_ℤ, wrap32}
use korder.Api.Ticket.{Ticket, is_claimed}
use korder.Api.Order.{Order, RefreshPolicy}
use korder.Client.{
  Cluster, Error, Reply, ok, err, Call, M, pure, stuck, ◌>>=◌, write, Outcome, after,
}
use korder.OrderController.Tickets.{owned_tickets, filter_active, len32, create_tickets}

-- The loop of AlwaysRefresh over the active tickets from the last; an index below 0 is a panic.
unfoldable pub delete_last : Cluster → ℕ → List Ticket → M (Option Error)
delete_last env zero ts = pure none
delete_last env (suc rounds) [] = stuck
delete_last env (suc rounds) (t ∷ ts) = do
  failure ← write env (Call.delete_ticket t)
  elim failure [ some e ↦ pure (some e) | none ↦ delete_last env rounds ts ]

-- The loop of OnClaimRefresh over the active tickets from the last, with the deletions left.
unfoldable pub delete_claimed : Cluster → ℕ → List Ticket → M (Option Error)
delete_claimed env left [] = pure none
delete_claimed env zero (t ∷ ts) = pure none
delete_claimed env (suc left) (t ∷ ts) = elim (is_claimed t.status.phase) [
  | false ↦ delete_claimed env (suc left) ts
  | true ↦ do
    failure ← write env (Call.delete_ticket t)
    elim failure [ some e ↦ pure (some e) | none ↦ delete_claimed env left ts ]
]

-- The switch over the refresh policy.
unfoldable pub by_policy : Cluster → RefreshPolicy → ℕ → List Ticket → M (Option Error)
by_policy env RefreshPolicy.always excess active = delete_last env excess (reverse active)
by_policy env RefreshPolicy.on_claim excess active = delete_claimed env excess (reverse active)
by_policy env _ excess active = pure none

-- handleExcessTickets
unfoldable pub handle_excess : Cluster → Order → List Ticket → ℤ → M (Option Error)
handle_excess env order active desired =
    let excess = wrap32 (len32 active -ℤ desired) in
    if leb_ℤ excess (pos 0)
    then pure none
    else by_policy env order.spec.refresh_policy (pos_part excess) active

-- A result with the error of a step, if it has one.
abbrev settle : Outcome → Option Error → M (Reply Outcome)
settle o none = pure (ok o)
settle o (some e) = pure (err e)

abbrev pub five_minutes : Outcome
five_minutes = after (pos 300000000000)

-- reconcileTickets behind the list of the tickets.
unfoldable pub balance : Cluster → Order → List Ticket → M (Option Error)
balance env order current =
    let desired = get_or order.spec.replicas (pos 1) in
    let active = filter_active current in
    let count = len32 active in
    if ltb_ℤ count desired
    then create_tickets env order (pos_part (wrap32 (desired -ℤ count))) (len32 current)
    else if ltb_ℤ desired count
    then handle_excess env order active desired
    else pure none

-- reconcileTickets
unfoldable pub reconcile_tickets : Cluster → Order → M (Reply Outcome)
reconcile_tickets env order = do
  listed ← owned_tickets env order
  elim listed [
    | err e ↦ pure (err e)
    | ok current ↦ (balance env order current >>= settle five_minutes)
  ]
