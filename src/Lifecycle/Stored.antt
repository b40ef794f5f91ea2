-- ===== src/Lifecycle/Stored.antt =====
-- What the allowed writes of a run leave of a ticket.
use korder.Prelude.{
  ◌≡◌, ◌⊎◌, inl, inr, Bool, true, Option, none, some, [], ◌∷◌, arith, allb, Bool-cases, &&_true,
}
use korder.Prelude.Text.{Text}
use korder.Api.Ticket.{Ticket, TicketPhase}
use korder.Client.{Cluster, Call, Trace}
use korder.TicketController.Diagram.{edge, allowed}
use korder.Lifecycle.History.{same_key, applied, stored}

module _ (from : TicketPhase) (kept : Option Text → Bool) where
  -- The phase has not changed or has followed an edge, and the claim is kept.
  abbrev pub IsReached : Ticket → Type 0
  IsReached t =
      ((t.status.phase ≡ from) ⊎ (edge from t.status.phase ≡ true))
      × (kept t.status.claimed_pod ≡ true)

  applied-IsReached :
      (c : Call) (t : Ticket) → allowed from kept c ≡ true → IsReached t → IsReached (applied c t)
  applied-IsReached (Call.update_ticket_status u) t may reached =
      elim (Bool-cases (same_key u.meta t.meta)) [
        | inl same ↦ ground arith
        | inr other ↦ ground arith
      ]
  applied-IsReached (Call.update_ticket u) t may reached = ground arith
  applied-IsReached c t may reached = reached

  pub stored-IsReached :
      (env : Cluster) (t : Ticket) (tr : Trace)
      → allb (allowed from kept) tr ≡ true
      → IsReached t
      → IsReached (stored env t tr)
  unfolding stored
  stored-IsReached env t [] may reached = reached
  stored-IsReached env t (c ∷ tr) may reached =
      let (now_may, then_may) = &&_true (allowed from kept c) (allb (allowed from kept) tr) may in
      let before = stored-IsReached env t tr then_may reached in
      elim (env.write_error tr c)
        as (λ e.
          IsReached (elim e [ some _ ↦ stored env t tr | none ↦ applied c (stored env t tr) ])) [
            | some e ↦ before
            | none ↦ applied-IsReached c (stored env t tr) now_may before
          ]
