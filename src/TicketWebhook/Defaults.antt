-- ===== src/TicketWebhook/Defaults.antt =====
-- What the defaulter leaves of a ticket.
use korder.Prelude.{
  ◌≡◌, refl, ap, ◌∙◌, true, false, Option, none, some, arith, is_some, is_empty, get_or,
  if◌then◌else◌, inl, inr, Option-cases,
}
use korder.Prelude.Text.{codes}
use korder.Api.Ticket.{Ticket, TicketLifecycle, WindowSpec}
use korder.Client.{Cluster, Trace}
use korder.TicketWebhook.Defaulter.{
  is_delete, default_lifecycle, initial_window, fill_window, default_resources, default,
}

default_lifecycle_idem :
    (l : Option TicketLifecycle)
    → default_lifecycle (some (default_lifecycle l)) ≡ default_lifecycle l
unfolding default_lifecycle is_delete
default_lifecycle_idem l = ground arith

-- A window that needs no default.
abbrev IsFull : WindowSpec → Type 0
IsFull w =
    (is_some w.start_time ≡ true) × (is_some w.time_zone ≡ true) × (is_empty w.duration ≡ false)

fill_window-IsFull :
    (env : Cluster) (w : WindowSpec) (tr : Trace)
    → (w' : WindowSpec) × ((fill_window env w tr).0 ≡ some w') × IsFull w'
unfolding fill_window
fill_window-IsFull env w tr = elim (Option-cases w.start_time) [
  | inl missing ↦ (
    record {
      start_time = some (env.format_time (env.now tr));
      time_zone = some (get_or w.time_zone (codes "UTC"));
      duration = if is_empty w.duration then codes "2h" else w.duration;
    },
    ground arith,
    (refl, refl, ground arith),
  )
  | inr (start, given) ↦ (
    record {
      start_time = some start;
      time_zone = some (get_or w.time_zone (codes "UTC"));
      duration = if is_empty w.duration then codes "2h" else w.duration;
    },
    ground arith,
    (refl, refl, ground arith),
  )
]

fill_window-full :
    (env : Cluster) (w : WindowSpec) (tr : Trace) → IsFull w → fill_window env w tr ≡ (some w, tr)
unfolding fill_window
fill_window-full env w tr (start, zone, duration) = ground arith

initial_window_returns :
    (env : Cluster) (w : Option WindowSpec) (tr : Trace)
    → (w' : WindowSpec) × ((initial_window env w tr).0 ≡ some w')
unfolding initial_window
initial_window_returns env none tr = (_, refl)
initial_window_returns env (some w) tr = (w, refl)

-- The ticket that the defaulter makes, with the window that it has found.
defaulted : Cluster → Ticket → WindowSpec → Ticket
defaulted env t w = record t {
  spec = record t.spec {
    lifecycle = some (default_lifecycle t.spec.lifecycle);
    window = some w;
    scheduler_name = some (get_or t.spec.scheduler_name (codes "default-scheduler"));
    resources = some (get_or t.spec.resources (default_resources env));
  };
}

default-defaulted :
    (env : Cluster) (t : Ticket) (tr : Trace)
    → (w : WindowSpec) × IsFull w × ((default env t tr).0 ≡ some (defaulted env t w))
unfolding default defaulted
default-defaulted env t tr =
    let (w, started) = initial_window_returns env t.spec.window tr in
    let (w', filled, full) = fill_window-IsFull env w (initial_window env t.spec.window tr).1 in
    (w', full, ground arith)

defaulted_idem :
    (env : Cluster) (t : Ticket) (w : WindowSpec)
    → defaulted env (defaulted env t w) w ≡ defaulted env t w
unfolding defaulted
defaulted_idem env t w = rw (default_lifecycle_idem t.spec.lifecycle)

default-full :
    (env : Cluster) (t : Ticket) (w : WindowSpec) (tr : Trace)
    → IsFull w
    → t.spec.window ≡ some w
    → default env t tr ≡ (some (defaulted env t w), tr)
unfolding default defaulted initial_window
default-full env t w tr full given = ground (arith, fill_window-full env w tr full)

-- The defaulter always makes a ticket, and that ticket needs no more defaults: given it again, at
-- whatever later time, the defaulter leaves it as it is and does not read the clock.
pub default-settles :
    (env : Cluster) (t : Ticket) (tr : Trace)
    → (t' : Ticket) × ((default env t tr).0 ≡ some t')
      × ((later : Trace) → default env t' later ≡ (some t', later))
default-settles env t tr =
    let (w, full, made) = default-defaulted env t tr in
    (
      defaulted env t w,
      made,
      λ later.
          default-full env (defaulted env t w) w later full (unfold defaulted in refl)
          ∙ ap (λ u. (some u, later)) (defaulted_idem env t w),
    )
