-- ===== src/Usage/Sample.antt =====
-- The laws of quantities for the server of the tests whose quantities are numbers.
use korder.Prelude.{ℕ, ◌+◌, ◌≤◌, ◌<◌, ◌≡◌, refl, ◌∙◌, arith, List, [], ◌∷◌}
use korder.Prelude.Int.{ℤ, pos, negsuc, scale, ◌+ℤ◌, ◌≤ℤ◌}
use korder.Api.Ticket.{Ticket}
use korder.Api.Quota.{Quota}
use korder.Client.{Cluster, Reply, ok, err, not_found}
use korder.Client.Sample.{metered_server, metered, amount}
use korder.Usage.Measure.{IsMeasured}

amount-metered : (z : ℤ) → amount (metered z) ≡ z
amount-metered (pos n) = refl
amount-metered (negsuc n) = refl

scale_one : (z : ℤ) → z ≡ scale 1 z
unfolding scale
scale_one (pos n) = ground arith
scale_one (negsuc n) = ground arith

abbrev first : List Quota → Reply Quota
first [] = err (not_found [])
first (quota ∷ quotas) = ok quota

-- The server with the quotas and the tickets that it lists.
abbrev pub busy_server : List Quota → List Ticket → Cluster
busy_server quotas tickets = record metered_server {
  quotas_at = λ tr. ok quotas;
  quota_at = λ tr k. first quotas;
  tickets_at = λ tr ns ls. ok tickets;
}

pub busy_server-IsMeasured :
    (quotas : List Quota) (tickets : List Ticket) → IsMeasured (busy_server quotas tickets)
busy_server-IsMeasured quotas tickets = record {
  unit = 1;
  measure = amount;
  exceeds_lem = λ q r. refl;
  is_zero_lem = λ q. refl;
  is_positive_lem = λ q. refl;
  add_quantity_lem = λ q r. amount-metered _;
  sub_quantity_lem = λ q r. amount-metered _;
  zero_quantity_lem = refl;
  new_quantity_lem = λ z. amount-metered z ∙ scale_one z;
}

pub busy_server-unit :
    (quotas : List Quota) (tickets : List Ticket) → 0 < (busy_server-IsMeasured quotas tickets).unit
unfolding busy_server-IsMeasured
busy_server-unit quotas tickets = omega arith

ones_fit : (k r limit : ℕ) → k + r ≤ limit → scale 1 (pos k) +ℤ scale 1 (pos r) ≤ℤ pos limit
unfolding scale ◌+ℤ◌
ones_fit k r limit h = ground arith

pub busy_server-fits :
    (quotas : List Quota) (tickets : List Ticket) (k r limit : ℕ)
    → k + r ≤ limit
    → let measured = busy_server-IsMeasured quotas tickets in
      scale measured.unit (pos k) +ℤ scale measured.unit (pos r)
      ≤ℤ measured.measure (metered (pos limit))
unfolding busy_server-IsMeasured
busy_server-fits quotas tickets k r limit h = ones_fit k r limit h
