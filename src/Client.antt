-- ===== src/Client.antt =====
-- The Kubernetes API server and controller-runtime, which the program calls and does not
-- implement. What they answer is a parameter: a `Cluster` gives the answer to each call, and may
-- make it depend on all the calls before. A method of the program runs from the calls made so far
-- to the calls made after it, newest first, so a theorem about calls holds for every behaviour of
-- the server that its hypotheses leave open.
pub mod Sample
use korder.Prelude.{◌≡◌, refl, ◌⊎◌, inl, inr, Bool, Option, none, some, List, ◌∷◌, false, true}
use korder.Prelude.Int.{ℤ, pos}
use korder.Prelude.Text.{Text}
use korder.Api.Meta.{
  ObjectMeta, Key, Quantity, ResourceList, Float64, Pod, Labels, LabelSelector, Time,
}
use korder.Api.Ticket.{Ticket}
use korder.Api.Order.{Order}
use korder.Api.Quota.{Quota}

-- An error value with its text. apierrors tells the first two from the others.
pub data Error : Type 0 where
  not_found : Text → Error
  already_exists : Text → Error
  other : Text → Error

abbrev pub error_text : Error → Text
error_text (not_found t) = t
error_text (already_exists t) = t
error_text (other t) = t

-- apierrors.IsNotFound
abbrev pub is_not_found : Error → Bool
is_not_found (not_found t) = true
is_not_found _ = false

-- apierrors.IsAlreadyExists
abbrev pub is_already_exists : Error → Bool
is_already_exists (already_exists t) = true
is_already_exists _ = false

-- A Go result (value, error) of which one is nil.
pub data Reply {ℓ} (A : Type ℓ) : Type ℓ where
  ok : A → Reply A
  err : Error → Reply A

pub Reply-cases {ℓ} :
    {A : Type ℓ} (r : Reply A) → ((a : A) × (r ≡ ok a)) ⊎ ((e : Error) × (r ≡ err e))
Reply-cases (ok a) = inl (a, refl)
Reply-cases (err e) = inr (e, refl)

-- client.InNamespace, where the empty name stands for all namespaces, and
-- client.MatchingLabelsSelector.
pub data ListScope : Type 0 where
  in_namespace : Text → ListScope
  selected : LabelSelector → ListScope

-- The calls that the program makes, with what it sends; `read_clock` is time.Now().
pub data Call : Type 0 where
  read_clock : Call
  get_ticket get_order get_pod : Key → Call
  create_ticket update_ticket update_ticket_status delete_ticket : Ticket → Call
  update_order update_order_status : Order → Call
  create_pod : Pod → Call
  delete_pod : Key → Call
  list_tickets : Text → Labels → Call
  list_selected_tickets list_namespaces : LabelSelector → Call
  list_quotas : Call
  list_orders list_daemon_orders list_cron_orders : ListScope → Call
  get_quota : Key → Call
  get_namespace : Text → Call
  update_quota update_quota_status : Quota → Call

abbrev pub Trace : Type 0
Trace = List Call

pub record Cluster : Type 0 where
  pub now : Trace → Time
  pub ticket_at : Trace → Key → Reply Ticket
  pub order_at : Trace → Key → Reply Order
  pub pod_at : Trace → Key → Reply Pod
  pub tickets_at : Trace → Text → Labels → Reply (List Ticket)
  pub quotas_at : Trace → Reply (List Quota)
  pub quota_at : Trace → Key → Reply Quota
  pub orders_at : Trace → ListScope → Reply (List Order)
  -- Daemon orders and cron orders, which are only counted, and namespaces: their metadata.
  pub daemon_orders_at : Trace → ListScope → Reply (List ObjectMeta)
  pub cron_orders_at : Trace → ListScope → Reply (List ObjectMeta)
  pub selected_tickets_at : Trace → LabelSelector → Reply (List Ticket)
  pub namespaces_at : Trace → LabelSelector → Reply (List ObjectMeta)
  pub namespace_at : Trace → Text → Reply ObjectMeta
  pub created_pod : Trace → Pod → Reply Pod
  -- The error of a write, `none` for nil.
  pub write_error : Trace → Call → Option Error
  -- controllerutil
  pub contains_finalizer : ObjectMeta → Text → Bool
  pub add_finalizer : ObjectMeta → Text → ObjectMeta
  pub remove_finalizer : ObjectMeta → Text → ObjectMeta
  pub set_controller_reference : ObjectMeta → ObjectMeta → Reply ObjectMeta
  -- time.ParseDuration, time.Parse and Format with RFC3339
  pub parse_duration : Text → Reply ℤ
  pub parse_time : Text → Reply Time
  pub format_time : Time → Text
  -- resource.MustParse and NewQuantity, a quantity formatted by %v; q.Cmp(r) > 0, q.Sign() < 0
  -- and q.Equal(r)
  pub must_parse : Text → Quantity
  pub print_quantity : Quantity → Text
  pub new_quantity : ℤ → Quantity
  pub exceeds : Quantity → Quantity → Bool
  pub is_negative : Quantity → Bool
  pub same_quantity : Quantity → Quantity → Bool
  -- q.Add(r), q.Sub(r), q.IsZero(), q.Sign() > 0, q.Value(), q.Set(v) and NewQuantity(v, q.Format)
  -- The zero value of resource.Quantity
  pub zero_quantity : Quantity
  pub add_quantity : Quantity → Quantity → Quantity
  pub sub_quantity : Quantity → Quantity → Quantity
  pub is_zero : Quantity → Bool
  pub is_positive : Quantity → Bool
  pub value : Quantity → ℤ
  pub set_value : Quantity → ℤ → Quantity
  pub with_format : Quantity → ℤ → Quantity
  -- A resource list formatted by %v
  pub print_list : ResourceList → Text
  -- strconv.ParseFloat, m > 0 and int64(float64(v) * m)
  pub parse_float : Text → Reply Float64
  pub above_zero : Float64 → Bool
  pub times_float : ℤ → Float64 → ℤ
  -- The error of metav1.LabelSelectorAsSelector, and the selector's Matches
  pub selector_error : LabelSelector → Option Error
  pub selects : LabelSelector → Labels → Bool

-- A run: the calls so far to the value and the calls after it. `none` stands for a run that does
-- not return: a recursion that has used up its fuel, or a Go panic.
abbrev pub M {ℓ} : Type ℓ → Type ℓ
M A = Trace → Option A × Trace

abbrev pub pure {ℓ} : {A : Type ℓ} → A → M A
pure a tr = (some a, tr)

abbrev pub stuck {ℓ} : {A : Type ℓ} → M A
stuck tr = (none, tr)

infixl 5 ◌>>=◌ ◌>>◌
abbrev pub ◌>>=◌ {ℓ κ} : {A : Type ℓ} {B : Type κ} → M A → (A → M B) → M B
◌>>=◌ m f tr = let (r, tr') = m tr in elim r [ none ↦ (none, tr') | some a ↦ f a tr' ]

abbrev pub ◌>>◌ {ℓ κ} : {A : Type ℓ} {B : Type κ} → M A → M B → M B
m >> k = m >>= λ _. k

-- A write, which answers with an error or nil.
abbrev pub write : Cluster → Call → M (Option Error)
write env c tr = (some (env.write_error tr c), c ∷ tr)

abbrev pub now : Cluster → M Time
now env tr = (some (env.now tr), read_clock ∷ tr)

abbrev pub find_ticket : Cluster → Key → M (Reply Ticket)
find_ticket env k tr = (some (env.ticket_at tr k), get_ticket k ∷ tr)

abbrev pub find_order : Cluster → Key → M (Reply Order)
find_order env k tr = (some (env.order_at tr k), get_order k ∷ tr)

abbrev pub find_pod : Cluster → Key → M (Reply Pod)
find_pod env k tr = (some (env.pod_at tr k), get_pod k ∷ tr)

abbrev pub find_tickets : Cluster → Text → Labels → M (Reply (List Ticket))
find_tickets env ns ls tr = (some (env.tickets_at tr ns ls), list_tickets ns ls ∷ tr)

abbrev pub find_quotas : Cluster → M (Reply (List Quota))
find_quotas env tr = (some (env.quotas_at tr), list_quotas ∷ tr)

abbrev pub find_quota : Cluster → Key → M (Reply Quota)
find_quota env k tr = (some (env.quota_at tr k), get_quota k ∷ tr)

abbrev pub find_orders : Cluster → ListScope → M (Reply (List Order))
find_orders env s tr = (some (env.orders_at tr s), list_orders s ∷ tr)

abbrev pub find_daemon_orders : Cluster → ListScope → M (Reply (List ObjectMeta))
find_daemon_orders env s tr = (some (env.daemon_orders_at tr s), list_daemon_orders s ∷ tr)

abbrev pub find_cron_orders : Cluster → ListScope → M (Reply (List ObjectMeta))
find_cron_orders env s tr = (some (env.cron_orders_at tr s), list_cron_orders s ∷ tr)

abbrev pub find_selected_tickets : Cluster → LabelSelector → M (Reply (List Ticket))
find_selected_tickets env s tr = (some (env.selected_tickets_at tr s), list_selected_tickets s ∷ tr)

abbrev pub find_namespaces : Cluster → LabelSelector → M (Reply (List ObjectMeta))
find_namespaces env s tr = (some (env.namespaces_at tr s), list_namespaces s ∷ tr)

abbrev pub find_namespace : Cluster → Text → M (Reply ObjectMeta)
find_namespace env name tr = (some (env.namespace_at tr name), get_namespace name ∷ tr)

abbrev pub make_pod : Cluster → Pod → M (Reply Pod)
make_pod env p tr = (some (env.created_pod tr p), create_pod p ∷ tr)

-- ctrl.Result
pub record Outcome : Type 0 where
  pub requeue : Bool
  pub requeue_after : ℤ

abbrev pub done : Outcome
done = record { requeue = false; requeue_after = pos 0 }

abbrev pub again : Outcome
again = record { requeue = true; requeue_after = pos 0 }

abbrev pub after : ℤ → Outcome
after d = record { requeue = false; requeue_after = d }

-- What Reconcile returns: a result and an error, either of which the other does not exclude.
pub record Return : Type 0 where
  pub outcome : Outcome
  pub error : Option Error

abbrev pub return_ok : Outcome → M Return
return_ok o = pure (record { outcome = o; error = none })

abbrev pub return_err : Outcome → Error → M Return
return_err o e = pure (record { outcome = o; error = some e })

-- Make the calls of a run again, as the calls that it added.
abbrev pub calls {ℓ} : {A : Type ℓ} → Option A × Trace → Trace
calls r = r.1
