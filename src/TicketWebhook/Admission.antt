-- ===== src/TicketWebhook/Admission.antt =====
-- Which tickets the validator admits: by the quotas, after the defaults, and in an update.
use korder.Prelude.{
  ◌≡◌, refl, ◌∙◌, Bool, true, false, not, ◌||◌, Option, none, some, List, [], ◌∷◌, arith, is_some,
  is_empty, get_or, allb, inl, inr, Option-cases,
}
use korder.Prelude.Int.{ℤ, pos, leb_ℤ, ◌≤ℤ◌}
use korder.Prelude.Text.{Text, codes, text_eq, lookup}
use korder.Api.Meta.{ResourceList, Time}
use korder.Api.Ticket.{Ticket, WindowSpec}
use korder.Api.Quota.{Quota}
use korder.Client.{Cluster, Error, ok, Trace, list_quotas}
use korder.TicketWebhook.Defaulter.{
  default, initial_window, fill_window, default_lifecycle, default_resources, is_delete,
}
use korder.TicketWebhook.Resources.{validate_resources}
use korder.TicketWebhook.Spec.{
  check_duration, check_start, check_window, check_lifecycle, check_resources, validate_spec,
  validate_immutable, Verdict, changes_node,
}
use korder.TicketWebhook.Quotas.{above_quota, check_quotas, validate_against_quotas, quota_applies}
use korder.TicketWebhook.Limits.{first_error_in-allb, within, validate_resources_lem}

above_quota-within :
    (env : Cluster) (hard : ResourceList) (r : _)
    → is_some (above_quota env hard r) ≡ not (within env hard r)
unfolding above_quota
above_quota-within env hard (name, q) = ground arith

-- A quota that does not apply to the namespace, or of which no request alone exceeds a limit.
abbrev pub admits : Cluster → Text → ResourceList → Quota → Bool
admits env ns requests quota =
    not (quota_applies quota ns) || allb (within env (get_or quota.spec.hard [])) requests

check_quotas-admits :
    (env : Cluster) (ns : Text) (requests : ResourceList) (quotas : List Quota)
    → is_some (check_quotas env ns requests quotas) ≡ not (allb (admits env ns requests) quotas)
unfolding check_quotas
check_quotas-admits env ns requests [] = refl
check_quotas-admits env ns requests (quota ∷ quotas) =
    let hard = get_or quota.spec.hard [] in
    ground (
      arith,
      check_quotas-admits env ns requests quotas,
      first_error_in-allb (above_quota env hard) (within env hard) (above_quota-within env hard)
          requests,
    )

-- The quotas refuse a ticket exactly when one that applies to its namespace has a limit that the
-- ticket's requests exceed on their own: the one call lists the quotas, and no ticket or usage is
-- read, so what other tickets hold does not count.
pub validate_against_quotas_lem :
    (env : Cluster) (ns : Text) (requests : ResourceList) (quotas : List Quota) (tr : Trace)
    → env.quotas_at tr ≡ ok quotas
    → (failure : Option Error) × (validate_against_quotas env ns requests tr
        ≡ (some failure, list_quotas ∷ tr))
      × (is_some failure ≡ not (allb (admits env ns requests) quotas))
unfolding validate_against_quotas
validate_against_quotas_lem env ns requests quotas tr listed =
    (check_quotas env ns requests quotas, ground arith, check_quotas-admits env ns requests quotas)

-- A time, in nanoseconds since 1970, that RFC 3339 has a text for in every time zone: before the
-- year 9999.
abbrev pub IsPrintable : Time → Type 0
IsPrintable t = (pos 0 ≤ℤ t) × (t ≤ℤ pos 253370764800000000000)

-- What a ticket with nothing but a template needs of the formats that the defaulter writes.
pub record ReadsDefaults (env : Cluster) : Type 0 where
  pub two_hours : (d : ℤ) × (env.parse_duration (codes "2h") ≡ ok d) × (leb_ℤ d (pos 0) ≡ false)
  pub start : (t : Time) → IsPrintable t → (s : Time) × (env.parse_time (env.format_time t) ≡ ok s)
  pub start_full : (t : Time) → is_empty (env.format_time t) ≡ false
  pub processor : env.is_negative (env.must_parse (codes "100m")) ≡ false
  pub memory : env.is_negative (env.must_parse (codes "128Mi")) ≡ false

module _ (env : Cluster) (reads : ReadsDefaults env) where
  default_resources_valid : is_some (validate_resources env (default_resources env)) ≡ false
  unfolding default_resources lookup
  default_resources_valid =
      validate_resources_lem env (default_resources env)
      ∙ ground (arith, reads.processor, reads.memory)

  check_window_valid :
      (t : Time) (w : WindowSpec) (tr : Trace)
      → w.duration ≡ codes "2h"
      → w.start_time ≡ some (env.format_time t)
      → IsPrintable t
      → (v : Verdict) × ((check_window env (some w) tr).0 ≡ some v) × (v.error ≡ none)
  unfolding check_window check_duration check_start
  check_window_valid t w tr long starts printable =
      let (d, parsed, positive) = reads.two_hours in
      let (s, read) = reads.start t printable in
      elim (Option-cases (check_window env (some w) tr).0) [
        | inl never ↦ absurd (ground (arith, reads.start_full t))
        | inr (v, h) ↦ (v, h, ground (arith, reads.start_full t))
      ]

  -- A ticket with no window, no lifecycle and no resources is completed by the defaulter to a ticket
  -- whose specification the validator accepts without an error, at any later time. The defaulter's
  -- clock is between 1970 and the year 9999 (`IsPrintable`), such times are printed so that they are
  -- read back, "2h" is read as a positive duration, and the amounts "100m" and "128Mi" are not read as
  -- negative.
  pub default_valid :
      (t : Ticket) (tr later : Trace)
      → IsPrintable (env.now tr)
      → t.spec.window ≡ none
      → t.spec.lifecycle ≡ none
      → t.spec.resources ≡ none
      → (t' : Ticket) × (v : Verdict) × ((default env t tr).0 ≡ some t')
        × ((validate_spec env t' later).0 ≡ some v)
        × (v.error ≡ none)
  unfolding default initial_window fill_window default_lifecycle is_delete validate_spec
      check_lifecycle check_resources
  default_valid t tr later printable no_window no_lifecycle no_resources =
      let start = env.now tr in
      let w : WindowSpec = record {
        start_time = some (env.format_time start);
        time_zone = some (codes "UTC");
        duration = codes "2h";
      } in
      let (v, checked, fine) = check_window_valid start w later refl refl printable in
      elim (Option-cases (default env t tr).0) [
        | inl never ↦ absurd (ground arith)
        | inr (t', made) ↦ elim (Option-cases (validate_spec env t' later).0) [
          | inl never ↦ absurd (ground (arith, default_resources_valid))
          | inr (v', h) ↦ (t', v', made, h, ground (arith, default_resources_valid))
        ]
      ]

-- A node name that is set cannot be changed in one update, and can be in two, of which the first
-- clears it: the check for fields that must not change accepts both.
pub validate_immutable-cleared :
    (env : Cluster) (old new : Ticket) (a b : Text)
    → old.spec.node_name ≡ some a
    → new.spec.node_name ≡ some b
    → text_eq a b ≡ false
    → let cleared : Ticket = record old { spec = record old.spec { node_name = none } } in
      (is_some (validate_immutable env old new).error ≡ true)
      × ((validate_immutable env old cleared).error ≡ none)
      × ((validate_immutable env cleared new).error ≡ none)
unfolding validate_immutable changes_node
validate_immutable-cleared env old new a b was becomes differs =
    (ground arith, ground arith, ground arith)
