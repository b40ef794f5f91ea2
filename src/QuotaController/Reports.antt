-- ===== src/QuotaController/Reports.antt =====
-- What the reconciler of quotas writes.
use korder.Prelude.{
  ◌≡◌, refl, ap, ◌∙◌, Bool, true, false, none, some, ◌∷◌, arith, if◌then◌else◌, inl, inr,
  Option-cases,
}
use korder.Prelude.Text.{Text, codes, text_eq}
use korder.Api.Meta.{Key, ResourceList}
use korder.Api.Condition.{
  holds, condition, status_of, status-update_condition, condition-update_condition_ne,
}
use korder.Api.Quota.{Quota}
use korder.Client.{Cluster, Trace, ok, get_quota, read_clock, update_quota_status}
use korder.QuotaController.Count.{resource_usage}
use korder.QuotaController.Limits.{current_limits, mark_window, active_multiplier}
use korder.QuotaController.Reconcile.{
  condition_for, counted, reported, update_status, enforce, reconcile,
}
use korder.QuotaController.Validate.{limits_of}
use korder.Usage.{is_exceeded}

-- The conditions that hold of a quota.
abbrev pub Says : Text → Quota → Type 0
Says kind quota = status_of (condition kind quota.status.conditions) ≡ some holds

reconcile-enforces :
    (env : Cluster) (key : Key) (quota : Quota) (tr : Trace)
    → env.quota_at tr key ≡ ok quota
    → quota.meta.deletion_timestamp ≡ none
    → env.contains_finalizer quota.meta (codes "korder.dev/quota-finalizer") ≡ true
    → reconcile env key tr ≡ enforce env quota (get_quota key ∷ tr)
unfolding reconcile
reconcile-enforces env key quota tr exists live kept = ground arith

update_status-writes :
    (env : Cluster) (quota : Quota) (reason message : Text) (tr : Trace)
    → (update_status env quota reason message tr).1
      ≡ update_quota_status (reported quota (env.now tr) reason message) ∷ read_clock ∷ tr
unfolding update_status
update_status-writes env quota reason message tr = ground arith

-- The reason and the message of a usage that could be counted.
verdict : Bool → Text × Text
verdict true = (codes "Exceeded", codes "Resource quota limits exceeded")
verdict false = (codes "Enforced", codes "Quota is being enforced successfully")

enforce-verdict :
    (env : Cluster) (quota : Quota) (usage : ResourceList) (tr : Trace)
    → (resource_usage env quota tr).0 ≡ some (ok usage)
    → let (reason, message) = verdict (is_exceeded env usage (limits_of env quota)) in
      enforce env quota tr
      ≡ update_status env (counted env quota usage) reason message (resource_usage env quota tr).1
unfolding enforce verdict
enforce-verdict env quota usage tr found = ground arith

-- A quota that exists, is not deleted and has its finalizer.
abbrev pub IsKept : Cluster → Key → Quota → Trace → Type 0
IsKept env key quota tr =
    (env.quota_at tr key ≡ ok quota)
    × (quota.meta.deletion_timestamp ≡ none)
    × (env.contains_finalizer quota.meta (codes "korder.dev/quota-finalizer") ≡ true)

-- What Reconcile writes.
reconcile-writes :
    (env : Cluster) (key : Key) (quota : Quota) (usage : ResourceList) (tr : Trace)
    → IsKept env key quota tr
    → (resource_usage env quota (get_quota key ∷ tr)).0 ≡ some (ok usage)
    → let counts = (resource_usage env quota (get_quota key ∷ tr)).1 in
      let (reason, message) = verdict (is_exceeded env usage (limits_of env quota)) in
      (reconcile env key tr).1
      ≡ update_quota_status (reported (counted env quota usage) (env.now counts) reason message)
        ∷ read_clock
        ∷ counts
reconcile-writes env key quota usage tr (exists, live, kept) found =
    let counts = (resource_usage env quota (get_quota key ∷ tr)).1 in
    let (reason, message) = verdict (is_exceeded env usage (limits_of env quota)) in
    ap (λ r. r.1) (reconcile-enforces env key quota tr exists live kept)
    ∙ ap (λ r. r.1) (enforce-verdict env quota usage (get_quota key ∷ tr) found)
    ∙ update_status-writes env (counted env quota usage) reason message counts

condition_for-verdict :
    (exceeded : Bool)
    → condition_for (verdict exceeded).0
      ≡ ((if exceeded then codes "Exceeded" else codes "Enforced"), holds)
unfolding condition_for verdict text_eq
condition_for-verdict true = refl
condition_for-verdict false = refl

-- A quota that exists, is not deleted and has its finalizer, of which the usage can be counted, is
-- written once: with this usage, with its present limits, and as Exceeded where a limit is exceeded
-- and as Enforced where none is.
pub reconcile-reports :
    (env : Cluster) (key : Key) (quota : Quota) (usage : ResourceList) (tr : Trace)
    → IsKept env key quota tr
    → (resource_usage env quota (get_quota key ∷ tr)).0 ≡ some (ok usage)
    → (q : Quota) × ((reconcile env key tr).1
        ≡ update_quota_status q ∷ read_clock ∷ (resource_usage env quota (get_quota key ∷ tr)).1)
      × (q.status.used ≡ some usage)
      × (q.status.hard ≡ current_limits env quota)
      × Says
          (if is_exceeded env usage (limits_of env quota)
            then codes "Exceeded"
            else codes "Enforced")
          q
unfolding reported counted
reconcile-reports env key quota usage tr kept found =
    let counts = (resource_usage env quota (get_quota key ∷ tr)).1 in
    let exceeded = is_exceeded env usage (limits_of env quota) in
    let (reason, message) = verdict exceeded in
    (
      reported (counted env quota usage) (env.now counts) reason message,
      reconcile-writes env key quota usage tr kept found,
      refl,
      refl,
      ground (
        arith,
        condition_for-verdict exceeded,
        status-update_condition (condition_for reason).0 (condition_for reason).1 (env.now counts)
            reason message (counted env quota usage).status.conditions,
      ),
    )

mark_window-conditions :
    (env : Cluster) (quota : Quota)
    → (mark_window env quota).status.conditions ≡ quota.status.conditions
unfolding mark_window
mark_window-conditions env quota = elim (Option-cases (active_multiplier env quota)) [
  | inl missing ↦ ground arith
  | inr (found, active) ↦ ground arith
]

-- A quota that was found to be exceeded is reported as exceeded for good: once its usage is within
-- the limits again, it is written as enforced and is still exceeded.
pub reconcile-keeps_exceeded :
    (env : Cluster) (key : Key) (quota : Quota) (usage : ResourceList) (tr : Trace)
    → IsKept env key quota tr
    → (resource_usage env quota (get_quota key ∷ tr)).0 ≡ some (ok usage)
    → is_exceeded env usage (limits_of env quota) ≡ false
    → Says (codes "Exceeded") quota
    → (q : Quota) × ((reconcile env key tr).1
        ≡ update_quota_status q ∷ read_clock ∷ (resource_usage env quota (get_quota key ∷ tr)).1)
      × Says (codes "Enforced") q
      × Says (codes "Exceeded") q
unfolding reported counted verdict condition_for text_eq
reconcile-keeps_exceeded env key quota usage tr kept found fine was =
    let time = env.now (resource_usage env quota (get_quota key ∷ tr)).1 in
    let old = (mark_window env quota).status.conditions in
    let message = codes "Quota is being enforced successfully" in
    (
      reported (counted env quota usage) time (codes "Enforced") message,
      ground (arith, reconcile-writes env key quota usage tr kept found),
      status-update_condition (codes "Enforced") holds time (codes "Enforced") message old,
      ground (
        arith,
        condition-update_condition_ne (codes "Enforced") holds time (codes "Enforced") message
            (codes "Exceeded") old refl,
        mark_window-conditions env quota,
      ),
    )
