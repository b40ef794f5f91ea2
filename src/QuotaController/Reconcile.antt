-- ===== src/QuotaController/Reconcile.antt =====
-- internal/controller/quota_controller.go: updateQuotaStatus, handleDeletion and Reconcile.
use korder.Prelude.{not, none, some, [], ◌++◌, if◌then◌else◌, get_or}
use korder.Prelude.Int.{pos}
use korder.Prelude.Text.{Text, codes, text_eq}
use korder.Api.Meta.{Key, Time, ResourceList}
use korder.Api.Condition.{ConditionStatus, holds, fails, update_condition}
use korder.Api.Quota.{Quota}
use korder.Client.{
  Cluster, error_text, is_not_found, ok, err, M, ◌>>=◌, find_quota, now, write, update_quota,
  update_quota_status, done, again, after, Return, return_ok, return_err,
}
use korder.QuotaController.Count.{resource_usage}
use korder.QuotaController.Limits.{current_limits, mark_window}
use korder.Usage.{is_exceeded}

-- The type of the condition that a reason is reported under, with its status.
unfoldable pub condition_for : Text → Text × ConditionStatus
condition_for reason =
    if text_eq reason (codes "Failed")
    then (codes "Ready", fails)
    else if text_eq reason (codes "Exceeded")
    then (codes "Exceeded", holds)
    else (codes "Enforced", holds)

-- The quota that updateQuotaStatus writes.
unfoldable pub reported : Quota → Time → Text → Text → Quota
unfolding condition_for
reported quota time reason message =
    let (kind, status) = condition_for reason in
    record quota {
      status = record quota.status {
        observed_generation = some quota.meta.generation;
        conditions = update_condition kind status time reason message quota.status.conditions;
      };
    }

-- updateQuotaStatus
unfoldable pub update_status : Cluster → Quota → Text → Text → M Return
unfolding reported
update_status env quota reason message = do
  time ← now env
  failure ← write env (update_quota_status (reported quota time reason message))
  elim failure [ some e ↦ return_err done e | none ↦ return_ok (after (pos 300000000000)) ]

-- handleDeletion
unfoldable pub handle_deletion : Cluster → Quota → M Return
handle_deletion env quota = do
  failure ← write env (
      update_quota (record quota {
        meta = env.remove_finalizer quota.meta (codes "korder.dev/quota-finalizer");
      }))
  elim failure [ some e ↦ return_err done e | none ↦ return_ok done ]

-- The quota with its limits and its usage.
unfoldable pub counted : Cluster → Quota → ResourceList → Quota
unfolding mark_window
counted env quota usage =
    let marked = mark_window env quota in
    record marked {
      status = record marked.status { hard = current_limits env quota; used = some usage };
    }

-- The part of Reconcile for a quota that has its finalizer.
unfoldable pub enforce : Cluster → Quota → M Return
unfolding update_status counted
enforce env quota = do
  found ← resource_usage env quota
  elim found [
    | err e ↦
        update_status env quota (codes "Failed")
          (codes "Failed to calculate usage: " ++ error_text e)
    | ok usage ↦
        if is_exceeded env usage (get_or (current_limits env quota) [])
        then update_status env (counted env quota usage) (codes "Exceeded")
            (codes "Resource quota limits exceeded")
        else update_status env (counted env quota usage) (codes "Enforced")
            (codes "Quota is being enforced successfully")
  ]

-- Reconcile
unfoldable pub reconcile : Cluster → Key → M Return
unfolding handle_deletion enforce
reconcile env key = find_quota env key >>= λ found. elim found [
  | err e ↦ if is_not_found e then return_ok done else return_err done e
  | ok quota ↦ elim quota.meta.deletion_timestamp [
    | some at ↦ handle_deletion env quota
    | none ↦
        if not (env.contains_finalizer quota.meta (codes "korder.dev/quota-finalizer"))
        then (write env (
              update_quota (record quota {
                meta = env.add_finalizer quota.meta (codes "korder.dev/quota-finalizer");
              }))
            >>= λ failure. elim failure [ some e ↦ return_err done e | none ↦ return_ok again ])
        else enforce env quota
  ]
]
