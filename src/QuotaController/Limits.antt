-- ===== src/QuotaController/Limits.antt =====
-- internal/controller/quota_controller.go: calculateCurrentLimits and getActiveTimeWindow.
use korder.Prelude.{Option, none, some, List, [], ◌∷◌, if◌then◌else◌}
use korder.Prelude.Int.{pos, ltb_ℤ}
use korder.Api.Meta.{Float64, ResourceList}
use korder.Api.Quota.{Quota, TimeWindow}
use korder.Client.{Cluster, ok, err}

-- getActiveTimeWindow, which takes the first window at any time.
unfoldable pub active_time_window : List TimeWindow → Option TimeWindow
active_time_window [] = none
active_time_window (w ∷ ws) = some w

-- The active window with its multiplier, where that is a number above zero.
unfoldable pub active_multiplier : Cluster → Quota → Option (TimeWindow × Float64)
unfolding active_time_window
active_multiplier env quota = elim (active_time_window quota.spec.time_windows) [
  | none ↦ none
  | some w ↦ elim (env.parse_float w.multiplier) [
    | err e ↦ none
    | ok multiplier ↦ if env.above_zero multiplier then some (w, multiplier) else none
  ]
]

unfoldable pub multiply_limits : Cluster → Float64 → ResourceList → ResourceList
multiply_limits env multiplier [] = []
multiply_limits env multiplier ((name, q) ∷ limits) =
    (
      name,
      (if ltb_ℤ (pos 0) (env.value q)
          then env.with_format q (env.times_float (env.value q) multiplier)
          else q),
    )
    ∷ multiply_limits env multiplier limits

-- The limits that calculateCurrentLimits returns.
unfoldable pub current_limits : Cluster → Quota → Option ResourceList
unfolding active_multiplier multiply_limits
current_limits env quota = elim quota.spec.hard [
  | none ↦ none
  | some hard ↦ elim (active_multiplier env quota) [
    | none ↦ some hard
    | some (w, multiplier) ↦ some (multiply_limits env multiplier hard)
  ]
]

-- What calculateCurrentLimits writes into the status of the quota.
unfoldable pub mark_window : Cluster → Quota → Quota
unfolding active_multiplier
mark_window env quota = elim (active_multiplier env quota) [
  | none ↦ quota
  | some (w, multiplier) ↦ record quota {
    status = record quota.status { active_time_window = some w.name };
  }
]
