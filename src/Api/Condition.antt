-- ===== src/Api/Condition.antt =====
-- The conditions of a status, and the update that the three controllers make of them.
use korder.Prelude.{◌≡◌, Bool, true, false, Option, none, some, List, [], ◌∷◌, arith, if◌then◌else◌}
use korder.Prelude.Text.{Text, text_eq, text_eq_iff, text_eq_refl}
use korder.Api.Meta.{Time}

pub data ConditionStatus : Type 0 where
  holds fails unknown : ConditionStatus

pub record Condition : Type 0 where
  pub kind : Text
  pub status : ConditionStatus
  pub last_transition_time : Option Time
  pub reason : Option Text
  pub message : Option Text

abbrev pub same_status : ConditionStatus → ConditionStatus → Bool
same_status holds holds = true
same_status fails fails = true
same_status unknown unknown = true
same_status _ _ = false

pub new_condition : Text → ConditionStatus → Time → Text → Text → Condition
new_condition kind status now reason message = record {
  kind = kind;
  status = status;
  last_transition_time = some now;
  reason = some reason;
  message = some message;
}

-- The first condition of the kind is written only where its status changes; where there is none, it
-- is appended.
pub update_condition : Text → ConditionStatus → Time → Text → Text → List Condition → List Condition
unfolding new_condition
update_condition kind status now reason message [] =
    new_condition kind status now reason message ∷ []
update_condition kind status now reason message (c ∷ cs) =
    let rest = update_condition kind status now reason message cs in
    if text_eq c.kind kind
    then (if same_status c.status status then c else (record c {
      status = status;
      last_transition_time = some now;
      reason = some reason;
      message = some message;
    }))
      ∷ cs
    else c ∷ rest

-- The first condition of a kind.
unfoldable pub condition : Text → List Condition → Option Condition
condition kind [] = none
condition kind (c ∷ cs) = if text_eq c.kind kind then some c else condition kind cs

abbrev pub status_of : Option Condition → Option ConditionStatus
status_of none = none
status_of (some c) = some c.status

module _ (kind : Text) (status : ConditionStatus) (now : Time) (reason message : Text) where
  -- After an update the kind has the status.
  pub status-update_condition :
      (cs : List Condition)
      → status_of (condition kind (update_condition kind status now reason message cs))
        ≡ some status
  unfolding condition update_condition
  status-update_condition [] = ground (arith, text_eq_refl kind)
  status-update_condition (c ∷ cs) = ground (arith, status-update_condition cs)

  -- An update leaves the conditions of other kinds alone.
  pub condition-update_condition_ne :
      (other : Text) (cs : List Condition)
      → text_eq kind other ≡ false
      → condition other (update_condition kind status now reason message cs) ≡ condition other cs
  unfolding condition update_condition
  condition-update_condition_ne other [] h = ground arith
  condition-update_condition_ne other (c ∷ cs) h =
      ground (arith, condition-update_condition_ne other cs h, text_eq_iff c.kind kind)

  -- Where the kind has the status already, nothing is written: the transition time stays.
  pub update_condition_idem :
      (cs : List Condition)
      → status_of (condition kind cs) ≡ some status
      → update_condition kind status now reason message cs ≡ cs
  unfolding condition update_condition
  update_condition_idem [] h = cc
  update_condition_idem (c ∷ cs) h = ground (arith, update_condition_idem cs)
