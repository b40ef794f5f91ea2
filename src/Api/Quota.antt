-- ===== src/Api/Quota.antt =====
-- api/v1alpha1/quota_types.go
use korder.Prelude.{Option, List}
use korder.Prelude.Int.{ℤ}
use korder.Prelude.Text.{Text}
use korder.Api.Meta.{ObjectMeta, ResourceList, LabelSelector}
use korder.Api.Condition.{Condition}

pub data QuotaScopeType : Type 0 where
  unset cluster namespace_selector namespace_list object_selector : QuotaScopeType
  other : Text → QuotaScopeType

pub record QuotaScope : Type 0 where
  pub kind : QuotaScopeType
  pub namespace_selector : Option LabelSelector
  pub namespaces : List Text
  pub object_selector : Option LabelSelector

pub record TimeWindow : Type 0 where
  pub name : Text
  pub schedule : Text
  pub multiplier : Text

pub record QuotaAllocation : Type 0 where
  pub namespace : Text
  pub limits : ResourceList

pub record QuotaSpec : Type 0 where
  pub scope : QuotaScope
  pub hard : Option ResourceList
  pub time_windows : List TimeWindow
  pub allocation : List QuotaAllocation

pub record QuotaStatus : Type 0 where
  pub hard : Option ResourceList
  pub used : Option ResourceList
  pub active_time_window : Option Text
  pub observed_generation : Option ℤ
  pub conditions : List Condition

pub record Quota : Type 0 where
  pub meta : ObjectMeta
  pub spec : QuotaSpec
  pub status : QuotaStatus
