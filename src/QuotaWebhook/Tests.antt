-- ===== src/QuotaWebhook/Tests.antt =====
-- The theorems on the quota webhook at concrete inputs.
use korder.Prelude.{none, List, [], ◌∷◌}
use korder.Prelude.Text.{Text, codes}
use korder.Api.Quota.{Quota, QuotaScopeType}
use korder.Client.{Cluster, ok}
use korder.Client.Sample.{sample_server, named_meta}

abbrev quota_of : Text → QuotaScopeType → List Text → Quota
quota_of name kind namespaces = record {
  meta = named_meta name;
  spec = record {
    scope = record {
      kind = kind;
      namespace_selector = none;
      namespaces = namespaces;
      object_selector = none;
    };
    hard = none;
    time_windows = [];
    allocation = [];
  };
  status = record {
    hard = none;
    used = none;
    active_time_window = none;
    observed_generation = none;
    conditions = [];
  };
}

abbrev whole : Quota
whole = quota_of (codes "whole") QuotaScopeType.cluster []

abbrev others : List Quota
others = quota_of (codes "prod") QuotaScopeType.namespace_list (codes "prod" ∷ []) ∷ whole ∷ []

abbrev listing : Cluster
listing = record sample_server { quotas_at = λ tr. ok others }

abbrev blank : Quota
blank = quota_of (codes "blank") QuotaScopeType.namespace_list ([] ∷ [])
