-- ===== src/Api/Meta.antt =====
-- Kubernetes object metadata, resource lists and pods.
use korder.Prelude.{Option, List}
use korder.Prelude.Int.{ℤ}
use korder.Prelude.Text.{Text}

abbrev pub Time : Type 0
Time = ℤ

abbrev pub Labels : Type 0
Labels = List (Text × Text)

-- metav1.ObjectMeta
pub record ObjectMeta : Type 0 where
  pub name : Text
  pub namespace : Text
  pub uid : Text
  pub generation : ℤ
  pub deletion_timestamp : Option Time
  pub finalizers : List Text
  pub labels : Labels
  pub annotations : Labels
  pub owner_references : List Text

-- types.NamespacedName
pub record Key : Type 0 where
  pub namespace : Text
  pub name : Text

abbrev pub key_of : ObjectMeta → Key
key_of m = record { namespace = m.namespace; name = m.name }

-- resource.Quantity, kept as the text that it is printed as; what the program computes with
-- quantities is a parameter.
abbrev pub Quantity : Type 0
Quantity = Text

-- float64, kept in the same way.
abbrev pub Float64 : Type 0
Float64 = Text

-- corev1.ResourceList
abbrev pub ResourceList : Type 0
ResourceList = List (Text × Quantity)

-- corev1.ResourceRequirements
pub record ResourceRequirements : Type 0 where
  pub requests : Option ResourceList
  pub limits : Option ResourceList

pub data PodPhase : Type 0 where
  unset pending running succeeded failed unknown : PodPhase

-- corev1.Container
pub record Container : Type 0 where
  pub name : Text
  pub image : Text
  pub resources : ResourceRequirements

-- corev1.PodSpec
pub record PodSpec : Type 0 where
  pub restart_policy : Text
  pub containers : List Container
  pub node_name : Text
  pub node_selector : Option Labels
  pub affinity : Option Text
  pub tolerations : List Text
  pub topology_spread_constraints : List Text
  pub scheduler_name : Text
  pub priority_class_name : Text

-- corev1.Pod
pub record Pod : Type 0 where
  pub meta : ObjectMeta
  pub spec : PodSpec
  pub phase : PodPhase

-- metav1.LabelSelector; the requirements of match_expressions are only counted and passed on.
pub record LabelSelector : Type 0 where
  pub match_labels : Labels
  pub match_expressions : List Text
