-- ===== src/Kube.antt =====
-- The Kubernetes objects (k8s.io/api/core/v1, k8s.io/apimachinery/pkg/apis/meta/v1), as records of
-- the fields that the operator reads or writes. They are not code of this repository.
use caffe2_operator.Prelude.{ℕ, String, Bool, Option, none, some, List}
use caffe2_operator.Prelude.Dict.{Dict, lookup}
use caffe2_operator.Prelude.Int.{ℤ}

-- A reading of the clock.
abbrev pub Time : Type 0
Time = ℕ

-- A `map[string]string`, which may be nil.
abbrev pub Labels : Type 0
Labels = Option (Dict String)

-- `v, ok := labels[key]`; a nil map has no keys
abbrev pub get_label : String → Labels → Option String
get_label key none = none
get_label key (some m) = lookup key m

pub record OwnerReference : Type 0 where
  pub api_version : String
  pub kind : String
  pub name : String
  pub uid : String
  pub controller : Option Bool
  pub block_owner_deletion : Option Bool

pub record ObjectMeta : Type 0 where
  pub name : String
  pub generate_name : String
  pub namespace : String
  pub uid : String
  pub labels : Labels
  pub annotations : Labels
  pub finalizers : List String
  pub owner_references : List OwnerReference
  pub deletion_timestamp : Option Time

pub record EnvVar : Type 0 where
  pub name : String
  pub value : String

-- A nil `Env` reads and grows as the empty one does.
pub record Container : Type 0 where
  pub name : String
  pub env : List EnvVar

pub record PodSpec : Type 0 where
  pub containers : List Container
  pub restart_policy : String
  pub node_name : String

pub record PodTemplateSpec : Type 0 where
  pub meta : ObjectMeta
  pub spec : PodSpec

pub data PodPhase : Type 0 where
  unset pending running succeeded failed unknown : PodPhase

pub record Pod : Type 0 where
  pub meta : ObjectMeta
  pub spec : PodSpec
  pub phase : PodPhase

-- The operator reads nothing but the metadata of a service.
pub record Service : Type 0 where
  pub meta : ObjectMeta

-- `metav1.GetOptions`, `ListOptions` and `DeleteOptions`.
pub record GetOptions : Type 0 where
  pub resource_version : String

pub record ListOptions : Type 0 where
  pub label_selector : String
  pub field_selector : String
  pub watch : Bool

pub record DeleteOptions : Type 0 where
  pub grace_period_seconds : Option ℤ
  pub propagation_policy : Option String

-- The zero value of `ObjectMeta`.
abbrev pub no_meta : ObjectMeta
no_meta = record {
  name = "";
  generate_name = "";
  namespace = "";
  uid = "";
  labels = none;
  annotations = none;
  finalizers = List.[];
  owner_references = List.[];
  deletion_timestamp = none;
}
