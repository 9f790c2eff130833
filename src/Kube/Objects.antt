-- ===== src/Kube/Objects.antt =====
-- The Kubernetes objects, with the fields that the program reads or writes (`k8s.io/api/core/v1` and
-- `k8s.io/apimachinery/pkg/apis/meta/v1`, as used in pkg/controller and pkg/utils/controller).
use frp_provisioner.Prelude.{String, Bool, List, Option}
use frp_provisioner.Go.{StringMap}

pub record ObjectKey : Type 0 where
  pub namespace : String
  pub name : String

pub record OwnerReference : Type 0 where
  pub kind : String
  pub name : String
  pub uid : String
  pub controller : Option Bool

-- A nil map of labels differs from an empty one, since a write to it panics. Annotations are only
-- read, where the two agree. A time is kept as it is printed.
pub record ObjectMeta : Type 0 where
  pub name : String
  pub namespace : String
  pub uid : String
  pub labels : Option StringMap
  pub annotations : StringMap
  pub finalizers : List String
  pub owner_references : List OwnerReference
  pub deletion_timestamp : Option String

pub record Pod : Type 0 where
  pub metadata : ObjectMeta
  pub open metadata use *
  pub containers : List String
  pub phase : String

pub record Service : Type 0 where
  pub metadata : ObjectMeta
  pub open metadata use *
  pub service_type : String

-- `v1.PodSucceeded`, `v1.PodFailed`, `v1.ServiceTypeLoadBalancer`
abbrev pub pod_succeeded : String
pod_succeeded = "Succeeded"

abbrev pub pod_failed : String
pod_failed = "Failed"

abbrev pub service_type_load_balancer : String
service_type_load_balancer = "LoadBalancer"

abbrev pub with_owner_references : Pod → List OwnerReference → Pod
with_owner_references p refs = record p { metadata = record p.metadata { owner_references = refs } }

abbrev pub with_finalizers : Service → List String → Service
with_finalizers s finalizers = record s { metadata = record s.metadata { finalizers = finalizers } }

-- `v1.SecretReference`, and the data of a secret as the program reads it
pub record SecretReference : Type 0 where
  pub name : String
  pub namespace : String

-- `metav1.Condition`; its type is `kind` here.
pub record Condition : Type 0 where
  pub kind : String
  pub status : String
  pub reason : String
  pub last_transition_time : String
  pub message : String

-- `metav1.ConditionTrue`
abbrev pub condition_true : String
condition_true = "True"
