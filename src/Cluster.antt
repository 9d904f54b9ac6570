-- ===== src/Cluster.antt =====
-- The objects that the modelled code reads in a cluster, and the API server's client
-- (controller-runtime's `client.Client`), which is not part of the repository: an argument of the
-- code that uses it. Counts are not negative in what the API server serves.
use csm_operator.Prelude.{ℕ, Option, List}
use csm_operator.Prelude.Text.{Text}
use csm_operator.Csm.{Csm}
use csm_operator.Exec.{Exec}

pub record OwnerReference : Type 0 where
  pub name : Text
  pub uid : Text

-- appsv1.Deployment. The API server fills `spec.replicas` in, so it is no pointer here; a nil slice
-- of owner references is `none`.
pub record Deployment : Type 0 where
  pub name : Text
  pub namespace : Text
  pub owner_references : Option (List OwnerReference)
  pub spec_replicas : ℕ
  pub replicas : ℕ
  pub available_replicas : ℕ
  pub ready_replicas : ℕ
  pub unavailable_replicas : ℕ

-- appsv1.DaemonSet
pub record DaemonSet : Type 0 where
  pub name : Text
  pub namespace : Text
  pub desired_number_scheduled : ℕ

-- ContainerStateWaiting
pub record Waiting : Type 0 where
  pub reason : Text
  pub message : Text

pub record PodCondition : Type 0 where
  pub type : Text
  pub status : Text

-- corev1.Pod; a container that does not wait is `none`
pub record Pod : Type 0 where
  pub name : Text
  pub phase : Text
  pub container_statuses : List (Option Waiting)
  pub conditions : List PodCondition

-- The calls of the client, at the types that the modelled code asks for. A name is a namespace and a
-- name in it. `Update` answers with the object as the server holds it then.
pub record Client (W : Type 0) : Type 0 where
  pub get_csm : Text → Text → Exec W Csm
  pub update_csm : Csm → Exec W Csm
  pub update_csm_status : Csm → Exec W Csm
  pub get_deployment : Text → Text → Exec W Deployment
  pub update_deployment : Deployment → Exec W (Unit {0})
  pub get_daemon_set : Text → Text → Exec W DaemonSet
  pub list_deployments : Text → Exec W (List Deployment)
  -- the pods of a namespace whose label "app" has a value
  pub list_pods : Text → Text → Exec W (List Pod)
