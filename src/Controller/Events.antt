-- ===== src/Controller/Events.antt =====
-- What the informers of a resource do with an update of a daemon set, a deployment or a pod:
-- `informerUpdate`, `handleDaemonsetUpdate`, `handleDeploymentUpdate` and `handlePodsUpdate` of
-- controllers/csm_controller.go. An informer calls them one at a time, under the lock `dMutex`.
use csm_operator.Prelude.{
  ℕ, Bool, true, false, not, ◌&&◌, ◌||◌, Option, none, some, [], if◌then◌else◌, get_or, is_some,
  Result, ok, Err, ok_or, ◌≡◌, ◌≢◌, ◌⊎◌, inl, inr, ap, arith,
}
use csm_operator.Prelude.Text.{Text, codes, text_eq, text_eq_iff, is_empty}
use csm_operator.Prelude.Dict.{Dict, lookup}
use csm_operator.Prelude.Decimal.{format_nat}
use csm_operator.Exec.{Exec, ◌>>=◌, pure, attempt}
use csm_operator.Csm.{Csm, PodStatus, no_csm}
use csm_operator.Files.{OperatorConfig}
use csm_operator.Status.Calculate.{Outside, update_status}

-- The object of an event. The labels of a daemon set and a deployment are those of the template.
pub data Watched : Type 0 where
  daemon_set : Dict Text → Watched
  -- with the replicas, the available ones and the unavailable ones of its status
  deployment : Dict Text → ℕ → ℕ → ℕ → Watched
  -- with whether it has a deletion timestamp
  pod : Dict Text → Bool → Watched

abbrev pub labels_of : Watched → Dict Text
labels_of (daemon_set labels) = labels
labels_of (deployment labels desired available unavailable) = labels
labels_of (pod labels deleted) = labels

-- constants.CsmLabel and CsmNamespaceLabel
abbrev pub csm_label : Text
csm_label = codes "csm"

abbrev pub csm_namespace_label : Text
csm_namespace_label = codes "csmNamespace"

-- A missing label is read as an empty text.
abbrev pub label : Watched → Text → Text
label o key = get_or (lookup (labels_of o) key) []

-- The events that the handlers write: "Completed", or the warning of a pod.
pub data Event : Type 0 where
  completed warning : Event

unfoldable pub is_pod : Watched → Bool
is_pod (pod labels deleted) = true
is_pod (daemon_set labels) = false
is_pod (deployment labels desired available unavailable) = false

-- A pod that is being deleted is passed over.
unfoldable pub is_leaving : Watched → Bool
is_leaving (pod labels deleted) = deleted
is_leaving (daemon_set labels) = false
is_leaving (deployment labels desired available unavailable) = false

-- A deployment's status is taken from the event.
unfoldable pub status_override : Watched → Option PodStatus
status_override (deployment labels desired available unavailable) = some (record {
  available = format_nat available;
  desired = format_nat desired;
  failed = format_nat unavailable;
})
status_override (pod labels deleted) = none
status_override (daemon_set labels) = none

-- The event behind `UpdateStatus`; only a pod warns, where its resource's state is not "0".
unfoldable pub event_of : Watched → Csm → Option Err → Option Event
event_of o cr none = some completed
event_of o cr (some e) =
    if is_pod o
    then (if text_eq cr.status.state (codes "0") then some completed else some warning)
    else none

unfoldable pub emit :
    {W : Type 0} → (Csm → Event → Exec W (Unit {0})) → Csm → Option Event → Exec W (Unit {0})
emit record_event cr none = pure tt
emit record_event cr (some e) = record_event cr e

-- The client-go recorder `r.EventRecorder` is an argument.
module _ {W : Type 0} (out : Outside W) (op : OperatorConfig)
    (record_event : Csm → Event → Exec W (Unit {0})) where
  -- An error of the read is logged, and the empty resource is used.
  unfoldable pub refresh_status : Watched → Result Csm → Exec W (Unit {0})
  refresh_status o found =
      update_status out (ok_or no_csm found) op (status_override o) >>= λ (cr, e).
      emit record_event cr (event_of o cr e)

  -- The three handlers.
  unfoldable pub handle_update : Watched → Exec W (Unit {0})
  handle_update o =
      if is_empty (label o csm_namespace_label) || is_leaving o
      then pure tt
      else (attempt (out.api.get_csm (label o csm_namespace_label) (label o csm_label))
          >>= refresh_status o)

  -- The labels of the old object decide whether the resource is meant.
  unfoldable pub concerns : Csm → Watched → Bool
  concerns cr old =
      is_some (lookup (labels_of old) csm_label)
      && is_some (lookup (labels_of old) csm_namespace_label)
      && not (is_empty (label old csm_label))
      && not (is_empty (label old csm_namespace_label))
      && text_eq (label old csm_label) cr.name

  unfoldable pub informer_update : Csm → Watched → Watched → Exec W (Unit {0})
  informer_update cr old new = if concerns cr old then handle_update new else pure tt

is_empty_nil : {s : Text} → s ≡ [] → is_empty s ≡ true
unfolding is_empty
is_empty_nil h = ap is_empty h

module _ {W : Type 0} (out : Outside W) (op : OperatorConfig)
    (record_event : Csm → Event → Exec W (Unit {0})) where
  -- The objects of whose updates `informerUpdate` makes nothing.
  abbrev pub IsPassedOver : Csm → Watched → Watched → Type 0
  IsPassedOver cr old new =
      (label old csm_label ≢ cr.name)
      ⊎ ((label old csm_namespace_label ≡ [])
          ⊎ ((label new csm_namespace_label ≡ []) ⊎ (is_leaving new ≡ true)))

  -- An update changes nothing and is not reported where the old object's label names another resource,
  -- where the old or the new object names no namespace, or where it is a pod that is being deleted.
  pub informer_update_passes_over :
      (cr : Csm) (old new : Watched) (w : W)
      → IsPassedOver cr old new
      → informer_update out op record_event cr old new w ≡ (ok tt, w)
  unfolding informer_update concerns handle_update pure
  informer_update_passes_over cr old new w (inl h) =
      ground (arith, text_eq_iff (label old csm_label) cr.name, h)
  informer_update_passes_over cr old new w (inr (inl h)) = ground (arith, is_empty_nil h)
  informer_update_passes_over cr old new w (inr (inr (inl h))) = ground (arith, is_empty_nil h)
  informer_update_passes_over cr old new w (inr (inr (inr h))) = ground (arith, h)
