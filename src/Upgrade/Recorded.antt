-- ===== src/Upgrade/Recorded.antt =====
-- The version that a reconcile records in the annotations, and the next upgrade check.
use csm_operator.Prelude.{
  Bool, true, false, Option, none, some, [], ◌≡◌, ◌≢◌, sym, ap, ◌∙◌, refl, arith, get_or,
  Bool-cases, inl, inr, Result, ok,
}
use csm_operator.Prelude.Text.{Text, text_eq, text_eq_iff, text_eq_refl}
use csm_operator.Prelude.Dict.{Dict, lookup, insert, lookup-insert, insert_id}
use csm_operator.Files.{OperatorConfig, driver_type}
use csm_operator.Csm.{Csm, authorization_server, has_module, get_module}
use csm_operator.Csm.Components.{folder_name}
use csm_operator.Upgrade.{
  config_version_key, csm_version_key, csm_version, get_version, annotation, check_driver,
  check_upgrade, stamp, annotate, apply_config_version_annotations, own_version, mapping_name,
}
use csm_operator.Upgrade.Paths.{is_valid_upgrade_refl}

-- The annotations do not enter the version.
get_version-annotations :
    (cr : Csm) (m : Option (Dict Text)) (op : OperatorConfig)
    → get_version (record cr { annotations = m }) op ≡ get_version cr op
unfolding get_version own_version mapping_name has_module get_module
get_version-annotations cr m op = refl

lookup_nil : (k : Text) → lookup {V = Text} [] k ≡ none
unfolding lookup
lookup_nil k = refl

keys_differ : text_eq config_version_key csm_version_key ≡ false
unfolding text_eq
keys_differ = refl

keys_differ_back : text_eq csm_version_key config_version_key ≡ false
unfolding text_eq
keys_differ_back = refl

-- The annotations after a reconcile.
abbrev written : Dict Text → Text → Dict Text
written m v = insert (insert m csm_version_key csm_version) config_version_key v

-- What the annotations hold once a version has been recorded.
record IsRecorded (cr : Csm) (v : Text) : Type 0 where
  entries : Dict Text
  present : cr.annotations ≡ some entries
  version_there : lookup entries config_version_key ≡ some v
  stamp_there : lookup entries csm_version_key ≡ some csm_version

written-config : (m : Dict Text) (v : Text) → lookup (written m v) config_version_key ≡ some v
written-config m v = simp (lookup-insert, text_eq_refl)

written-stamp : (m : Dict Text) (v : Text) → lookup (written m v) csm_version_key ≡ some csm_version
written-stamp m v =
    rw (lookup-insert, keys_differ, lookup-insert) (rw (text_eq_refl csm_version_key))

stamped-config :
    (m : Dict Text)
    → lookup (insert m csm_version_key csm_version) config_version_key ≡ lookup m config_version_key
stamped-config m = rw (lookup-insert, keys_differ_back)

nonempty_some : (o : Option Text) (v : Text) → v ≢ [] → text_eq (get_or o []) v ≡ true → o ≡ some v
nonempty_some none v n h = absurd (n (sym ((text_eq_iff [] v).0 h)))
nonempty_some (some w) v n h = ap some ((text_eq_iff w v).0 h)

-- Where the version is there already, only the stamp is written.
stamped :
    (cr : Csm) (o : Option (Dict Text)) (v : Text)
    → v ≢ []
    → text_eq
        (get_or (lookup (insert (get_or o []) csm_version_key csm_version) config_version_key) [])
        v
      ≡ true
    → IsRecorded (stamp (record cr { annotations = o })) v
unfolding stamp
stamped cr none v n h =
    absurd
      (n (sym ((text_eq_iff [] v).0 (rw (stamped-config [], lookup_nil config_version_key) at h))))
stamped cr (some m) v n h = record {
  entries = insert m csm_version_key csm_version;
  present = refl;
  version_there = nonempty_some _ v n h;
  stamp_there = rw (lookup-insert, text_eq_refl csm_version_key);
}

-- The annotations that the function works with.
abbrev working : Csm → Dict Text
working cr = insert (get_or cr.annotations []) csm_version_key csm_version

abbrev is_there : Csm → Text → Bool
is_there cr v = text_eq (get_or (lookup (working cr) config_version_key) []) v

annotate_there :
    (cr : Csm) (v : Text)
    → is_there cr v ≡ true
    → annotate cr (working cr) (ok v) ≡ (stamp cr, false)
unfolding annotate
annotate_there cr v h = rw h

annotate_new :
    (cr : Csm) (v : Text)
    → is_there cr v ≡ false
    → annotate cr (working cr) (ok v)
      ≡ (record cr { annotations = some (written (get_or cr.annotations []) v) }, true)
unfolding annotate
annotate_new cr v h = rw h

annotate-IsRecorded :
    (cr : Csm) (v : Text) → v ≢ [] → IsRecorded (annotate cr (working cr) (ok v)).0 v
annotate-IsRecorded cr v n = elim (Bool-cases (is_there cr v)) [
  | inl same ↦ rw (annotate_there cr v same) (stamped cr cr.annotations v n same)
  | inr other ↦ rw (annotate_new cr v other) (record {
    entries = written (get_or cr.annotations []) v;
    present = refl;
    version_there = written-config _ v;
    stamp_there = written-stamp _ v;
  })
]

-- Nothing but the annotations is written.
annotate_frame :
    (cr : Csm) (m : Dict Text) (r : Result Text)
    → (annotate cr m r).0 ≡ record cr { annotations = (annotate cr m r).0.annotations }
unfolding annotate stamp
annotate_frame cr m r = ground arith

get_version-annotate :
    (cr : Csm) (m : Dict Text) (r : Result Text) (op : OperatorConfig)
    → get_version (annotate cr m r).0 op ≡ get_version cr op
get_version-annotate cr m r op =
    ap (λ (c : Csm). get_version c op) (annotate_frame cr m r)
    ∙ get_version-annotations cr (annotate cr m r).0.annotations op

recorded :
    (cr : Csm) (op : OperatorConfig) (v : Text)
    → get_version cr op ≡ ok v
    → v ≢ []
    → IsRecorded (apply_config_version_annotations cr op).0 v
unfolding apply_config_version_annotations
recorded cr op v g n = rw g (annotate-IsRecorded cr v n)

annotate_id :
    (cr : Csm) (m : Dict Text) (v : Text)
    → cr.annotations ≡ some m
    → lookup m config_version_key ≡ some v
    → lookup m csm_version_key ≡ some csm_version
    → annotate cr (working cr) (ok v) ≡ (cr, false)
unfolding annotate stamp
annotate_id cr m v p c s = ground (arith, insert_id m csm_version_key csm_version s, text_eq_refl v)

-- Where the version of the resource is known and not empty, a second call of
-- `applyConfigVersionAnnotations` changes nothing and asks for no update of the resource.
pub apply_twice :
    (cr : Csm) (op : OperatorConfig) (v : Text)
    → get_version cr op ≡ ok v
    → v ≢ []
    → let cr' = (apply_config_version_annotations cr op).0 in
      apply_config_version_annotations cr' op ≡ (cr', false)
unfolding apply_config_version_annotations
apply_twice cr op v g n =
    let r = annotate-IsRecorded cr v n in
    rw (get_version-annotate cr (working cr) (get_version cr op) op, g)
      (annotate_id _ r.entries v r.present r.version_there r.stamp_there)

has_module-annotate :
    (cr : Csm) (m : Dict Text) (r : Result Text)
    → has_module (annotate cr m r).0 authorization_server ≡ has_module cr authorization_server
unfolding has_module
has_module-annotate cr m r =
    ap (λ (c : Csm). has_module c authorization_server) (annotate_frame cr m r)

check_recorded :
    (cr : Csm) (op : OperatorConfig) (v : Text)
    → get_version cr op ≡ ok v
    → IsRecorded cr v
    → has_module cr authorization_server ≡ false
    → check_upgrade cr op ≡ ok true
unfolding check_upgrade check_driver annotation
check_recorded cr op v g r d =
    ground
      (arith, is_valid_upgrade_refl v (driver_type (folder_name cr.spec.driver.csi_driver_type)) op)

-- Where the version of a resource without an authorization server is known and not empty, the
-- upgrade check that follows the recording of the version passes: no upgrade path from a version
-- to itself is asked for.
pub check_upgrade-apply :
    (cr : Csm) (op : OperatorConfig) (v : Text)
    → get_version cr op ≡ ok v
    → v ≢ []
    → has_module cr authorization_server ≡ false
    → check_upgrade (apply_config_version_annotations cr op).0 op ≡ ok true
unfolding apply_config_version_annotations
check_upgrade-apply cr op v g n d =
    check_recorded _ op v (get_version-annotate cr (working cr) (get_version cr op) op ∙ g)
      (recorded cr op v g n) (has_module-annotate cr (working cr) (get_version cr op) ∙ d)
