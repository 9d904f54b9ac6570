-- ===== src/Drivers/Placeholders/Store/Again.antt =====
-- `ModifyPowerstoreCR` a second time.
use csm_operator.Prelude.{
  Bool, true, false, some, Option-cases, List, [], ◌∷◌, ◌≡◌, refl, if◌then◌else◌, find, ap, subst,
  ◌∙◌, Bool-cases, inl, ◌⊎◌, inr, sym,
}
use csm_operator.Prelude.Text.{Text, codes, text_eq, text_eq_refl, text_eq_iff}
use csm_operator.Csm.{Csm, EnvVar, authorization, is_module, Module}
use csm_operator.Installation.Sync.{get_driver_common_env}
use csm_operator.Drivers.Placeholders.{last_env, flag, node_envs_of}
use csm_operator.Drivers.Placeholders.Store.{
  auth_name, auth_enabled, set_auth, with_auth, power_store_node_changes,
  power_store_shared_changes, modify_powerstore_cr,
}

set_auth_idem :
    (value : Text) (envs : List EnvVar) → set_auth value (set_auth value envs) ≡ set_auth value envs
unfolding set_auth
set_auth_idem value [] = rw (text_eq_refl auth_name) refl
set_auth_idem value (e ∷ envs) = elim (Bool-cases (text_eq e.name auth_name)) [
  | inl h ↦ rw h (rw h refl)
  | inr h ↦ rw h (rw h (ap (λ r. e ∷ r) (set_auth_idem value envs)))
]

if_false : {b : Bool} → b ≡ false → (s t : Text) → (if b then s else t) ≡ t
if_false h s t = rw h refl

last_env-set_auth :
    (name value : Text) (envs : List EnvVar) (default : Text)
    → text_eq auth_name name ≡ false
    → last_env name default (set_auth value envs) ≡ last_env name default envs
unfolding last_env set_auth
last_env-set_auth name value [] default h = rw h refl
last_env-set_auth name value (e ∷ envs) default h = elim (Bool-cases (text_eq e.name auth_name)) [
  | inl k ↦
      let other =
        subst (λ n. text_eq n name ≡ false) (sym ((text_eq_iff e.name auth_name).0 k)) h in
      rw k (
        ap (λ d. last_env name d envs)
          (if_false other value default ∙ sym (if_false other e.value default)))
  | inr k ↦ rw k (last_env-set_auth name value envs _ h)
]

abbrev with_node : List EnvVar → Csm → Csm
with_node envs cr = record cr {
  spec = record cr.spec { driver = record cr.spec.driver { node_envs = some envs } };
}

node_changes-set_auth :
    (value : Text) (cr : Csm)
    → power_store_node_changes (with_node (set_auth value (node_envs_of cr)) cr)
      ≡ power_store_node_changes cr
unfolding power_store_node_changes power_store_shared_changes auth_enabled get_driver_common_env
    text_eq
node_changes-set_auth value cr =
    let kept = λ (name default : Text) (h : text_eq auth_name name ≡ false).
      last_env-set_auth name value (node_envs_of cr) default h in
    rw
      (
        kept (codes "X_CSI_POWERSTORE_ENABLE_CHAP") [] refl,
        kept (codes "X_CSI_HEALTH_MONITOR_ENABLED") [] refl,
        kept (codes "X_CSI_POWERSTORE_MAX_VOLUMES_PER_NODE") [] refl,
        kept (codes "X_CSI_VOLUME_DISCONNECT_MAX_RETRIES") (codes "5") refl,
        kept (codes "X_CSI_VOLUME_DISCONNECT_RETRY_INTERVAL") (codes "5s") refl,
        kept (codes "X_CSI_VOLUME_DISCONNECT_TIMEOUT_SECONDS") (codes "120s") refl,
      )
      refl

-- What the call leaves of the resource: the resource, or that with a variable of the node set.
with_auth_cases :
    (cr : Csm)
    → (with_auth cr ≡ cr)
      ⊎ ((m : Module) × (find (is_module authorization) cr.spec.modules ≡ some m)
          × (cr.spec.driver.has_node ≡ true)
          × (with_auth cr ≡ with_node (set_auth (flag m.enabled) (node_envs_of cr)) cr))
unfolding with_auth
with_auth_cases cr = elim (Option-cases (find (is_module authorization) cr.spec.modules)) [
  | inl h ↦ inl (rw (h, with_auth) refl)
  | inr (m, h) ↦ elim (Bool-cases cr.spec.driver.has_node) [
    | inl k ↦ inr (m, h, k, simp (h, k, with_auth))
    | inr k ↦ inl (simp (h, k, with_auth))
  ]
]

node_changes-with_auth :
    (cr : Csm) → power_store_node_changes (with_auth cr) ≡ power_store_node_changes cr
node_changes-with_auth cr = elim (with_auth_cases cr) [
  | inl p ↦ rw p refl
  | inr (m, h, k, p) ↦ rw p (node_changes-set_auth (flag m.enabled) cr)
]

with_auth-with_node :
    (cr : Csm) (m : Module) (es : List EnvVar)
    → find (is_module authorization) cr.spec.modules ≡ some m
    → cr.spec.driver.has_node ≡ true
    → with_auth (with_node es cr) ≡ with_node (set_auth (flag m.enabled) es) cr
unfolding with_auth
with_auth-with_node cr m es h k = simp (h, k, with_auth)

with_auth_idem : (cr : Csm) → with_auth (with_auth cr) ≡ with_auth cr
with_auth_idem cr = elim (with_auth_cases cr) [
  | inl p ↦ ap with_auth p
  | inr (m, h, k, p) ↦
      ap with_auth p
      ∙ with_auth-with_node cr m (set_auth (flag m.enabled) (node_envs_of cr)) h k
      ∙ ap (λ r. with_node r cr) (set_auth_idem (flag m.enabled) (node_envs_of cr))
      ∙ sym p
]

node_case :
    (yaml : Text) (cr : Csm)
    → modify_powerstore_cr yaml (modify_powerstore_cr yaml cr (codes "Node")).1 (codes "Node")
      ≡ modify_powerstore_cr yaml cr (codes "Node")
unfolding modify_powerstore_cr text_eq
node_case yaml cr = rw (node_changes-with_auth cr, with_auth_idem cr) refl

-- A second call on what the first has left of the resource gives the same text and leaves the resource
-- as it is.
pub modify_powerstore_cr_idem :
    (yaml file : Text) (cr : Csm)
    → modify_powerstore_cr yaml (modify_powerstore_cr yaml cr file).1 file
      ≡ modify_powerstore_cr yaml cr file
unfolding modify_powerstore_cr
modify_powerstore_cr_idem yaml file cr = elim (Bool-cases (text_eq file (codes "Node"))) [
  | inl e ↦
      subst
        (λ f.
          modify_powerstore_cr yaml (modify_powerstore_cr yaml cr f).1 f
          ≡ modify_powerstore_cr yaml cr f)
        (sym ((text_eq_iff file (codes "Node")).0 e)) (node_case yaml cr)
  | inr e ↦ rw e refl
]
