-- ===== src/Examples/Reconciles.antt =====
-- Reconciles at concrete inputs.
use csm_operator.Exec.{attempt, lift, pure, raise, ◌>>=◌}
use csm_operator.Csm.Components.{load_default_components}
use csm_operator.Prelude.{find, false, some, [], ◌∷◌, ◌≡◌, refl, ok, err, Err}
use csm_operator.Prelude.Text.{has_prefix, is_empty, codes, text_eq}
use csm_operator.Prelude.Dict.{lookup}
use csm_operator.Csm.{has_finalizer, get_module, has_module, Csm, failed_state}
use csm_operator.Watches.{no_watches, start_watch, stop_watch}
use csm_operator.Upgrade.{
  check_server, upgrade_server, switches_major, server_version, config_version_key, check_upgrade,
  annotation,
}
use csm_operator.Watches.Lifecycle.{IsSound, none_yet, next_step, started, stopped, Reach-IsSound}
use csm_operator.Status.Calculate.{set_state, handle_validation_error}
use csm_operator.Controller.Prechecks.{check_driver_type, is_driver_type, pre_checks}
use csm_operator.Controller.{Parts}
use csm_operator.Controller.Deletion.{
  remove_finalizer, remove_modules, release_driver, force_remove, clean_up, stop_after, delete_csm,
}
use csm_operator.Controller.Reconcile.{
  fill_server_version, fill_in, reconcile_csm, reconcile, on_world, checked, reject,
}
use csm_operator.Controller.Reconcile.Sound.{reconcile-IsSound}
use csm_operator.Prelude.{arith, pos, ◌*◌, ◌≤◌, ◌↔◌}
use csm_operator.Prelude.Decimal.{format_nat}
use csm_operator.Controller.Refresh.{refresh_time, minute, max_minutes, refresh_time-format_nat}
use csm_operator.Samples.{flex, server, config, parts, reconciler}

-- The watches after a start and a stop.
Reach-IsSound_example : IsSound (stop_watch (codes "flex") (start_watch (codes "flex") no_watches))
Reach-IsSound_example =
    Reach-IsSound (
      next_step (next_step none_yet (started (codes "flex") no_watches)) (stopped (codes "flex") _))

reconcile-IsSound_example :
    IsSound
      (reconcile parts false config
        (codes "ns")
        (codes "flex")
        (record reconciler { watches = start_watch (codes "flex") no_watches })).1.watches
reconcile-IsSound_example =
    reconcile-IsSound parts false config (codes "ns") (codes "flex")
      (record reconciler { watches = start_watch (codes "flex") no_watches })
      (Reach-IsSound (next_step none_yet (started (codes "flex") no_watches)))

-- A driver of a type that does not exist. The state that reaches the cluster is "Failed".
abbrev unknown : Csm
unknown = record flex {
  spec = record flex.spec {
    driver = record flex.spec.driver { csi_driver_type = codes "unknown" };
  };
}

rejected : reconcile_csm parts false config unknown reconciler ≡ (
  err (Err.message (codes "unsupported driver type")),
  record reconciler { world = set_state flex failed_state },
)
unfolding reconcile_csm fill_in load_default_components has_module fill_server_version pre_checks
    ◌>>=◌ check_driver_type is_driver_type text_eq raise lift on_world attempt checked reject
    handle_validation_error
rejected = refl

-- A server that was installed with the major version 1. None of the later checks is made: not even an
-- invalid registry is refused.
abbrev old_server : Csm
old_server = record server { annotations = some ((config_version_key, codes "v1.14.0") ∷ []) }

abbrev strict : Parts Csm
strict = record parts { validate_custom_registry = λ _. err (Err.message []) }

switch_passes : pre_checks strict config old_server flex ≡ (ok old_server, flex)
unfolding pre_checks ◌>>=◌ check_driver_type is_driver_type text_eq has_module annotation lookup
    server_version is_empty get_module switches_major has_prefix check_upgrade pure lift
    check_server upgrade_server find
switch_passes = refl

deleted : (delete_csm parts flex reconciler).0 ≡ ok tt
unfolding delete_csm stop_after clean_up ◌>>=◌ lift force_remove release_driver remove_modules pure
    remove_finalizer has_finalizer
deleted = refl

refresh_time-format_nat_example :
    (refresh_time (format_nat 90) ≡ pos (90 * minute)) ↔ (90 ≤ max_minutes)
refresh_time-format_nat_example = refresh_time-format_nat 90 (omega arith)
