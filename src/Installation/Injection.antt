-- ===== src/Installation/Injection.antt =====
-- The part of `SyncCSM` that changes a driver's objects, by its kind and its modules, before they are
-- brought into a cluster.
use csm_operator.Prelude.{Bool, true, false, not, ◌||◌, none, some, List, [], ◌∷◌, if◌then◌else◌}
use csm_operator.Prelude.Text.{codes, text_eq}
use csm_operator.Exec.{Exec, ◌>>=◌, pure, wrapping}
use csm_operator.Csm.{
  Csm, Module, EnvVar, authorization, power_flex, power_max, replication, resiliency,
}
use csm_operator.Images.{VersionSpec}
use csm_operator.Objects.{Object}
use csm_operator.Installation.{RbacYaml, DriverConfig, Components, through}

module _ {W : Type 0} where
  unfoldable pub on_deployment : (Object → Exec W Object) → DriverConfig → Exec W DriverConfig
  on_deployment f config = through config.controller λ k. f k.deployment >>= λ d.
      pure (record config { controller = some (record k { deployment = d }) })

  unfoldable pub on_daemon_set : (Object → Exec W Object) → DriverConfig → Exec W DriverConfig
  on_daemon_set f config = through config.node λ n.
      f n.daemon_set >>= λ d. pure (record config { node = some (record n { daemon_set = d }) })

  unfoldable pub on_config_map : (Object → Exec W Object) → DriverConfig → Exec W DriverConfig
  on_config_map f config =
      through config.config_map λ o. f o >>= λ o'. pure (record config { config_map = some o' })

  unfoldable pub with_cluster_role : (Object → Exec W Object) → RbacYaml → Exec W RbacYaml
  with_cluster_role f r = f r.cluster_role >>= λ o. pure (record r { cluster_role = o })

  unfoldable pub with_role : (Object → Exec W Object) → RbacYaml → Exec W RbacYaml
  with_role f r = f r.role >>= λ o. pure (record r { role = o })

  unfoldable pub on_controller_rbac :
      (RbacYaml → Exec W RbacYaml) → DriverConfig → Exec W DriverConfig
  on_controller_rbac f config =
      through config.controller
        λ k. f k.rbac >>= λ r. pure (record config { controller = some (record k { rbac = r }) })

  unfoldable pub on_node_rbac : (RbacYaml → Exec W RbacYaml) → DriverConfig → Exec W DriverConfig
  on_node_rbac f config =
      through config.node
        λ n. f n.rbac >>= λ r. pure (record config { node = some (record n { rbac = r }) })

-- The first variable of the name decides; without it, the repository counts as enabled.
unfoldable pub sftp_disabled_in : List EnvVar → Bool
sftp_disabled_in [] = false
sftp_disabled_in (e ∷ es) =
    if text_eq e.name (codes "X_CSI_SDC_SFTP_REPO_ENABLED")
    then not (text_eq e.value (codes "true"))
    else sftp_disabled_in es

-- Without variables it counts as disabled.
unfoldable pub sftp_disabled : Csm → Bool
sftp_disabled cr = elim cr.spec.driver.node_envs [ none ↦ true | some envs ↦ sftp_disabled_in envs ]

module _ {W : Type 0} (parts : Components W) where
  unfoldable pub adapt_power_max_deployment : Csm → VersionSpec → DriverConfig → Exec W DriverConfig
  adapt_power_max_deployment cr matched config =
      if not parts.is_reverse_proxy_sidecar
      then on_deployment
          (λ d. pure (
            parts.inject.mount_power_max_content cr
              (parts.inject.add_reverse_proxy_service_name d)))
          config
      else (wrapping (codes "unable to reconcile reverse-proxy service")
            (parts.reverse_proxy_start_service false cr)
          >>= λ _.
              on_deployment
                (λ d.
                  wrapping (codes "unable to inject ReverseProxy into deployment")
                    (parts.inject.reverse_proxy_inject_deployment cr matched d))
                config)

  unfoldable pub adapt_power_max : Csm → VersionSpec → DriverConfig → Exec W DriverConfig
  adapt_power_max cr matched config =
      adapt_power_max_deployment cr matched config
      >>= on_daemon_set (λ d. pure (parts.inject.mount_power_max_content cr d))
      >>= on_config_map (λ o. pure (parts.inject.update_power_max_config_map cr o))

  unfoldable pub power_flex_daemon_set : Csm → Bool → Object → Object
  power_flex_daemon_set cr harvester d =
      let d1 =
        if parts.is_open_shift || harvester then parts.inject.remove_scaleio_volume d else d in
      if sftp_disabled cr then parts.inject.remove_sftp_keys d1 else d1

  unfoldable pub adapt_driver : Csm → VersionSpec → DriverConfig → Exec W DriverConfig
  adapt_driver cr matched config =
      (if text_eq cr.spec.driver.csi_driver_type power_max
        then adapt_power_max cr matched config
        else pure config)
      >>= λ adapted.
          wrapping (codes "failed to detect harvester cluster") parts.is_harvester >>= λ harvester.
          if text_eq cr.spec.driver.csi_driver_type power_flex
          then on_daemon_set (λ d. pure (power_flex_daemon_set cr harvester d)) adapted
          else pure adapted

  unfoldable pub inject_authorization : Csm → DriverConfig → Exec W DriverConfig
  inject_authorization cr config =
      on_deployment
        (λ d.
          wrapping (codes "injecting auth into deployment")
            (parts.inject.auth_inject_deployment cr d))
        config
      >>= on_daemon_set (λ d.
        wrapping (codes "injecting auth into deamonset") (parts.inject.auth_inject_daemonset cr d))

  unfoldable pub inject_resiliency : Csm → VersionSpec → DriverConfig → Exec W DriverConfig
  inject_resiliency cr matched config =
      on_deployment
        (λ d.
          wrapping (codes "injecting resiliency into deployment")
            (parts.inject.resiliency_inject_deployment cr matched d))
        config
      >>= on_controller_rbac (
          with_cluster_role (λ o.
            wrapping (codes "injecting resiliency into controller cluster role")
              (parts.inject.resiliency_inject_cluster_role cr (codes "controller") o)))
      >>= on_controller_rbac (
          with_role (λ o.
            wrapping (codes "injecting resiliency into controller role")
              (parts.inject.resiliency_inject_role cr (codes "controller") o)))
      >>= on_daemon_set (λ d.
        wrapping (codes "injecting resiliency into daemonset")
          (parts.inject.resiliency_inject_daemonset cr matched d))
      >>= on_node_rbac (
          with_cluster_role (λ o.
            wrapping (codes "injecting resiliency into node cluster role")
              (parts.inject.resiliency_inject_cluster_role cr (codes "node") o)))
      >>= on_node_rbac (
          with_role (λ o.
            wrapping (codes "injecting resiliency into controller role")
              (parts.inject.resiliency_inject_role cr (codes "node") o)))

  unfoldable pub inject_replication : Csm → VersionSpec → DriverConfig → Exec W DriverConfig
  inject_replication cr matched config =
      on_deployment
        (λ d.
          wrapping (codes "injecting replication into deployment")
            (parts.inject.replication_inject_deployment cr matched d))
        config
      >>= on_controller_rbac (
          with_cluster_role (λ o.
            wrapping (codes "injecting replication into controller cluster role")
              (parts.inject.replication_inject_cluster_role cr o)))

  unfoldable pub inject_module : Csm → VersionSpec → Module → DriverConfig → Exec W DriverConfig
  inject_module cr matched m config =
      if not m.enabled
      then pure config
      else if text_eq m.name authorization
      then inject_authorization cr config
      else if text_eq m.name resiliency
      then inject_resiliency cr matched config
      else if text_eq m.name replication
      then inject_replication cr matched config
      else pure config

  unfoldable pub inject_modules :
      Csm → VersionSpec → List Module → DriverConfig → Exec W DriverConfig
  inject_modules cr matched [] config = pure config
  inject_modules cr matched (m ∷ ms) config =
      inject_module cr matched m config >>= inject_modules cr matched ms
