-- ===== src/Lib.antt =====
-- A model of the CSM operator (github.com/dell/csm-operator): a Kubernetes operator that installs,
-- upgrades, watches and removes Dell storage drivers and modules, as a custom resource says.
--
-- A reconcile reads the resource, fills its defaults in (Csm/Components), checks it (Controller's
-- Prechecks, with those of Drivers and Modules, and Upgrade), and then either deletes the installation
-- (Deletion, Installation/Removal) or records its version, installs it (Installation, Objects),
-- computes its state and writes the status (Status), and starts informers (Watches, whose handlers are
-- in Controller/Events).
--
-- Prelude: shared types and lemmas. A `Text` is a list of code points; `Result` is a value or a Go
--   error; `Dict` is a Go map; `Decimal` prints and reads decimal numbers.
-- Csm, Csm/Modules, Csm/Components: api/v1/csm_types.go and api/v1/types.go, and the functions of
--   pkg/operatorutils/utils.go over a resource's modules (IsModuleEnabled, AddModuleComponent,
--   LoadDefaultComponents and others).
-- Version: versionParser and MinVersionCheck of pkg/operatorutils/utils.go.
-- Files: what the operator reads from its configuration directory operatorconfig, parsed.
-- Upgrade: GetVersion, IsValidUpgrade and getUpgradeInfo of pkg/operatorutils/utils.go; checkUpgrade
--   and applyConfigVersionAnnotations of controllers/csm_controller.go.
-- Exec, Cluster: calls that act on the world, and the API server's client, whose behaviour is an
--   argument: a function from a world to an answer and the next world.
-- Status/Pods, Status/Checks, Status/Calculate: pkg/operatorutils/status.go.
-- Images, with Resolve, Containers, Apply and Registry: the functions of pkg/operatorutils/utils.go that
--   set the images, the environment variables and the arguments of the containers that are installed,
--   ModifyCommonCR and ValidateCustomRegistry.
-- Objects, with Apply, Store and Sync: Kubernetes objects and the clients that carry them; ApplyObject,
--   DeleteObject and applyDeleteObjects of pkg/operatorutils/utils.go and pkg/modules/commonconfig.go,
--   and the functions of pkg/resources. Objects.IsStore states what the code relies on of the API
--   server, and Objects/Store shows a store that has it.
-- Drivers: pkg/drivers. Addresses, Arrays and Volumes: ValidateIPAddress, GetMDMFromSecret,
--   ValidateZonesInSecret and RemoveVolume of powerflex.go; Certificates: the certificate volumes of
--   powerscale.go, unity.go and powerstore.go and the settings that they share with the prechecks;
--   Prechecks: those of the six drivers; Sdc: SetSDCinitContainers of powerflex.go; Placeholders: the
--   texts that ModifyPowerScaleCR, ModifyUnityCR, ModifyPowerflexCR, ModifyPowermaxCR and
--   ModifyPowerstoreCR fill in, the last with what it changes of the resource.
-- Modules: pkg/modules. Redis: validateRedisConfig of authorization.go; Prechecks: those of the six
--   modules; Switch: the switch over them in PreChecks, and the reconciler's checks with all prechecks.
-- Installation: what SyncCSM, removeDriver and removeModule of controllers/csm_controller.go do, and in
--   Deletion the reconciler with these in place of its arguments. Driver:
--   the driver's own objects; Injection: the modules' changes of them; Modules and Metrics: the
--   objects of the modules and of the metrics; Sync: SyncCSM itself; Removal: the two removals.
-- Watches: the field ContentWatchChannels of the reconciler of controllers/csm_controller.go.
-- Controller: PreChecks and Reconcile of controllers/csm_controller.go, and the functions that they
--   call there, in Prechecks, Deletion and Reconcile; Events: the informers' handlers; Refresh: the
--   informers' interval.
-- Samples, Examples: test data, tests, and runs of the theorems at concrete inputs.
--
-- Arguments of the model: the clients, json.Marshal, the retry of client-go (its result is taken to be
-- that of a run of the function), package sigs.k8s.io/yaml on a PowerFlex secret, url.Parse of a
-- registry, and the functions of pkg/drivers and pkg/modules that build objects from files or edit
-- them (Installation.Components and Installation.Injectors). The reconciler itself (Controller.Parts)
-- takes the prechecks, the installation and the removal as arguments; Modules.Switch fills in the
-- prechecks, and Installation.Deletion the installation and the removal.
--
-- No loop needs fuel but that of `Decimal` which prints a number: it gets a round for each unit of the
-- number, and uses one for each digit. All others go over a list.
--
-- Machine integers: `strconv.Atoi` clamps to int64, `strconv.ParseInt` of a certificate count is
-- limited to 8 bits, the informers' interval wraps around at 64 bits, and the update count is kept
-- modulo 2 ^ 32. Counts of pods are natural numbers, as the API server serves them.
--
-- Not modelled: log lines, events and locks; the texts of error messages beyond their constant
-- beginning, where a failed check names its driver or module; of pkg/drivers and pkg/modules, the
-- functions that build or edit the text and the objects of a driver or module (ModifyCosiCR, GetNode,
-- GetController, the scaffolds and the injections); the semantic version of the build in core, the
-- set-up in main.go, and generated code.
mod Prelude
pub mod Csm
pub mod Version
pub mod Files
pub mod Upgrade
pub mod Exec
pub mod Cluster
pub mod Status
pub mod Images
pub mod Objects
pub mod Drivers
pub mod Modules
pub mod Installation
pub mod Watches
pub mod Controller
pub mod Samples
mod Examples
