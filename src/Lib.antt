-- ===== src/Lib.antt =====
-- Models of aktualizr-lite, the over-the-air update client of a device: it looks for a TUF target,
-- downloads its OSTree commit and its apps, installs them, and rolls back when that fails.
--
-- The parts, and the files that model them:
--
-- - Prelude: the names that all files share. `ℤ` is the C++ `int`, without its range; `stoi` is
--   `std::stoi` with base 0.
-- - Results: the status types of include/aktualizr-lite/api.h and aklite_client_ext.h, with their
--   `operator bool`. Results/Usage: the usage of a volume (src/storage/stat.cc), with its bounds in
--   UsageLaws.
-- - Target: `TufTarget` and `Uptane::Target`, and the conversions of src/target.cc.
-- - Cli: src/cli/cli.cc. Codes has the status codes and their tables, Client the operations of the
--   client that the commands call, Commands the commands. ExitCodes and Gates prove things of them.
-- - Api: src/api.cc. Select is `SelectTarget` and `filterTargets`, Lite the operations of `LiteClient`
--   that the rest calls, Context what a `LiteInstall` or a `LocalLiteInstall` downloads and installs,
--   Installer the client object and the operations that make a context or complete an installation.
--   Bundle has the checks of an offline bundle's metadata, Available the targets whose content a bundle
--   has, CheckIn the three check-ins. SelectLaws, CheckInLaws, BundleLaws and LocalLaws prove
--   things of them.
-- - ClientExt: src/aklite_client_ext.cc. TargetToInstall is `GetTargetToInstall`, PullAndInstall is
--   `PullAndInstall`, `Rollback` and `RebootIfRequired`. Selection and Outcome prove things of them.
-- - Apps: src/composeappmanager.cc. Engine has the app engine's interface (src/appengine.h), the
--   configuration and the maps of apps; Choice says which apps are run, updated, fetched and kept;
--   Manager has `Download`, `verifyTarget` and the parts of `install`, Install has `install` and
--   `finalizeInstall`. ChoiceLaws, ManagerLaws, InstallLaws, CleanUp and Finalize prove things of them.
-- - Updates: src/liteclient.cc and src/helpers.cc. Log is what is read from the installation log, Steps
--   has `downloadImage`, `install` and `finalizeInstall`, Reports the reports on a download and an
--   installation. LogLaws, StepsLaws, Marking and ReportLaws prove things of them.
-- - Bootloader: src/bootloader/. Env has the variables of the bootloader, Version the versions of the
--   firmware, Notify `installNotify`; Status is the interface `BootFwUpdateStatus`, which Implements
--   gives for `BootloaderLite`. VersionLaws and NotifyLaws prove things of them.
-- - Rootfs: src/rootfstreemanager.cc. Host has what it uses, Deltas the stats of deltas, Download and
--   Install the functions of these names. DeltaLaws, DownloadLaws, InstallLaws and RollbackLaws prove
--   things of them, the last with the bootloader's implementation.
-- - Docker: src/docker/restorableappengine.cc and src/docker/docker.cc. Uri has the URIs and digests of
--   images and apps, Sizes the size of an update of an app and Room the checks that the stores have room
--   for it; Fetched is the check that an app is fetched, Containers that it is installed and runs; Pull
--   has `pullApp`, UpdateSize `checkAppUpdateSize`, and Install `fetch`, `install`, `run`, `stop` and
--   `remove`, whose other steps are parameters. Stream has the file that a download writes, Auth the
--   challenges of a registry and Blob the rest of its client. ComposeApps and ComposeRuns are
--   src/docker/composeappengine.cc, the engine that keeps a file of an app's state: the first has the
--   state, fetch and installation, the second what runs. UriLaws, SizeLaws, RoomLaws, FetchedLaws,
--   RunningLaws, FileLaws, Kept, StreamLaws, AuthLaws, BlobLaws and ComposeLaws prove things of them, the
--   first with Find and NameLaws, and FetchedLaws with Stored. Prune is `prune` of the restorable engine; Spared says
--   what an app needs of the store, and ListLaws, KeepLaws, PruneLaws and StoreLaws follow the pruning.
-- - Composectl: src/composeapp/appengine.cc, the engine that runs the tool composectl and remembers what
--   it has fetched. Engine has fetch, removal and the checks, Prune the removal of unlisted apps, Status
--   the state of an app's containers. Cache proves things of what is remembered, and Reach of all that
--   sequences of operations lead to.
-- - Daemon: src/daemon.cc. Loop has `run_daemon`, with fuel for the cycles of its loop, which may go on
--   forever; LoopLaws is about what a cycle installs and a daemon that returns where it would sleep.
-- - Main: src/main.cc, the commands by their names; its child Success is about when the program succeeds.
-- - Tests: a simulated device, and the theorems applied to it.
--
-- A function that changes the client takes its state and returns the new one beside its result.
-- What the code gets from libaktualizr, from OSTree, from the app engine and from the file system
-- is a parameter: a field of the records `Client`, `Lite`, `CheckInEnv`, `Content`, `Engine`,
-- `Platform`, `Firmware`, `Host`, `Program`, `AppFiles`, `Containers`, `ImageStores`, `Registry`,
-- `Sizing`, `Tools`, `Web`, `Downloads`, `ComposeHost`, `Ctl`, `Pruner`, `AppStore` and
-- `Reporter`, or the sort of `filterTargets`. So are the operations of one part that another part
-- calls: `Client` stands for the client to the commands, `Lite` for `LiteClient` to the API, and
-- `Engine` and `Platform` for the parts below theirs. Where a theorem relies on what such an
-- operation does, a record says so: `LeavesAlone`, `Sorts`, `Keeps`, `Marks`,
-- `Delivers`, `Closes`, `Holds`, `KeepsWhole`, `Spares`. An exception is a value (`Made`, `Outcome`, `none`)
-- where the code catches or declares one.
--
-- Logs are left out. A JSON document is modelled by the members that the code reads. The loops run
-- over lists, so no fuel is needed, but for those of the daemon, of a download, which counts its
-- attempts, and of the parser of a challenge: each of its steps takes at least one character of
-- the text, and its fuel is one more than the characters.
--
-- Not modelled: the calls of docker and skopeo, and the package manager of Apps, which is a
-- parameter there; the OSTree repository and sysroot, the HTTP sources of TUF metadata and the
-- execution of processes, which are calls of other programs; the parser of the command line.
pub mod Prelude
pub mod Results
pub mod Target
pub mod Cli
pub mod Api
pub mod ClientExt
pub mod Apps
pub mod Updates
pub mod Bootloader
pub mod Rootfs
pub mod Daemon
pub mod Main
pub mod Docker
pub mod Composectl
pub mod Tests
