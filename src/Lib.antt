-- ===== src/Lib.antt =====
-- The driver smb.csi.k8s.io: a Container Storage Interface plugin that makes, stages, publishes and
-- deletes volumes on an SMB share. A volume is a subdirectory of a share. The controller service mounts
-- the share on itself to make or remove the subdirectory; the node service mounts the share for pods.
-- Both take a lock on an id before they call outside, and both go through the mounter of the platform.
--
-- The files, and the code that they model:
--   Base, Strings, Numbers, Paths, Base64: bytes as natural numbers, the conditional, and what the code
--     uses of the packages strings, strconv, path/filepath and encoding/base64 of Go.
--   Errors, Action, Env: Go's results with an error, handlers as functions of a state (the lock set and
--     a world) with the early return, the deferred cleanup and the lock, and the calls outside as the
--     fields of a record over an unknown world. Action.Frees and Action.Keeps are the rules by which a
--     handler leaves the locks alone or keeps an invariant of the world; Env.Staging lists the calls of
--     mounting.
--   Constants, Maps, Options, Modes: pkg/smb/smb.go and the mode helpers of pkg/smb/nodeserver.go:
--     getMountOptions, hasGuestMountOptions, setKeyValueInMap, appendMountOptions, enableGroupRWX,
--     raiseGroupRWXInMountFlags. Modes.Group is about the mode that is written, over Numbers.Digits.
--   Locks: pkg/smb/volume_lock.go. Each method is one step, which the mutex guarantees.
--   Volume: smbVolume of pkg/smb/controllerserver.go with getVolumeIDFromSmbVol, getSmbVolFromID,
--     newSMBVolume and the internal paths.
--   Csi: the fields of the requests and responses that the driver reads and writes.
--   Controller: CreateVolume, DeleteVolume, internalMount, internalUnmount and copyVolume,
--     and in Controller.Requests the requests that call nothing outside.
--   Node: NodeStageVolume, NodeUnstageVolume, NodePublishVolume, NodeUnpublishVolume,
--     NodeGetVolumeStats and ensureMountPoint, with pkg/smb/smb_common_linux.go and
--     pkg/smb/smb_common_windows.go in Node.Platform. Node.MountPoint.Outcome is about the answer of
--     ensureMountPoint; Node.Stage.Context, Node.Stage.Handed, Node.Stage.Logged and Node.Stage.Password
--     about what NodeStageVolume reads, logs and hands to the mount command.
--   Kerberos: the credential caches of pkg/smb/nodeserver.go.
--   Identity: pkg/smb/identityserver.go.
--   CsiCommon: the capabilities of pkg/csi-common/driver.go, ParseEndpoint and getLogLevel of
--     pkg/csi-common/utils.go, and the requests of pkg/smb that read the capabilities. CsiCommon.Logging
--     is the interceptor logGRPC, and CsiCommon.Lifetime the goroutine and the wait group of
--     pkg/csi-common/server.go, as a step relation.
--   Host: what a Windows node gives: package os, path/filepath, PowerShell and the clients of csi-proxy.
--   Filesystem, SmbShare: pkg/os/filesystem/filesystem.go and pkg/os/smb/smb.go: the paths that are
--     accepted, and the SMB mappings by PowerShell. SmbShare.Semaphore is the channel of pkg/util/util.go
--     that limits the commands which run at once.
--   Mounter: getRootMappingPath of pkg/mounter/refcounter_windows.go, with the reference counts in
--     Mounter.References. Mounter.Proxy, Mounter.Beta and Mounter.HostProcess are the mounters of
--     safe_mounter_windows.go, safe_mounter_v1beta_windows.go and
--     safe_mounter_host_process_windows.go in pkg/mounter, and Mounter.Windows is what they share.
--     Mounter.Interface is the Go interface CSIProxyMounter, which the modules Methods below the three
--     mounters fill in. Mounter.Mutexes is lock of refcounter_windows.go, with the goroutines that call it.
--     Node.Mounted puts one of the mounters below the node service, as all of its mounter.Interface:
--     Node.Windows that of the host process, and Node.Unpublish that over csi-proxy v1.
--   Startup: main, exportMetrics and handle of cmd/smbplugin/main.go, NewDriver, Run, getKubeConfig
--     and inClusterConfig of pkg/smb/smb.go, pkg/smb/version.go, NewSafeMounter, and serve of
--     pkg/csi-common/server.go. The result of handle is the driver and the mounter with which the
--     server serves.
--   Tests: the theorems at concrete inputs.
--
-- A string is a list of bytes; ASCII case folding stands for that of Unicode, in which the keys are
-- written. A range over a Go map visits the entries in the order that the field visit of the
-- environment gives. Every loop is structural on a list, but that which writes the digits of a number:
-- its fuel is the number, of which each digit leaves an eighth or a tenth. Log lines, but for
-- those of logGRPC, and metrics are left out, and a message of an error is its format string.
--
-- Not modelled: the protobuf wrappers of a capability, the stubs for macOS, release-tools, which is a
-- copy of the shared tools of kubernetes-csi, and the third-party code under vendor, whose calls are
-- fields of Env, Host, Process and Outside. The handler of the metrics and what a goroutine of the
-- metrics server does to the world are calls. Handlers, mounts and PowerShell commands that run at once
-- are modelled by the steps of their locks, mutexes and semaphore alone; the calls between two such
-- steps are one step.
pub mod Base
pub mod Strings
pub mod Numbers
pub mod Paths
pub mod Errors
pub mod Constants
pub mod Maps
pub mod Action
pub mod Env
pub mod Base64
pub mod Kerberos
pub mod Node
pub mod Controller
pub mod Csi
pub mod Volume
pub mod Options
pub mod Modes
pub mod Locks
pub mod CsiCommon
pub mod Identity
pub mod Mounter
pub mod Filesystem
pub mod Host
pub mod SmbShare
pub mod Startup
pub mod Tests
