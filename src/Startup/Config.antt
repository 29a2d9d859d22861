-- ===== src/Startup/Config.antt =====
-- getKubeConfig and inClusterConfig of pkg/smb/smb.go.
use csi_driver_smb_hardend.Base.{Bool, ◌||◌, [], ◌++◌, Str, codes, is_empty, if◌then◌else◌}
use csi_driver_smb_hardend.Errors.{plain, Result, ok, err}
use csi_driver_smb_hardend.Action.{Action, pure, fail, lift, call, attempt, ◌>>=◌}
use csi_driver_smb_hardend.Startup.{RestConfig, Process}

abbrev pub token_file : Str
token_file = codes "/var/run/secrets/kubernetes.io/serviceaccount/token"

abbrev pub root_ca_file : Str
root_ca_file = codes "/var/run/secrets/kubernetes.io/serviceaccount/ca.crt"

module _ (P : Process) where
  -- The directory in which the files are looked for: empty for the root.
  unfoldable pub sandbox_of : Bool → Result Str
  sandbox_of enable_windows_host_process =
      let sandbox = P.getenv (codes "CONTAINER_SANDBOX_MOUNT_POINT") in
      if enable_windows_host_process
      then if is_empty sandbox
        then err (
            plain
              "unable to load in-cluster configuration, containerSandboxMountPath must be defined")
        else ok sandbox
      else ok []

  unfoldable pub in_sandbox : Str → Str → Str
  in_sandbox sandbox file = if is_empty sandbox then file else P.join sandbox file

  -- A root certificate that cannot be read is only logged.
  unfoldable pub ca_of : Str → Result (Unit {0}) → Str
  ca_of file (ok _) = file
  ca_of file (err e) = []

  -- The configuration, once it is known where the files are.
  unfoldable pub config_in : Str → Action P.World RestConfig
  unfolding in_sandbox ca_of
  config_in sandbox =
      let host = P.getenv (codes "KUBERNETES_SERVICE_HOST") in
      let port = P.getenv (codes "KUBERNETES_SERVICE_PORT") in
      if is_empty host || is_empty port
      then fail (
          plain
            "unable to load in-cluster configuration, KUBERNETES_SERVICE_HOST and KUBERNETES_SERVICE_PORT must be defined")
      else (do
        token ← call (P.read_file (in_sandbox sandbox token_file))
        pool ← attempt (call (P.new_pool (in_sandbox sandbox root_ca_file)))
        pure (record {
          host = codes "https://" ++ P.join_host_port host port;
          ca_file = ca_of (in_sandbox sandbox root_ca_file) pool;
          bearer_token = token;
          bearer_token_file = in_sandbox sandbox token_file;
        }))

  -- `inClusterConfig`
  unfoldable pub in_cluster_config : Bool → Action P.World RestConfig
  unfolding sandbox_of config_in
  in_cluster_config enable_windows_host_process =
      lift (sandbox_of enable_windows_host_process) >>= config_in

  -- `getKubeConfig`
  unfoldable pub get_kube_config : Str → Bool → Action P.World RestConfig
  unfolding in_cluster_config
  get_kube_config kubeconfig enable_windows_host_process =
      if is_empty kubeconfig
      then in_cluster_config enable_windows_host_process
      else call (P.build_config_from_flags kubeconfig)
