-- ===== src/Config/Key.antt =====
-- config/viper.go: the keys of the configuration.
use konk.Base.{String}

abbrev pub ViperKey : Type 0
ViperKey = String

abbrev pub nymph_host : ViperKey
nymph_host = "nymph.host"

abbrev pub nymph_port : ViperKey
nymph_port = "nymph.port"

abbrev pub nymph_root_dir : ViperKey
nymph_root_dir = "nymph.root_dir"

abbrev pub nymph_cni_path : ViperKey
nymph_cni_path = "nymph.cni_path"

abbrev pub nymph_networks : ViperKey
nymph_networks = "nymph.networks"

abbrev pub coordinator_host : ViperKey
coordinator_host = "coordinator.host"

abbrev pub coordinator_port : ViperKey
coordinator_port = "coordinator.port"

abbrev pub container_rank : ViperKey
container_rank = "container.rank"

abbrev pub container_rank_env : ViperKey
container_rank_env = "container.rank_env"

abbrev pub container_image : ViperKey
container_image = "container.image"

abbrev pub container_root_dir : ViperKey
container_root_dir = "container.root_dir"

abbrev pub container_base_name : ViperKey
container_base_name = "container.base_name"

abbrev pub container_username : ViperKey
container_username = "container.user"

abbrev pub container_hostname : ViperKey
container_hostname = "container.hostname"

abbrev pub container_init : ViperKey
container_init = "container.init"

abbrev pub container_device_path : ViperKey
container_device_path = "container.device.path"

abbrev pub konk_sys_launcher : ViperKey
konk_sys_launcher = "konk-sys.launcher"

abbrev pub konk_sys_init : ViperKey
konk_sys_init = "konk-sys.init"

abbrev pub mpirun_numproc : ViperKey
mpirun_numproc = "mpirun.numproc"

abbrev pub mpirun_hosts : ViperKey
mpirun_hosts = "mpirun.hosts"

abbrev pub mpirun_binpath : ViperKey
mpirun_binpath = "mpirun.binpath"

abbrev pub mpirun_params : ViperKey
mpirun_params = "mpirun.params"

abbrev pub mpirun_tmp_dir : ViperKey
mpirun_tmp_dir = "mpirun.tmp_dir"

abbrev pub mpirun_name_numproc : ViperKey
mpirun_name_numproc = "mpirun.name.numproc"

abbrev pub mpirun_name_hosts : ViperKey
mpirun_name_hosts = "mpirun.name.hosts"

abbrev pub ovs_bridge_name : ViperKey
ovs_bridge_name = "ovs.bridge.name"

abbrev pub ovs_peers : ViperKey
ovs_peers = "ovs.peers"

abbrev pub veth_bridge_name : ViperKey
veth_bridge_name = "veth.bridge.name"

abbrev pub veth_vxlan_name : ViperKey
veth_vxlan_name = "veth.vxlan.name"

abbrev pub veth_vxlan_id : ViperKey
veth_vxlan_id = "veth.vxlan.id"

abbrev pub veth_vxlan_port : ViperKey
veth_vxlan_port = "veth.vxlan.port"

abbrev pub veth_vxlan_dev : ViperKey
veth_vxlan_dev = "veth.vxlan.dev"

abbrev pub veth_vxlan_group : ViperKey
veth_vxlan_group = "veth.vxlan.group"

abbrev pub rxe_qpnpn : ViperKey
rxe_qpnpn = "rxe.qpnpn"

abbrev pub rxe_minqpn : ViperKey
rxe_minqpn = "rxe.minqpn"

abbrev pub rxe_mrnpn : ViperKey
rxe_mrnpn = "rxe.mrnpn"

abbrev pub rxe_minmrn : ViperKey
rxe_minmrn = "rxe.minmrn"
