-- ===== src/Agent/Options.antt =====
-- cmd/ciccni-agent: the options of options.go with the configuration of config.go, and run of
-- agent.go up to the start of the RPC server, after which it waits.
mod Tests
pub mod Chosen
use ciccni.Base.{
  ℕ, String, Bool, true, false, List, [], Option, none, some, string_eq, ◌==◌, nat_eqb, nat_eq,
  if◌then◌else◌, Outcome, ok, err, panic, Error, wrapped, Exec, Done, pure, fail, ◌>>=◌, ◌>>◌,
  put_back,
}
use ciccni.Binding.Switch.{Command}
use ciccni.Ovs.Database.{Library}
use ciccni.Ovs.Bridge.{new_ovs_bridge, create}
use ciccni.Openflow.State.{new_client}
use ciccni.Agent.InterfaceStore.{new_interface_store}
use ciccni.Agent.Initializer.{Host, Initializer, NodeConfig, on_bridge}
use ciccni.Agent.Initializer.SetUp.{initialize_agent}

pub record AgentConfig : Type 0 where
  pub cni_socket : String
  pub ovs_bridge : String
  pub ovs_datapath_type : String
  pub host_gateway : String
  pub tunnel_type : String
  pub default_mtu : ℕ
  pub host_proc_path_prefix : String
  pub service_cidr : String
  pub enable_ipsec_tunnel : Bool

-- new(AgentConfig)
abbrev pub empty_config : AgentConfig
empty_config = record {
  cni_socket = "";
  ovs_bridge = "";
  ovs_datapath_type = "";
  host_gateway = "";
  tunnel_type = "";
  default_mtu = 0;
  host_proc_path_prefix = "";
  service_cidr = "";
  enable_ipsec_tunnel = false;
}

abbrev pub or_default : String → String → String
or_default default value = if value == "" then default else value

abbrev pub or_number : ℕ → ℕ → ℕ
or_number default value = if nat_eqb value 0 then default else value

-- setDefaults
unfoldable pub set_defaults : AgentConfig → AgentConfig
set_defaults c = record c {
  cni_socket = or_default "/var/run/ciccni/cni.sock" c.cni_socket;
  ovs_bridge = or_default "br-int" c.ovs_bridge;
  host_gateway = or_default "gw0" c.host_gateway;
  host_proc_path_prefix = or_default "/host" c.host_proc_path_prefix;
  service_cidr = or_default "10.96.0.0/12" c.service_cidr;
  default_mtu = or_number 1450 c.default_mtu;
}

-- complete, for the name of the file; reading and parsing it is given
unfoldable pub complete :
    (String → Outcome AgentConfig) → String → AgentConfig → Outcome AgentConfig
unfolding set_defaults
complete load file c =
    if file == ""
    then ok (set_defaults c)
    else elim (load file) [ ok read ↦ ok (set_defaults read) | err e ↦ err e | panic ↦ panic ]

-- newAgentCommand drops the error of complete, and the options stay as they are then
abbrev kept : AgentConfig → Outcome AgentConfig → Outcome AgentConfig
kept c (ok c') = ok c'
kept c (err _) = ok c
kept c panic = panic

unfoldable pub start_config :
    (String → Outcome AgentConfig) → String → AgentConfig → Outcome AgentConfig
start_config load file c = kept c (complete load file c)

module _ {H W : Type 0} (ops : Host H) (lib : Library W) where
  abbrev explained : Outcome Done × Initializer H W → Outcome Done × Initializer H W
  explained (ok _, s) = (ok tt, s)
  explained (err e, s) = (err (wrapped "error create ovs bridge" e), s)
  explained (panic, s) = (panic, s)

  -- the clients that run makes, and the Initializer with them
  unfoldable pub new_initializer :
      AgentConfig → (List Command → Command → Bool) → H → W → Initializer H W
  unfolding new_ovs_bridge
  new_initializer config executor host ovsdb = record {
    host = host;
    node_config = none;
    ovs_bridge = new_ovs_bridge config.ovs_bridge config.ovs_datapath_type ovsdb;
    iface_store = new_interface_store;
    of_client = new_client executor config.ovs_bridge;
    host_gateway = config.host_gateway;
    mtu = config.default_mtu;
  }

  -- run; without a client for the API the process ends
  unfoldable pub run :
      AgentConfig
      → (List Command → Command → Bool)
      → Exec H Done
      → H
      → W
      → Outcome Done × Initializer H W
  run config executor create_client host ovsdb =
      (do
        λ s. explained (on_bridge ops lib (create lib) s)
        λ s. put_back (λ h. record s { host = h }) (create_client s.host)
        initialize_agent ops lib)
        (new_initializer config executor host ovsdb)
