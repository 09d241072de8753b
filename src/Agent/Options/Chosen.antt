-- ===== src/Agent/Options/Chosen.antt =====
-- The configuration that cmd/ciccni-agent runs with.
use ciccni.Base.{
  ℕ, String, ◌≡◌, ◌≢◌, refl, string_eq, ==-eq, ==-ne, arith, Outcome, ok, err, panic, Error,
}
use ciccni.Agent.Options.{
  AgentConfig, empty_config, or_default, or_number, set_defaults, complete, start_config,
}

-- Every option that has a default is set.
pub record IsComplete (c : AgentConfig) : Type 0 where
  pub socket : c.cni_socket ≢ ""
  pub bridge : c.ovs_bridge ≢ ""
  pub gateway : c.host_gateway ≢ ""
  pub proc : c.host_proc_path_prefix ≢ ""
  pub services : c.service_cidr ≢ ""
  pub mtu : c.default_mtu ≢ 0

or_default-ne : (default value : String) → default ≢ "" → or_default default value ≢ ""
or_default-ne default value d = elim (string_eq.dec value "") [
  | yes e ↦ rw (==-eq value "" e) d
  | no n ↦ rw (==-ne value "" n) n
]

or_number-ne : (default value : ℕ) → default ≢ 0 → or_number default value ≢ 0
or_number-ne default value d = ground (arith, d)

set_defaults-IsComplete : (c : AgentConfig) → IsComplete (set_defaults c)
unfolding set_defaults
set_defaults-IsComplete c = record {
  socket = or_default-ne _ c.cni_socket (λ e. absurd (cc e));
  bridge = or_default-ne _ c.ovs_bridge (λ e. absurd (cc e));
  gateway = or_default-ne _ c.host_gateway (λ e. absurd (cc e));
  proc = or_default-ne _ c.host_proc_path_prefix (λ e. absurd (cc e));
  services = or_default-ne _ c.service_cidr (λ e. absurd (cc e));
  mtu = or_number-ne 1450 c.default_mtu (λ e. absurd (omega (arith, e)));
}

-- The value that is read, or the default for one that is not set.
abbrev pub Defaulted {ℓ} : {A : Type ℓ} → (unset default read value : A) → Type ℓ
Defaulted unset default read value =
    (read ≢ unset → value ≡ read) × (read ≡ unset → value ≡ default)

-- Each option that has a default is set from the one that was read, and the others are as read.
pub record Filled (read c : AgentConfig) : Type 0 where
  pub socket : Defaulted "" "/var/run/ciccni/cni.sock" read.cni_socket c.cni_socket
  pub bridge : Defaulted "" "br-int" read.ovs_bridge c.ovs_bridge
  pub gateway : Defaulted "" "gw0" read.host_gateway c.host_gateway
  pub proc : Defaulted "" "/host" read.host_proc_path_prefix c.host_proc_path_prefix
  pub services : Defaulted "" "10.96.0.0/12" read.service_cidr c.service_cidr
  pub mtu : Defaulted 0 1450 read.default_mtu c.default_mtu
  pub datapath : c.ovs_datapath_type ≡ read.ovs_datapath_type
  pub tunnel : c.tunnel_type ≡ read.tunnel_type
  pub ipsec : c.enable_ipsec_tunnel ≡ read.enable_ipsec_tunnel

or_default-Defaulted :
    (default value : String) → Defaulted "" default value (or_default default value)
or_default-Defaulted default value =
    (λ n. rw (==-ne value "" n) refl, λ e. rw (==-eq value "" e) refl)

or_number-Defaulted : (default value : ℕ) → Defaulted 0 default value (or_number default value)
or_number-Defaulted default value = (λ n. ground (arith, n), λ e. ground (arith, e))

set_defaults-Filled : (c : AgentConfig) → Filled c (set_defaults c)
unfolding set_defaults
set_defaults-Filled c = record {
  socket = or_default-Defaulted _ c.cni_socket;
  bridge = or_default-Defaulted _ c.ovs_bridge;
  gateway = or_default-Defaulted _ c.host_gateway;
  proc = or_default-Defaulted _ c.host_proc_path_prefix;
  services = or_default-Defaulted _ c.service_cidr;
  mtu = or_number-Defaulted 1450 c.default_mtu;
  datapath = refl;
  tunnel = refl;
  ipsec = refl;
}

-- The configuration that is chosen, by what loading the file gives.
pub data Chosen (load : String → Outcome AgentConfig) (file : String)
    : Outcome AgentConfig → Type 0 where
  defaults :
      file ≡ "" → (c : AgentConfig) → Filled empty_config c → IsComplete c → Chosen load file (ok c)
  loaded :
      file ≢ ""
      → (read c : AgentConfig) → load file ≡ ok read
      → Filled read c
      → IsComplete c
      → Chosen load file (ok c)
  dropped : file ≢ "" → (e : Error) → load file ≡ err e → Chosen load file (ok empty_config)
  crashed : file ≢ "" → load file ≡ panic → Chosen load file panic

Chosen-loaded :
    (load : String → Outcome AgentConfig) (file : String) (r : Outcome AgentConfig)
    → file ≢ ""
    → load file ≡ r
    → Chosen load file (start_config load file empty_config)
unfolding start_config complete
Chosen-loaded load file (ok read) n e =
    rw (==-ne file "" n, e)
      (loaded n read _ e (set_defaults-Filled read) (set_defaults-IsComplete read))
Chosen-loaded load file (err x) n e = rw (==-ne file "" n, e) (dropped n x e)
Chosen-loaded load file panic n e = rw (==-ne file "" n, e) (crashed n e)

-- Without a file the agent runs with the default of each option that has one. With a file that loads,
-- it runs with the file's options: those with a default that the file does not set have their
-- default, and all others are as in the file. If loading fails, the error is dropped and the agent
-- runs with the empty configuration, which has no name for the bridge.
pub start_config-Chosen :
    (load : String → Outcome AgentConfig) (file : String)
    → Chosen load file (start_config load file empty_config)
unfolding start_config complete
start_config-Chosen load file = elim (string_eq.dec file "") [
  | yes e ↦
      rw (==-eq file "" e)
        (defaults e _ (set_defaults-Filled empty_config) (set_defaults-IsComplete empty_config))
  | no n ↦ Chosen-loaded load file (load file) n refl
]
