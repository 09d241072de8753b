-- ===== src/Agent/InterfaceStore/Start.antt =====
-- Initialize of pkg/agent/interface_cache.go.
use ciccni.Base.{
  String, ◌≡◌, refl, ap, subst, List, [], ◌∷◌, Option, none, some, lookup, insert, string_eq,
  lookup-insert, arith, ◌==◌, if◌then◌else◌, ok, Bool-cases, inl, inr,
}
use ciccni.Ovs.PortData.{OvsPortData}
use ciccni.Agent.InterfaceStore.{
  InterfaceConfig, InterfaceStore, tunnel_config, store_ports, initialize,
  get_container_interface_num,
}

-- the last of the ports that has the name
abbrev pub last_named : String → List OvsPortData → Option OvsPortData
last_named name [] = none
last_named name (port ∷ ports) = elim (last_named name ports) [
  | some later ↦ some later
  | none ↦ if port.name == name then some port else none
]

-- what Initialize leaves under the tunnel's name
abbrev pub tunnel_entry :
    String → Option OvsPortData → Option InterfaceConfig → Option InterfaceConfig
tunnel_entry tunnel_port none before = before
tunnel_entry tunnel_port (some port) before = some (tunnel_config tunnel_port port)

store_ports_lem :
    (tunnel_port : String) (ports : List OvsPortData) (m : InterfaceStore) (j : String)
    → lookup j (store_ports tunnel_port ports m) ≡ (
        if j == tunnel_port
        then tunnel_entry tunnel_port (last_named tunnel_port ports) (lookup j m)
        else lookup j m)
unfolding store_ports
store_ports_lem t [] m j = ground arith
store_ports_lem t (p ∷ ports) m j = ground (
  arith,
  store_ports_lem t ports (insert p.name (tunnel_config t p) m) j,
  store_ports_lem t ports m j,
  lookup-insert j p.name (tunnel_config t p) m,
)

-- After Initialize on the ports of the bridge, the tunnel's name leads to the last port of that name,
-- and where no port has it, to what the store had; every other name leads to what the store had.
pub initialize-lookup :
    (ports : List OvsPortData) (tunnel_port : String) (m : InterfaceStore)
    → (m' : InterfaceStore) × (initialize (ok ports) tunnel_port m ≡ (ok tt, m'))
      × ((j : String)
          → lookup j m' ≡ (
              if j == tunnel_port
              then tunnel_entry tunnel_port (last_named tunnel_port ports) (lookup j m)
              else lookup j m))
unfolding initialize
initialize-lookup ports tunnel_port m =
    (store_ports tunnel_port ports m, refl, store_ports_lem tunnel_port ports m)

-- An entry of the tunnel's kind does not add to the number of containers.
container_num-insert :
    (k t : String) (p : OvsPortData) (m : InterfaceStore)
    → get_container_interface_num m ≡ 0
    → get_container_interface_num (insert k (tunnel_config t p) m) ≡ 0
unfolding insert get_container_interface_num
container_num-insert k t p [] h = refl
container_num-insert k t p ((j, c) ∷ m) h =
    ground (arith, container_num-insert k t p m (omega (arith, h)), h)

container_num-store_ports :
    (t : String) (ports : List OvsPortData) (m : InterfaceStore)
    → get_container_interface_num m ≡ 0
    → get_container_interface_num (store_ports t ports m) ≡ 0
unfolding store_ports
container_num-store_ports t [] m h = h
container_num-store_ports t (p ∷ ports) m h = elim (Bool-cases (p.name == t)) [
  | inl e ↦ rw e (container_num-store_ports t ports _ (container_num-insert p.name t p m h))
  | inr e ↦ rw e (container_num-store_ports t ports m h)
]

-- A store that held no container before Initialize holds none after it, whatever ports the bridge
-- has: the containers of an agent that starts anew are not read back.
pub get_container_interface_num-initialize :
    (ports : List OvsPortData) (tunnel_port : String) (m m' : InterfaceStore)
    → get_container_interface_num m ≡ 0
    → initialize (ok ports) tunnel_port m ≡ (ok tt, m')
    → get_container_interface_num m' ≡ 0
unfolding initialize
get_container_interface_num-initialize ports tunnel_port m m' h e =
    subst (λ (s : InterfaceStore). get_container_interface_num s ≡ 0) (ap (λ r. r.1) e)
      (container_num-store_ports tunnel_port ports m h)
