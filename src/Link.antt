-- ===== src/Link.antt =====
-- pkg/link/veth.go: the links of containers, and the interface that leads out of the node. The packages
-- ns, ip and netlink are the parameter `Netlink`.
mod Default
use ciccni.Base.{
  ℕ, String, List, [], ◌∷◌, Option, none, some, nat_eqb, if◌then◌else◌, Outcome, ok, err, panic,
  external, wrapped, Exec, Done, pure, fail, lift, ◌>>=◌, ◌>>◌,
}
use ciccni.Net.{Ip, nil, v4, IpNet}
use ciccni.Agent.Names.{generate_container_interface_name}
use ciccni.Cniserver.Interfaces.{Interface}
use ciccni.Cniserver.PodConfiguration.{NetInterface}

-- netlink.Link and netlink.Route, as far as they are read
pub record Device : Type 0 where
  pub index : ℕ
  pub name : String

pub record Route : Type 0 where
  pub gw : Ip
  pub link_index : ℕ

-- netns.Do and WithNetNSPath on the path of a namespace, DelLinkByName, SetupVethWithName, LinkByName,
-- LinkSetUp, AddrAdd, RouteList, whose error is dropped, and LinkList
pub record Netlink (W : Type 0) : Type 1 where
  pub do_in : {A : Type 0} → String → Exec W A → Exec W A
  pub with_net_ns_path : {A : Type 0} → String → Exec W A → Exec W A
  pub del_link_by_name : String → Exec W Done
  pub setup_veth_with_name : String → String → ℕ → Exec W (NetInterface × NetInterface)
  pub link_by_name : String → Exec W Device
  pub link_set_up : Device → Exec W Done
  pub addr_add : Device → IpNet → Exec W Done
  pub route_list : W → List Route × W
  pub link_list : Exec W (List Device)

-- a call whose error is dropped
abbrev pub dropped : {W : Type 0} → Outcome Done × W → Outcome Done × W
dropped (ok _, w) = (ok tt, w)
dropped (err _, w) = (ok tt, w)
dropped (panic, w) = (panic, w)

-- fmt.Errorf of LinkList's error
abbrev pub explained : {W : Type 0} → Outcome (List Device) × W → Outcome (List Device) × W
explained (ok links, w) = (ok links, w)
explained (err e, w) = (err (wrapped "获取LinkList失败" e), w)
explained (panic, w) = (panic, w)

abbrev pub index_if : Ip → ℕ → Option ℕ → Option ℕ
index_if nil new old = old
index_if (v4 n) new old = some new

-- the loop over the routes; none is -1
unfoldable pub gateway_index : List Route → Option ℕ → Option ℕ
gateway_index [] index = index
gateway_index (route ∷ routes) index =
    gateway_index routes (index_if route.gw route.link_index index)

-- the loop over the links, which stops at the first with the index
unfoldable pub name_of : ℕ → List Device → String
name_of index [] = ""
name_of index (link ∷ links) = if nat_eqb link.index index then link.name else name_of index links

module _ {W : Type 0} (ops : Netlink W) where
  -- SetupInterface
  unfoldable pub setup_interface :
      (String → String) → String → String → String → String → ℕ → Exec W (Interface × Interface)
  setup_interface sha1 pod_name pod_namespace ifname path mtu = do
    host_name ← lift (generate_container_interface_name sha1 pod_name pod_namespace)
    ops.do_in path (do
      λ w. dropped (ops.del_link_by_name ifname w)
      (host, container) ← ops.setup_veth_with_name ifname host_name mtu
      pure (
        record { name = host.name; mac = host.hardware_addr; sandbox = "" },
        record { name = container.name; mac = container.hardware_addr; sandbox = path },
      ))

  -- ConfigureContainerAddr
  unfoldable pub configure_container_addr : String → Interface → IpNet → Exec W Done
  configure_container_addr path container_interface net = ops.do_in path (do
    link ← ops.link_by_name container_interface.name
    ops.link_set_up link
    ops.addr_add link net)

  -- DeleteInterface
  unfoldable pub delete_interface : String → String → Exec W Done
  delete_interface path ifname = ops.with_net_ns_path path (ops.del_link_by_name ifname)

  -- GetDefaultInterface once the index is known
  abbrev pub interface_at : Option ℕ → Exec W String
  interface_at none = fail (external "未找到默认接口")
  interface_at (some index) = do links ← ops.link_list; pure (name_of index links)

  -- GetDefaultInterface
  unfoldable pub get_default_interface : Exec W String
  unfolding gateway_index name_of
  get_default_interface w =
      let (routes, w1) = ops.route_list w in interface_at (gateway_index routes none) w1
