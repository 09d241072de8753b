-- ===== src/Cniserver/PodConfiguration.antt =====
-- pkg/cniserver/pod_configuration.go on the network namespaces of the containers. The packages ns, ip,
-- ipam and arping are the parameter `NetNs`. An address is nil if its version is not 4;
-- the result's conversion to version 0.4.0 is taken to succeed.
pub mod Shaped
mod Tests
use ciccni.Base.{
  ℕ, String, List, [], ◌∷◌, Option, none, some, Outcome, ok, err, panic, Error, Exec, Done, pure,
  fail, lift, ◌>>=◌, ◌>>◌,
}
use ciccni.Net.{Ip, nil, v4, Mac}
use ciccni.Agent.Names.{generate_container_interface_name}
use ciccni.Tctools.Bandwidth.{TcArgs}
use ciccni.Tctools.Shaping.{
  Kernel, add_htb_to_interface, create_htb_class, add_tc_filter_with_dst_cidr,
}
use ciccni.Cniserver.Interfaces.{Interface}

-- net.Interface, as far as it is read
pub record NetInterface : Type 0 where
  pub name : String
  pub hardware_addr : Mac

-- what DelLinkByNameAddr comes back with
pub data Deletion : Type 0 where
  deleted link_not_found : Deletion
  failed : Error → Deletion

-- netns.Do and WithNetNSPath on the path of a namespace, SetupVethWithName, DelLinkByNameAddr,
-- InterfaceByName, ConfigureIface, and GratuitousArpOverIface, whose error is dropped
pub record NetNs (W : Type 0) : Type 1 where
  pub do_in : {A : Type 0} → String → Exec W A → Exec W A
  pub with_net_ns_path : {A : Type 0} → String → Exec W A → Exec W A
  pub setup_veth_with_name : String → String → ℕ → Exec W (NetInterface × NetInterface)
  pub del_link_by_name_addr : String → W → Deletion × W
  pub interface_by_name : String → Exec W NetInterface
  pub configure_iface : String → List Ip → Exec W Done
  pub gratuitous_arp : Ip → NetInterface → W → W

-- the error of configureTC is only logged
abbrev pub only_logged : {W : Type 0} → Outcome Done × W → Outcome Done × W
only_logged (ok _, w) = (ok tt, w)
only_logged (err _, w) = (ok tt, w)
only_logged (panic, w) = (panic, w)

module _ {W : Type 0} (kernel : Kernel W) where
  -- configureTC
  unfoldable pub configure_tc : String → ℕ → ℕ → Exec W Done
  configure_tc ifname rate burst = do
    add_htb_to_interface kernel ifname
    let class_handle = kernel.build_handle 1 1
    let root_handle = kernel.build_handle 1 0
    create_htb_class kernel ifname root_handle class_handle rate burst
    add_tc_filter_with_dst_cidr kernel ifname root_handle "10.244.0.0/16" class_handle 1

  abbrev pub limit : Option TcArgs → String → Exec W Done
  limit none name = pure tt
  limit (some tc_args) name = λ w. only_logged (configure_tc name tc_args.rate tc_args.burst w)

  module _ (net_ns : NetNs W) where
    -- setupVethPair
    unfoldable pub setup_veth_pair :
        (String → String)
        → String
        → String
        → String
        → String
        → ℕ
        → Option TcArgs
        → Exec W (Interface × Interface)
    setup_veth_pair sha1 pod_name pod_namespace ifname path mtu tc_args = do
      host_name ← lift (generate_container_interface_name sha1 pod_name pod_namespace)
      net_ns.do_in path (do
        (host, container) ← net_ns.setup_veth_with_name ifname host_name mtu
        limit tc_args container.name
        pure (
          record { name = host.name; mac = host.hardware_addr; sandbox = "" },
          record { name = container.name; mac = container.hardware_addr; sandbox = path },
        ))

    -- a link that is not there counts as deleted
    abbrev pub deletion : Deletion × W → Outcome Done × W
    deletion (deleted, w) = (ok tt, w)
    deletion (link_not_found, w) = (ok tt, w)
    deletion (failed e, w) = (err e, w)

    -- removeContainerLink
    unfoldable pub remove_container_link : String → String → String → Exec W Done
    remove_container_link container_id path ifname =
        net_ns.with_net_ns_path path (λ w. deletion (net_ns.del_link_by_name_addr ifname w))

    -- the loop over the addresses of version 4
    unfoldable pub announce : NetInterface → List Ip → W → W
    announce veth [] w = w
    announce veth (nil ∷ ips) w = announce veth ips w
    announce veth (v4 n ∷ ips) w = announce veth ips (net_ns.gratuitous_arp (v4 n) veth w)

    -- configureContainerAddr
    unfoldable pub configure_container_addr : String → Interface → List Ip → Exec W Done
    unfolding announce
    configure_container_addr path container_interface ips = net_ns.do_in path (do
      veth ← net_ns.interface_by_name container_interface.name
      net_ns.configure_iface container_interface.name ips
      λ w. (ok tt, announce veth ips w))
