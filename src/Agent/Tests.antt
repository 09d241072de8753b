-- ===== src/Agent/Tests.antt =====
-- A name of a container interface, with a hash of 40 zeros in place of SHA-1's.
use ciccni.Base.{◌≡◌, refl, String, ok, List, [], ◌∷◌, lookup, string_eq, ◌==◌, if◌then◌else◌}
use ciccni.Ovs.PortData.{OvsPortData}
use ciccni.Agent.Names.{
  text_length, generate_container_interface_name, generate_container_interface_name-length,
}
use ciccni.Agent.InterfaceStore.{InterfaceStore, initialize, get_container_interface_num}
use ciccni.Agent.InterfaceStore.Start.{
  tunnel_entry, last_named, initialize-lookup, get_container_interface_num-initialize,
}

abbrev pub zeros : String → String
zeros s = "0000000000000000000000000000000000000000"

zeros-length : (s : String) → text_length (zeros s) ≡ 40
unfolding text_length
zeros-length s = refl

generate_container_interface_name-length_example :
    (name : String) × (generate_container_interface_name zeros "core-dns-7d" "kube-system"
      ≡ ok name)
    × (text_length name ≡ 15)
generate_container_interface_name-length_example =
    generate_container_interface_name-length zeros "core-dns-7d" "kube-system" zeros-length

core_dns_name :
    generate_container_interface_name zeros "core-dns-7d" "kube-system" ≡ ok "coredns7-000000"
unfolding generate_container_interface_name
core_dns_name = refl

abbrev two_ports : List OvsPortData
two_ports =
    record { uuid = "u1"; name = "tun0"; external_ids = []; if_name = "tun0"; of_port = 1 }
    ∷ record {
      uuid = "u2";
      name = "coredns7-000000";
      external_ids = [];
      if_name = "coredns7-000000";
      of_port = 2;
    }
    ∷ []

initialize-lookup_example :
    (m' : InterfaceStore) × (initialize (ok two_ports) "tun0" [] ≡ (ok tt, m'))
    × ((j : String)
        → lookup j m' ≡ (
            if j == "tun0"
            then tunnel_entry "tun0" (last_named "tun0" two_ports) (lookup j [])
            else lookup j []))
initialize-lookup_example = initialize-lookup two_ports "tun0" []

none_yet : get_container_interface_num [] ≡ 0
unfolding get_container_interface_num
none_yet = refl

started : initialize (ok two_ports) "tun0" [] ≡ (ok tt, (initialize (ok two_ports) "tun0" []).1)
unfolding initialize
started = refl

get_container_interface_num-initialize_example :
    get_container_interface_num (initialize (ok two_ports) "tun0" []).1 ≡ 0
get_container_interface_num-initialize_example =
    get_container_interface_num-initialize two_ports "tun0" [] _ none_yet started
