-- ===== src/Openflow/Client/Tests.antt =====
-- The ARP flows for two lists of destinations, on a new client.
use ciccni.Base.{
  ◌≡◌, refl, List, [], ◌∷◌, Bool, true, ok, lookup, insert, string_eq, nat_eq, for_each,
}
use ciccni.Net.{parse_ip}
use ciccni.Binding.Switch.{Command}
use ciccni.Binding.Flow.{add_flow, match_string}
use ciccni.Openflow.Tables.{table}
use ciccni.Openflow.State.{Client, new_client, add}
use ciccni.Openflow.Caches.{add_missing_flow, load_or_store, add_missing_flows}
use ciccni.Openflow.Flows.Cluster.{arp_flow}
use ciccni.Openflow.Client.{install_arp_flow}
use ciccni.Openflow.Client.Arp.{install_arp_flow-again}

abbrev willing : List Command → Command → Bool
willing log cmd = true

abbrev client0 : Client
client0 = new_client willing "br0"

-- the client with the flows for one node
abbrev client1 : Client
client1 = (install_arp_flow ("192.168.0.2" ∷ []) client0).1

installs : install_arp_flow ("192.168.0.2" ∷ []) client0 ≡ (ok tt, client1)
unfolding install_arp_flow arp_flow add_missing_flows for_each new_client match_string
    add_missing_flow lookup load_or_store string_eq add add_flow insert nat_eq parse_ip table
installs = refl

install_arp_flow-again_example :
    install_arp_flow ("192.168.0.2" ∷ "192.168.0.3" ∷ []) client1 ≡ (ok tt, client1)
install_arp_flow-again_example =
    install_arp_flow-again ("192.168.0.2" ∷ []) ("192.168.0.2" ∷ "192.168.0.3" ∷ []) client0 client1
      installs
