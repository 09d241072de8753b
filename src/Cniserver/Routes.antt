-- ===== src/Cniserver/Routes.antt =====
-- updateResultIfaceConfig of pkg/cniserver/cniserver.go.
pub mod Updated
use ciccni.Base.{
  ℕ, String, Bool, true, false, List, [], ◌∷◌, ◌++◌, Option, none, some, string_eq, ◌==◌,
  if◌then◌else◌, Outcome, ok, err, panic,
}
use ciccni.Base.Partial.{◌>>=◌}
use ciccni.Net.{Ip, nil, v4, IpNet, mask_ip, parse_ip, show_ip_net}
use ciccni.Cniserver.Ipam.{IpConfig, Route}

abbrev pub default_route_dst : String
default_route_dst = "0.0.0.0/0"

-- defaultGW
abbrev pub default_gw : String
default_gw = "0.0.0.0"

-- the network that default_route_dst stands for
abbrev pub everywhere : IpNet
everywhere = record { ip = v4 0; ones = 0 }

-- the loop over result.Routes
unfoldable pub has_default_route : List Route → Bool
unfolding show_ip_net
has_default_route [] = false
has_default_route (route ∷ routes) =
    if show_ip_net route.dst == default_route_dst then true else has_default_route routes

abbrev pub or_next : (Ip → Ip) → IpNet → Ip → Ip
or_next next_ip address nil = next_ip (mask_ip address.ip address.ones)
or_next next_ip address (v4 n) = v4 n

-- the interface index and the gateway of an address
unfoldable pub update_ip : (Ip → Ip) → IpConfig → IpConfig
unfolding mask_ip
update_ip next_ip ipc = record ipc {
  interface = some 1;
  gateway = or_next next_ip ipc.address ipc.gateway;
}

-- *clusterPodCIDR, after the default route
abbrev pub with_routes : Ip → Option IpNet → List Route → Outcome (List Route)
with_routes gateway none routes = panic
with_routes gateway (some cluster) routes = ok (
    routes
    ++ record { dst = everywhere; gw = gateway }
      ∷ record { dst = cluster; gw = parse_ip default_gw }
      ∷ [])

unfoldable pub update_routes : Ip → Option IpNet → List Route → Outcome (List Route)
unfolding has_default_route
update_routes gateway cluster routes =
    if has_default_route routes then ok routes else with_routes gateway cluster routes

-- the loop over result.IPs, with the routes that it changes
unfoldable pub update_result_iface_config :
    (Ip → Ip)
    → Ip
    → Option IpNet
    → List IpConfig
    → List Route
    → Outcome (List IpConfig × List Route)
unfolding update_ip update_routes
update_result_iface_config next_ip gateway cluster [] routes = ok ([], routes)
update_result_iface_config next_ip gateway cluster (ipc ∷ ips) routes = do
  routes1 ← update_routes gateway cluster routes
  (ips', routes') ← update_result_iface_config next_ip gateway cluster ips routes1
  ok (update_ip next_ip ipc ∷ ips', routes')
