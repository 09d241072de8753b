-- ===== src/Cniserver/Routes/Updated.antt =====
-- The routes that updateResultIfaceConfig of pkg/cniserver/cniserver.go leaves in a result.
use ciccni.Base.{
  true, false, ◌≡◌, refl, Bool-cases, inl, inr, List, [], ◌∷◌, ◌++◌, map, Option, none, some,
  string_eq, ◌==◌, if◌then◌else◌, Outcome, ok, err, panic,
}
use ciccni.Base.Partial
use ciccni.Net.{Ip, IpNet, parse_ip, show_ip_net}
use ciccni.Cniserver.Ipam.{IpConfig, Route}
use ciccni.Cniserver.Routes.{
  everywhere, default_gw, default_route_dst, has_default_route, update_ip, with_routes,
  update_routes, update_result_iface_config,
}

-- It is no error.
abbrev pub NotErr {ℓ} : {A : Type ℓ} → Outcome A → Type 0
NotErr (ok _) = Unit {0}
NotErr (err _) = ⊥
NotErr panic = Unit {0}

NotErr-bind {ℓ κ} :
    {A : Type ℓ} {B : Type κ} (o : Outcome A) (k : A → Outcome B)
    → NotErr o
    → ((a : A) → NotErr (k a))
    → NotErr (Partial.◌>>=◌ o k)
NotErr-bind (ok a) k h next = next a
NotErr-bind (err e) k h next = h
NotErr-bind panic k h next = tt

NotErr-with_routes :
    (gateway : Ip) (cluster : Option IpNet) (routes : List Route)
    → NotErr (with_routes gateway cluster routes)
NotErr-with_routes gateway none routes = tt
NotErr-with_routes gateway (some net) routes = tt

module _ (next_ip : Ip → Ip) (gateway : Ip) (cluster : Option IpNet) where
  NotErr-update_routes : (routes : List Route) → NotErr (update_routes gateway cluster routes)
  unfolding update_routes
  NotErr-update_routes routes = elim (Bool-cases (has_default_route routes)) [
    | inl there ↦ rw there tt
    | inr absent ↦ rw absent (NotErr-with_routes gateway cluster routes)
  ]

  pub update_result_iface_config-NotErr :
      (ips : List IpConfig) (routes : List Route)
      → NotErr (update_result_iface_config next_ip gateway cluster ips routes)
  unfolding update_result_iface_config
  update_result_iface_config-NotErr [] routes = tt
  update_result_iface_config-NotErr (ipc ∷ ips) routes =
      NotErr-bind (update_routes gateway cluster routes) _ (NotErr-update_routes routes)
        (λ routes1. NotErr-bind _ _ (update_result_iface_config-NotErr ips routes1) (λ _. tt))

-- the routes with the default route and the route to the cluster behind them
abbrev pub extended : Ip → IpNet → List Route → List Route
extended gateway cluster routes =
    routes
    ++ record { dst = everywhere; gw = gateway }
      ∷ record { dst = cluster; gw = parse_ip default_gw }
      ∷ []

has_default_route-extended :
    (gateway : Ip) (cluster : IpNet) (routes : List Route)
    → has_default_route (extended gateway cluster routes) ≡ true
unfolding has_default_route show_ip_net string_eq
has_default_route-extended gateway cluster [] = refl
has_default_route-extended gateway cluster (route ∷ routes) =
    elim (Bool-cases (show_ip_net route.dst == default_route_dst)) [
      | inl own ↦ rw own
      | inr other ↦ rw other (has_default_route-extended gateway cluster routes)
    ]

module _ (next_ip : Ip → Ip) (gateway : Ip) where
  -- With a default route, the routes stay.
  update_kept :
      (cluster : Option IpNet) (ips : List IpConfig) (routes : List Route)
      → has_default_route routes ≡ true
      → update_result_iface_config next_ip gateway cluster ips routes
        ≡ ok (map (update_ip next_ip) ips, routes)
  unfolding update_result_iface_config update_routes
  update_kept cluster [] routes there = refl
  update_kept cluster (ipc ∷ ips) routes there = rw (there, update_kept cluster ips routes there)

  update_extended :
      (cluster : IpNet) (ipc : IpConfig) (ips : List IpConfig) (routes : List Route)
      → has_default_route routes ≡ false
      → update_result_iface_config next_ip gateway (some cluster) (ipc ∷ ips) routes
        ≡ ok (map (update_ip next_ip) (ipc ∷ ips), extended gateway cluster routes)
  unfolding update_result_iface_config update_routes
  update_extended cluster ipc ips routes absent = rw (
    absent,
    update_kept (some cluster) ips (extended gateway cluster routes)
        (has_default_route-extended gateway cluster routes),
  )

-- With the cluster's network known and an address at least, updateResultIfaceConfig gives every
-- address the container's interface and a gateway, and leaves the routes as they are if one of them
-- is the default route; otherwise it appends the default route through the gateway and the route to
-- the cluster, once for all addresses.
pub update_result_iface_config_lem :
    (next_ip : Ip → Ip) (gateway : Ip) (cluster : IpNet) (ipc : IpConfig) (ips : List IpConfig)
    (routes : List Route)
    → update_result_iface_config next_ip gateway (some cluster) (ipc ∷ ips) routes
      ≡ ok (
        map (update_ip next_ip) (ipc ∷ ips),
        if has_default_route routes then routes else extended gateway cluster routes,
      )
update_result_iface_config_lem next_ip gateway cluster ipc ips routes =
    elim (Bool-cases (has_default_route routes)) [
      | inl there ↦ rw there (update_kept next_ip gateway (some cluster) (ipc ∷ ips) routes there)
      | inr absent ↦ rw absent (update_extended next_ip gateway cluster ipc ips routes absent)
    ]
