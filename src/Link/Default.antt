-- ===== src/Link/Default.antt =====
-- The link that GetDefaultInterface of pkg/link/veth.go looks for.
use ciccni.Base.{ℕ, ◌≡◌, refl, List, [], ◌∷◌, ◌++◌, Option, none, some, ok}
use ciccni.Net.{nil, v4}
use ciccni.Link.{Device, Route, Netlink, index_if, gateway_index, name_of, get_default_interface}

-- None of the routes has a gateway.
abbrev Direct : List Route → Type 0
Direct [] = Unit {0}
Direct (route ∷ routes) = (route.gw ≡ nil) × Direct routes

gateway_index-Direct :
    (routes : List Route) (index : Option ℕ) → Direct routes → gateway_index routes index ≡ index
unfolding gateway_index
gateway_index-Direct [] index h = refl
gateway_index-Direct (route ∷ routes) index (e, h) = rw e (gateway_index-Direct routes index h)

gateway_index-last :
    (before : List Route) (route : Route) (after : List Route) (n : ℕ) (index : Option ℕ)
    → route.gw ≡ v4 n
    → Direct after
    → gateway_index (before ++ route ∷ after) index ≡ some route.link_index
unfolding gateway_index
gateway_index-last [] route after n index e h =
    rw e (gateway_index-Direct after (some route.link_index) h)
gateway_index-last (r ∷ before) route after n index e h =
    gateway_index-last before route after n (index_if r.gw r.link_index index) e h

-- Of several routes with a gateway it is the last that counts: the result is the name of its link, or
-- the empty name without an error if no link has its index.
get_default_interface-last :
    {W : Type 0} (ops : Netlink W) (before : List Route) (route : Route) (after : List Route)
    (n : ℕ) (links : List Device) (w w1 w2 : W)
    → ops.route_list w ≡ (before ++ route ∷ after, w1)
    → route.gw ≡ v4 n
    → Direct after
    → ops.link_list w1 ≡ (ok links, w2)
    → get_default_interface ops w ≡ (ok (name_of route.link_index links), w2)
unfolding get_default_interface
get_default_interface-last ops before route after n links w w1 w2 listed gw direct linked =
    rw (listed, gateway_index-last before route after n none gw direct, linked) refl
