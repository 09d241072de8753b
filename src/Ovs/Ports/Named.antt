-- ===== src/Ovs/Ports/Named.antt =====
-- GetPortUUIDByIfName and GetPortData of pkg/ovs/ovs-client.go.
use ciccni.Base.{
  String, ◌≡◌, ◌≢◌, refl, List, [], ◌∷◌, ◌++◌, Option, none, some, All, string_eq, ==-eq, ==-ne,
  Outcome, ok, err, panic, resume, Error,
}
use ciccni.Ovs.PortData.{OvsPortData}
use ciccni.Ovs.Database.{Library, OvsBridge}
use ciccni.Ovs.Ports.{
  err_port_not_found, port_of_interface, or_not_found, get_port_list, get_port_uuid_by_if_name,
}

-- The first port of the list with an interface of the name, or no port has one.
pub data FirstNamed (if_name : String) : List OvsPortData → Option String → Type 0 where
  missing :
      (ports : List OvsPortData)
      → All (λ p. p.if_name ≢ if_name) ports
      → FirstNamed if_name ports none
  first :
      (before after : List OvsPortData) (p : OvsPortData) (ports : List OvsPortData)
      → ports ≡ before ++ p ∷ after
      → All (λ p. p.if_name ≢ if_name) before
      → p.if_name ≡ if_name
      → FirstNamed if_name ports (some p.uuid)

FirstNamed-cons :
    (if_name : String) (p : OvsPortData) {ports : List OvsPortData} {r : Option String}
    → p.if_name ≢ if_name
    → FirstNamed if_name ports r
    → FirstNamed if_name (p ∷ ports) r
FirstNamed-cons if_name p n (missing ports all) = missing (p ∷ ports) (n, all)
FirstNamed-cons if_name p n (first before after q ports e all same) =
    first (p ∷ before) after q (p ∷ ports) (rw e refl) (n, all) same

port_of_interface-FirstNamed :
    (if_name : String) (ports : List OvsPortData)
    → FirstNamed if_name ports (port_of_interface if_name ports)
unfolding port_of_interface
port_of_interface-FirstNamed if_name [] = missing [] tt
port_of_interface-FirstNamed if_name (p ∷ ports) = elim (string_eq.dec p.if_name if_name) [
  | yes same ↦ rw (==-eq p.if_name if_name same) (first [] ports p (p ∷ ports) refl tt same)
  | no other ↦
      rw (==-ne p.if_name if_name other)
        (FirstNamed-cons if_name p other (port_of_interface-FirstNamed if_name ports))
]

-- How GetPortUUIDByIfName ends, by what GetPortList returns.
pub data Named {W : Type 0} (if_name : String)
    : Outcome (List OvsPortData) × OvsBridge W → Outcome String × OvsBridge W → Type 0 where
  found :
      (ports : List OvsPortData) (uuid : String) (b : OvsBridge W)
      → FirstNamed if_name ports (some uuid)
      → Named if_name (ok ports, b) (ok uuid, b)
  not_found :
      (ports : List OvsPortData) (b : OvsBridge W)
      → FirstNamed if_name ports none
      → Named if_name (ok ports, b) (err err_port_not_found, b)
  failed : (e : Error) (b : OvsBridge W) → Named if_name (err e, b) (err e, b)
  crashed : (b : OvsBridge W) → Named if_name (panic, b) (panic, b)

module _ {W : Type 0} (if_name : String) where
  Named-answer :
      (ports : List OvsPortData) (b : OvsBridge W) (r : Option String)
      → FirstNamed if_name ports r
      → Named if_name (ok ports, b) (or_not_found r b)
  Named-answer ports b none f = not_found ports b f
  Named-answer ports b (some uuid) f = found ports uuid b f

  Named-resume :
      (r : Outcome (List OvsPortData) × OvsBridge W)
      → Named if_name r (resume r (λ ports. or_not_found (port_of_interface if_name ports)))
  Named-resume (ok ports, b) = Named-answer ports b _ (port_of_interface-FirstNamed if_name ports)
  Named-resume (err e, b) = failed e b
  Named-resume (panic, b) = crashed b

-- GetPortUUIDByIfName returns the UUID of the first port in GetPortList's list whose interface has
-- the name, and errPortNotFound exactly when the list has none. An error of GetPortList is returned,
-- and the bridge is left as GetPortList leaves it.
pub get_port_uuid_by_if_name-Named :
    {W : Type 0} (lib : Library W) (if_name : String) (b : OvsBridge W)
    → Named if_name (get_port_list lib b) (get_port_uuid_by_if_name lib if_name b)
unfolding get_port_uuid_by_if_name
get_port_uuid_by_if_name-Named lib if_name b = Named-resume if_name (get_port_list lib b)
