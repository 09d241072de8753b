-- ===== src/Ovs/Refused.antt =====
-- What the methods of OVSBridge in pkg/ovs/ovs-client.go do when the database refuses a transaction.
use ciccni.Base.{
  ℕ, String, Bool, ◌≡◌, refl, List, Option, none, some, Dict, Outcome, err, transaction, Exec,
}
use ciccni.Ovs.Values.{Value}
use ciccni.Ovs.Database.{Operation, refused, Library, OvsBridge, transact, perform}
use ciccni.Ovs.Bridge.{
  create, delete_bridge, get_external_ids, set_external_ids, get_port_uuid_list,
}
use ciccni.Ovs.Ports.{
  delete_ports, delete_port, create_port_row, create_port, create_internal_port, tunnel_options,
  create_vxlan_port, create_geneve_port, get_of_port, get_port_data, get_port_list,
  set_interface_mtu, get_port_uuid_by_if_name,
}

-- The method returns the error, and the bridge keeps its name, its type and its UUID.
abbrev pub Fails : {W A : Type 0} → String → Bool → OvsBridge W → Exec (OvsBridge W) A → Type 0
Fails e temporary b m =
    ((m b).0 ≡ err (transaction e temporary))
    × ((m b).1.name ≡ b.name)
    × ((m b).1.datapath_type ≡ b.datapath_type)
    × ((m b).1.uuid ≡ b.uuid)

module _ {W : Type 0} (lib : Library W) (e : String) (temporary : Bool) (b : OvsBridge W)
    (w : List Operation → W)
    (refuses : (ops : List Operation) → lib.commit ops b.ovsdb ≡ (refused e temporary, w ops)) where
  -- the outcome of any transaction on the bridge
  abbrev stopped : {A : Type 0} → List Operation → Outcome A × OvsBridge W
  stopped ops = (err (transaction e temporary), record b { ovsdb = w ops })

  transact-refused : (ops : List Operation) → transact lib ops b ≡ stopped ops
  unfolding transact
  transact-refused ops = rw (refuses ops)

  perform-refused : (ops : List Operation) → perform lib ops b ≡ stopped ops
  unfolding perform
  perform-refused ops = rw (transact-refused ops)

  create-Fails : Fails e temporary b (create lib)
  unfolding create
  create-Fails = rw (transact-refused _) (refl, refl, refl, refl)

  get_external_ids-Fails : Fails e temporary b (get_external_ids lib)
  unfolding get_external_ids
  get_external_ids-Fails = rw (transact-refused _) (refl, refl, refl, refl)

  get_port_uuid_list-Fails : Fails e temporary b (get_port_uuid_list lib)
  unfolding get_port_uuid_list
  get_port_uuid_list-Fails = rw (transact-refused _) (refl, refl, refl, refl)

  create_port_row-Fails :
      (name : String) (if_name : String) (type : String) (n : ℕ) (m : Option (Dict String Value))
      (m' : Option (Dict String Value))
      → Fails e temporary b (create_port_row lib name if_name type n m m')
  unfolding create_port_row
  create_port_row-Fails name if_name type n m m' = rw (transact-refused _) (refl, refl, refl, refl)

  get_of_port-Fails : (name : String) → Fails e temporary b (get_of_port lib name)
  unfolding get_of_port
  get_of_port-Fails name = rw (transact-refused _) (refl, refl, refl, refl)

  get_port_data-Fails :
      (uuid : String) (name : String) → Fails e temporary b (get_port_data lib uuid name)
  unfolding get_port_data
  get_port_data-Fails uuid name = rw (transact-refused _) (refl, refl, refl, refl)

  get_port_list-Fails : Fails e temporary b (get_port_list lib)
  unfolding get_port_list
  get_port_list-Fails = rw (transact-refused _) (refl, refl, refl, refl)

  get_port_uuid_by_if_name-Fails :
      (name : String) → Fails e temporary b (get_port_uuid_by_if_name lib name)
  unfolding get_port_uuid_by_if_name
  get_port_uuid_by_if_name-Fails name = rw (transact-refused _) (refl, refl, refl, refl)

  delete_bridge-Fails : Fails e temporary b (delete_bridge lib)
  unfolding delete_bridge
  delete_bridge-Fails = rw (perform-refused _) (refl, refl, refl, refl)

  set_external_ids-Fails :
      (ids : Dict String Value) → Fails e temporary b (set_external_ids lib ids)
  unfolding set_external_ids
  set_external_ids-Fails ids = rw (perform-refused _) (refl, refl, refl, refl)

  delete_ports-Fails : (uuids : List String) → Fails e temporary b (delete_ports lib uuids)
  unfolding delete_ports
  delete_ports-Fails uuids = rw (perform-refused _) (refl, refl, refl, refl)

  delete_port-Fails : (uuid : String) → Fails e temporary b (delete_port lib uuid)
  unfolding delete_port
  delete_port-Fails uuid = rw (perform-refused _) (refl, refl, refl, refl)

  set_interface_mtu-Fails :
      (name : String) (n : ℕ) → Fails e temporary b (set_interface_mtu lib name n)
  unfolding set_interface_mtu
  set_interface_mtu-Fails name n = rw (perform-refused _) (refl, refl, refl, refl)

  create_port-Fails :
      (name : String) (if_name : String) (m : Option (Dict String Value))
      → Fails e temporary b (create_port lib name if_name m)
  unfolding create_port
  create_port-Fails name if_name m = create_port_row-Fails name if_name "" 0 m none

  create_internal_port-Fails :
      (name : String) (n : ℕ) (m : Option (Dict String Value))
      → Fails e temporary b (create_internal_port lib name n m)
  unfolding create_internal_port
  create_internal_port-Fails name n m = create_port_row-Fails name name "internal" n m none

  create_vxlan_port-Fails :
      (name : String) (n : ℕ) (remote_ip : String)
      → Fails e temporary b (create_vxlan_port lib name n remote_ip)
  unfolding create_vxlan_port
  create_vxlan_port-Fails name n remote_ip =
      create_port_row-Fails name name "vxlan" n none (some (tunnel_options remote_ip))

  create_geneve_port-Fails :
      (name : String) (n : ℕ) (remote_ip : String)
      → Fails e temporary b (create_geneve_port lib name n remote_ip)
  unfolding create_geneve_port
  create_geneve_port-Fails name n remote_ip =
      create_port_row-Fails name name "geneve" n none (some (tunnel_options remote_ip))

-- If the database refuses every transaction of a bridge with an error, then each method of
-- OVSBridge that reaches the database returns that error as a transaction error, with its text and
-- its flag for temporary errors, and keeps the bridge's name, type and UUID.
pub methods-Fails :
    {W : Type 0} (lib : Library W) (e : String) (temporary : Bool) (b : OvsBridge W)
    (w : List Operation → W)
    (refuses : (ops : List Operation) → lib.commit ops b.ovsdb ≡ (refused e temporary, w ops))
    (name if_name uuid remote_ip : String) (n : ℕ) (uuids : List String) (ids : Dict String Value)
    (m : Option (Dict String Value))
    → Fails e temporary b (create lib)
      × Fails e temporary b (delete_bridge lib)
      × Fails e temporary b (get_external_ids lib)
      × Fails e temporary b (set_external_ids lib ids)
      × Fails e temporary b (get_port_uuid_list lib)
      × Fails e temporary b (delete_ports lib uuids)
      × Fails e temporary b (delete_port lib uuid)
      × Fails e temporary b (create_port lib name if_name m)
      × Fails e temporary b (create_internal_port lib name n m)
      × Fails e temporary b (create_vxlan_port lib name n remote_ip)
      × Fails e temporary b (create_geneve_port lib name n remote_ip)
      × Fails e temporary b (get_of_port lib name)
      × Fails e temporary b (get_port_data lib uuid name)
      × Fails e temporary b (get_port_list lib)
      × Fails e temporary b (get_port_uuid_by_if_name lib name)
      × Fails e temporary b (set_interface_mtu lib name n)
methods-Fails lib e temporary b w refuses name if_name uuid remote_ip n uuids ids m = (
  create-Fails lib e temporary b w refuses,
  delete_bridge-Fails lib e temporary b w refuses,
  get_external_ids-Fails lib e temporary b w refuses,
  set_external_ids-Fails lib e temporary b w refuses ids,
  get_port_uuid_list-Fails lib e temporary b w refuses,
  delete_ports-Fails lib e temporary b w refuses uuids,
  delete_port-Fails lib e temporary b w refuses uuid,
  create_port-Fails lib e temporary b w refuses name if_name m,
  create_internal_port-Fails lib e temporary b w refuses name n m,
  create_vxlan_port-Fails lib e temporary b w refuses name n remote_ip,
  create_geneve_port-Fails lib e temporary b w refuses name n remote_ip,
  get_of_port-Fails lib e temporary b w refuses name,
  get_port_data-Fails lib e temporary b w refuses uuid name,
  get_port_list-Fails lib e temporary b w refuses,
  get_port_uuid_by_if_name-Fails lib e temporary b w refuses name,
  set_interface_mtu-Fails lib e temporary b w refuses name n,
)
