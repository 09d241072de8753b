-- ===== src/Tctools/Shaping.antt =====
-- The objects of pkg/tctools/tctools.go and the functions that hand them to the kernel. The kernel and
-- the packages tc, core and unix are the parameter `Kernel`. A socket is a number.
pub mod Posted
use ciccni.Base.{
  ℕ, ◌+◌, ◌*◌, ◌%◌, ◌^◌, String, List, [], ◌∷◌, length, Option, none, some, Outcome, ok, err,
  parse_failed, Exec, Done, pure, fail, ◌>>=◌,
}
use ciccni.Net.{Ip, nil, v4, IpNet, octet, mask_of, parse_cidr}
use ciccni.Tctools.Bandwidth.{ClassRates, add_htb_class}

-- tc.Msg
pub record Msg : Type 0 where
  pub family : ℕ
  pub if_index : ℕ
  pub handle : ℕ
  pub parent : ℕ
  pub info : ℕ

-- tc.U32Key
pub record U32Key : Type 0 where
  pub mask : ℕ
  pub val : ℕ
  pub off : ℕ

-- tc.RateSpec
pub record RateSpec : Type 0 where
  pub cell_log : ℕ
  pub linklayer : ℕ
  pub overhead : ℕ
  pub cell_align : ℕ
  pub mpu : ℕ
  pub rate : ℕ

-- tc.Attribute, as the three functions fill it: a root with Init and Rate64, a class with Rate and
-- Ceil, and a filter with ClassID, Flags, Sel.Flags, Sel.Keys and Sel.NKeys
pub data Attribute : Type 0 where
  htb_root : (version rate_to_quantum : ℕ) → Option ℕ → Attribute
  htb_class : (rate ceil : RateSpec) → Attribute
  u32 : (class_id flags sel_flags : ℕ) → List U32Key → (nkeys : ℕ) → Attribute

-- tc.Object
pub record Object : Type 0 where
  pub msg : Msg
  pub attribute : Attribute

-- net.InterfaceByName as far as the index is read, tc.Open, SetOption with ExtendedAcknowledge, whose
-- error is only logged, Close, the calls of the socket, BuildHandle, HandleRoot, AF_UNSPEC, and the
-- package's own socket tcnl
pub record Kernel (W : Type 0) : Type 0 where
  pub interface_by_name : String → Exec W ℕ
  pub open_socket : Exec W ℕ
  pub set_option : ℕ → W → W
  pub close : ℕ → W → W
  pub add_qdisc : ℕ → Object → Exec W Done
  pub add_class : ℕ → Object → Exec W Done
  pub add_filter : ℕ → Object → Exec W Done
  pub get_filters : ℕ → Msg → Exec W (List Object)
  pub build_handle : ℕ → ℕ → ℕ
  pub handle_root : ℕ
  pub af_unspec : ℕ
  pub tcnl : ℕ

-- TCA_CLS_FLAGS_SKIP_HW, TC_U32_TERMINAL and ProtocolIP
abbrev pub skip_hw : ℕ
skip_hw = 1

abbrev pub terminal : ℕ
terminal = 1

abbrev pub protocol_ip : ℕ
protocol_ip = 8

-- the four bytes as a uint32, the last one in front
unfoldable pub swapped : ℕ → ℕ
swapped n =
    octet n 1 * 2 ^ 24 + octet n (2 ^ 8) * 2 ^ 16 + octet n (2 ^ 16) * 2 ^ 8 + octet n (2 ^ 24)

-- the key of AddTCFilterWithDstCidr
abbrev pub dst_key : ℕ → IpNet → U32Key
dst_key n net = record { mask = swapped (mask_of net.ones); val = swapped n; off = 16 }

-- the rates of createClassObject
abbrev pub rate_spec : ℕ → RateSpec
rate_spec rate = record {
  cell_log = 3;
  linklayer = 1;
  overhead = 0;
  cell_align = 0xffff;
  mpu = 0;
  rate = rate;
}

-- defer Close
abbrev pub closed : {W A : Type 0} → (W → W) → Outcome A × W → Outcome A × W
closed close (r, w) = (r, close w)

module _ {W : Type 0} (ops : Kernel W) where
  -- createHTBObject
  unfoldable pub create_htb_object : ℕ → ℕ → ℕ → Option ℕ → ℕ → ℕ → Object
  create_htb_object if_index handle parent rate version rate_to_quantum = record {
    msg = record {
      family = ops.af_unspec;
      if_index = if_index;
      handle = handle;
      parent = parent;
      info = 0;
    };
    attribute = htb_root version rate_to_quantum rate;
  }

  -- createClassObject
  unfoldable pub class_object : ℕ → ℕ → ℕ → ClassRates → Object
  class_object if_index handle parent rates = record {
    msg = record {
      family = ops.af_unspec;
      if_index = if_index;
      handle = handle;
      parent = parent;
      info = 0;
    };
    attribute = htb_class (rate_spec rates.rate) (rate_spec rates.ceil);
  }

  -- createFilterObject; the priority is a uint16
  unfoldable pub create_filter_object : ℕ → ℕ → ℕ → ℕ → ℕ → List U32Key → Object
  create_filter_object if_index parent flowid prio protocol keys = record {
    msg = record {
      family = ops.af_unspec;
      if_index = if_index;
      handle = 0;
      parent = parent;
      info = prio % 2 ^ 16 * 2 ^ 16 + protocol;
    };
    attribute = u32 flowid skip_hw terminal keys (length keys % 2 ^ 8);
  }

  -- a call on a socket that is closed when it ends
  abbrev pub closing : {A : Type 0} → ℕ → Exec W A → Exec W A
  closing sock m w = closed (ops.close sock) (m w)

  -- createTcnl
  unfoldable pub create_tcnl : Exec W ℕ
  create_tcnl = do sock ← ops.open_socket; λ w. (ok sock, ops.set_option sock w)

  -- addHTBToInterface, which CreateRootHTB calls
  unfoldable pub add_htb_to_interface : String → Exec W Done
  unfolding create_htb_object
  add_htb_to_interface name = do
    index ← ops.interface_by_name name
    sock ← ops.open_socket
    let qdisc = create_htb_object (index % 2 ^ 32) (ops.build_handle 1 0) ops.handle_root none 3 10
    closing sock (λ w. ops.add_qdisc sock qdisc (ops.set_option ops.tcnl w))

  -- addHTBClass, which CreateHTBClass calls
  unfoldable pub create_htb_class : String → ℕ → ℕ → ℕ → ℕ → Exec W Done
  unfolding create_tcnl class_object
  create_htb_class name parent classid limit burst = do
    index ← ops.interface_by_name name
    let object = class_object (index % 2 ^ 32) classid parent (add_htb_class limit burst)
    sock ← create_tcnl
    closing sock (ops.add_class sock object)

  -- what AddTCFilterWithDstCidr does about the CIDR; err is nil where To4 answers nil
  abbrev pub filter_for : ℕ → ℕ → String → ℕ → Option (Ip × IpNet) → Exec W Done
  filter_for sock index cidr prio none = fail (parse_failed cidr)
  filter_for sock index cidr prio (some (nil, net)) = pure tt
  filter_for sock index cidr prio (some (v4 n, net)) = ops.add_filter sock (
      create_filter_object (index % 2 ^ 32) (ops.build_handle 1 0) (ops.build_handle 1 1) prio
        protocol_ip (dst_key n net ∷ []))

  -- AddTCFilterWithDstCidr, which does not read parent and class_id
  unfoldable pub add_tc_filter_with_dst_cidr : String → ℕ → String → ℕ → ℕ → Exec W Done
  unfolding create_tcnl create_filter_object parse_cidr
  add_tc_filter_with_dst_cidr name parent cidr class_id prio = do
    index ← ops.interface_by_name name
    sock ← create_tcnl
    closing sock (filter_for sock index cidr prio (parse_cidr cidr))

  -- GetFilter
  unfoldable pub get_filter : String → Exec W (List Object)
  unfolding create_tcnl
  get_filter name = do
    index ← ops.interface_by_name name
    sock ← create_tcnl
    closing sock (
        ops.get_filters sock
          (record { family = 0; if_index = index % 2 ^ 32; handle = 0; parent = 0; info = 0 }))
