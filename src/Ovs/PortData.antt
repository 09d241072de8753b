-- ===== src/Ovs/PortData.antt =====
-- OVSPortData of pkg/ovs/ovs-client.go. OFPort is the 32-bit pattern.
use ciccni.Base.{ℕ, String, Dict}

pub record OvsPortData : Type 0 where
  pub uuid : String
  pub name : String
  pub external_ids : Dict String String
  pub if_name : String
  pub of_port : ℕ
