-- ===== src/Api/Config.antt =====
-- pkg/apis/kosmos/v1alpha1/nodeconfig_types.go: the network configuration of one node, with the
-- `Compare` method of each entry. An int32 is its 32-bit pattern.
use kosmos.Base.{ℕ, String, Bool, ◌&&◌, arith, ◌==◌, nat_beq, eq_iff, Decides, Slice}

pub record Device : Type 0 where
  pub type : String
  pub name : String
  pub addr : String
  pub mac : String
  pub bind_dev : String
  pub id : ℕ
  pub port : ℕ

pub record Route : Type 0 where
  pub cidr : String
  pub gw : String
  pub dev : String

pub record Iptables : Type 0 where
  pub table : String
  pub chain : String
  pub rule : String

pub record Fdb : Type 0 where
  pub ip : String
  pub mac : String
  pub dev : String

pub record Arp : Type 0 where
  pub ip : String
  pub mac : String
  pub dev : String

pub record NodeConfigSpec : Type 0 where
  pub devices : Slice Device
  pub routes : Slice Route
  pub iptables : Slice Iptables
  pub fdbs : Slice Fdb
  pub arps : Slice Arp

pub record NodeConfig : Type 0 where
  pub name : String
  pub spec : NodeConfigSpec

unfoldable pub compare_device : Device → Device → Bool
compare_device d v =
    d.type == v.type
    && d.name == v.name
    && d.addr == v.addr
    && d.mac == v.mac
    && d.bind_dev == v.bind_dev
    && nat_beq d.id v.id
    && nat_beq d.port v.port

unfoldable pub compare_route : Route → Route → Bool
compare_route r v = r.cidr == v.cidr && r.gw == v.gw && r.dev == v.dev

unfoldable pub compare_iptables : Iptables → Iptables → Bool
compare_iptables i v = i.table == v.table && i.chain == v.chain && i.rule == v.rule

unfoldable pub compare_fdb : Fdb → Fdb → Bool
compare_fdb f v = f.ip == v.ip && f.mac == v.mac && f.dev == v.dev

unfoldable pub compare_arp : Arp → Arp → Bool
compare_arp a v = a.ip == v.ip && a.mac == v.mac && a.dev == v.dev

pub compare_device-Decides : Decides compare_device
unfolding compare_device
compare_device-Decides d v = ground (
  arith,
  eq_iff d.type v.type,
  eq_iff d.name v.name,
  eq_iff d.addr v.addr,
  eq_iff d.mac v.mac,
  eq_iff d.bind_dev v.bind_dev,
)

pub compare_route-Decides : Decides compare_route
unfolding compare_route
compare_route-Decides r v =
    ground (arith, eq_iff r.cidr v.cidr, eq_iff r.gw v.gw, eq_iff r.dev v.dev)

pub compare_iptables-Decides : Decides compare_iptables
unfolding compare_iptables
compare_iptables-Decides i v =
    ground (arith, eq_iff i.table v.table, eq_iff i.chain v.chain, eq_iff i.rule v.rule)

pub compare_fdb-Decides : Decides compare_fdb
unfolding compare_fdb
compare_fdb-Decides f v = ground (arith, eq_iff f.ip v.ip, eq_iff f.mac v.mac, eq_iff f.dev v.dev)

pub compare_arp-Decides : Decides compare_arp
unfolding compare_arp
compare_arp-Decides a v = ground (arith, eq_iff a.ip v.ip, eq_iff a.mac v.mac, eq_iff a.dev v.dev)
