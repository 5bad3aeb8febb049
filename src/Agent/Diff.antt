-- ===== src/Agent/Diff.antt =====
-- `compareFunc` and `Diff`: what must be deleted and created to come from one configuration to
-- another.
pub mod Laws
pub mod Apply
use kosmos.Base.{
  ℕ, String, Bool, true, false, not, ◌&&◌, ◌==◌, Option, none, some, List, [], ◌∷◌, Slice, items,
  appended, any, filter, length, nat_beq, if◌then◌else◌,
}
use kosmos.Api.Config.{
  NodeConfigSpec, Fdb, Arp, compare_device, compare_route, compare_iptables, compare_fdb,
  compare_arp,
}

-- The elements of the first list for which no element of the second passes the test.
abbrev pub missing : {A : Type 0} → (A → A → Bool) → List A → List A → List A
missing f xs ys = filter (λ o. not (any (f o) ys)) xs

pub record Difference (A : Type 0) : Type 0 where
  pub is_same : Bool
  pub deleted : Slice A
  pub created : Slice A

unfoldable pub compare_func : {A : Type 0} → Slice A → Slice A → (A → A → Bool) → Difference A
compare_func none none f = record { is_same = true; deleted = none; created = none }
compare_func none (some new) f = record { is_same = false; deleted = some []; created = some new }
compare_func (some old) none f = record { is_same = false; deleted = some old; created = some [] }
compare_func (some old) (some new) f =
    let delete_record = missing f old new in
    let create_record = missing f new old in
    record {
      is_same =
          nat_beq (length delete_record) (length create_record) && nat_beq (length create_record) 0;
      deleted = some delete_record;
      created = some create_record;
    }

-- What `Diff` keeps of one comparison: nothing, if the two sides are the same.
abbrev pub kept : {A : Type 0} → Bool → Slice A → Slice A
kept is_same record_ = if is_same then none else record_

abbrev pub broadcast_mac : String
broadcast_mac = "ff:ff:ff:ff:ff:ff"

abbrev pub without_broadcast : {A : Type 0} → (A → String) → Slice A → Slice A
without_broadcast mac xs = appended (filter (λ x. not (mac x == broadcast_mac)) (items xs))

pub record ConfigDiff : Type 0 where
  pub is_same : Bool
  pub delete_config : NodeConfigSpec
  pub create_config : NodeConfigSpec

unfoldable pub diff : NodeConfigSpec → NodeConfigSpec → ConfigDiff
diff old new =
    let devices = compare_func old.devices new.devices compare_device in
    let routes = compare_func old.routes new.routes compare_route in
    let iptables = compare_func old.iptables new.iptables compare_iptables in
    let fdbs = compare_func old.fdbs new.fdbs compare_fdb in
    let arps = compare_func old.arps new.arps compare_arp in
    record {
      is_same =
          devices.is_same && routes.is_same && iptables.is_same && fdbs.is_same && arps.is_same;
      delete_config = record {
        devices = kept devices.is_same devices.deleted;
        routes = kept routes.is_same routes.deleted;
        iptables = kept iptables.is_same iptables.deleted;
        fdbs = kept fdbs.is_same (without_broadcast {A = Fdb} (λ f. f.mac) fdbs.deleted);
        arps = kept arps.is_same (without_broadcast {A = Arp} (λ a. a.mac) arps.deleted);
      };
      create_config = record {
        devices = kept devices.is_same devices.created;
        routes = kept routes.is_same routes.created;
        iptables = kept iptables.is_same iptables.created;
        fdbs = kept fdbs.is_same fdbs.created;
        arps = kept arps.is_same arps.created;
      };
    }
