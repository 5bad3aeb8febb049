-- ===== src/Agent/Sync/Order.antt =====
-- An operation that fails does not stop the ones after it.
use kosmos.Base.{String, ◌≡◌, refl, Option, none, some, List, Slice}
use kosmos.Api.Config.{NodeConfigSpec}
use kosmos.Agent.Network.{NetWork, Action}
use kosmos.Agent.Sync.{Changes, attempt, write_deletes, write_creates, write_sys}

abbrev SameEffect : {S A : Type 0} → Action S A → Action S A → Type 0
SameEffect {S} {A} f g = (xs : List A) (s : S) → (f xs s).1 ≡ (g xs s).1

-- Two interfaces that do the same to the node, though other operations of theirs may fail.
pub record SameEffects {S : Type 0} (m n : NetWork S) : Type 0 where
  pub add_devices : SameEffect m.add_devices n.add_devices
  pub add_routes : SameEffect m.add_routes n.add_routes
  pub add_iptables : SameEffect m.add_iptables n.add_iptables
  pub add_fdbs : SameEffect m.add_fdbs n.add_fdbs
  pub add_arps : SameEffect m.add_arps n.add_arps
  pub delete_devices : SameEffect m.delete_devices n.delete_devices
  pub delete_routes : SameEffect m.delete_routes n.delete_routes
  pub delete_iptables : SameEffect m.delete_iptables n.delete_iptables
  pub delete_fdbs : SameEffect m.delete_fdbs n.delete_fdbs
  pub delete_arps : SameEffect m.delete_arps n.delete_arps

module _ {S : Type 0} (m n : NetWork S) where
  attempt_effect :
      {A : Type 0} (c : Slice A) (f g : Action S A) (q r : Option String × S)
      → SameEffect f g
      → q.1 ≡ r.1
      → (attempt m c f q).1 ≡ (attempt n c g r).1
  unfolding attempt
  attempt_effect none f g q r same e = e
  attempt_effect (some xs) f g q r same e = rw e (same xs r.1)

  write_deletes_effect :
      (c : Option NodeConfigSpec) (q r : Option String × S)
      → SameEffects m n
      → q.1 ≡ r.1
      → (write_deletes m c q).1 ≡ (write_deletes n c r).1
  unfolding write_deletes
  write_deletes_effect none q r same e = e
  write_deletes_effect (some c) q r same e =
      attempt_effect c.devices m.delete_devices n.delete_devices _ _ same.delete_devices (
        attempt_effect c.routes m.delete_routes n.delete_routes _ _ same.delete_routes (
          attempt_effect c.iptables m.delete_iptables n.delete_iptables _ _ same.delete_iptables (
            attempt_effect c.fdbs m.delete_fdbs n.delete_fdbs _ _ same.delete_fdbs
              (attempt_effect c.arps m.delete_arps n.delete_arps q r same.delete_arps e))))

  write_creates_effect :
      (c : Option NodeConfigSpec) (q r : Option String × S)
      → SameEffects m n
      → q.1 ≡ r.1
      → (write_creates m c q).1 ≡ (write_creates n c r).1
  unfolding write_creates
  write_creates_effect none q r same e = e
  write_creates_effect (some c) q r same e =
      attempt_effect c.routes m.add_routes n.add_routes _ _ same.add_routes (
        attempt_effect c.iptables m.add_iptables n.add_iptables _ _ same.add_iptables (
          attempt_effect c.fdbs m.add_fdbs n.add_fdbs _ _ same.add_fdbs (
            attempt_effect c.arps m.add_arps n.add_arps _ _ same.add_arps
              (attempt_effect c.devices m.add_devices n.add_devices q r same.add_devices e))))

  -- Over two interfaces whose operations have the same effect on the node, whatever errors each of
  -- them reports, `WriteSys` leaves the node in the same state.
  pub write_sys-SameEffects :
      (c : Changes) (s : S) → SameEffects m n → (write_sys m c s).1 ≡ (write_sys n c s).1
  unfolding write_sys
  write_sys-SameEffects c s same =
      write_creates_effect c.create_config _ _ same
        (write_deletes_effect c.delete_config (none, s) (none, s) same refl)
