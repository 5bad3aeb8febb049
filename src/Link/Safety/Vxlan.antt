-- ===== src/Link/Safety/Vxlan.antt =====
-- The handlers of VXLAN devices do not panic where each address that they need can be generated;
-- they do where one cannot and the node has an old device of that name.
use kosmos.Base.{
  ℕ, String, Bool, true, false, not, ◌&&◌, ◌==◌, ◌≡◌, refl, sym, Option, none, some, is_some, In,
  Outcome, returns, Returns, Returns-bind, Returns-if, Returns-option, deref, deref-Returns, ◌>>=◌,
  arith, ◌∙◌,
}
use mathlib.Core.Option.{some-injective}
use kosmos.Api.Config.{Device}
use kosmos.Api.Cluster.{Cluster, ClusterLinkOptions}
use kosmos.Api.Node.{ClusterNode}
use kosmos.Link.Net.{Net}
use kosmos.Link.Vxlan.{generate_vxlan_ip, vxlan_attributes, build_vxlan_device, named_device}
use kosmos.Link.Filter.{Filter, get_cluster_by_name, get_device_from_node_config}
use kosmos.Link.Context.{Context}
use kosmos.Link.Handlers.Vxlan.{keep_mac, append_device, create_vxlan, create_if}
use kosmos.Link.Safety.{IsResolved, Ready, HasOptions, update-Ready}

-- If both texts are given, the address can be generated from them.
abbrev pub Addressed : Net → String → String → Type 0
Addressed net ip cidr =
    (ip == "") ≡ false
    → (cidr == "") ≡ false
    → Returns (λ a. is_some a ≡ true) (generate_vxlan_ip net ip cidr)

abbrev pub CanAddress : Net → ClusterNode → Cluster → Type 0
CanAddress net n cl =
    (o : ClusterLinkOptions)
    → cl.link_options ≡ some o
    → Addressed net n.ip o.local_cidrs.ip
      × Addressed net n.ip6 o.local_cidrs.ip6
      × Addressed net n.ip o.bridge_cidrs.ip
      × Addressed net n.ip6 o.bridge_cidrs.ip6

-- Each node can be given an address in the VXLAN networks of its cluster.
pub record IsAddressable (net : Net) (f : Filter) : Type 0 where
  pub addresses :
      (n : ClusterNode)
      → In n f.cluster_nodes
      → Returns (CanAddress net n) (deref (get_cluster_by_name f n.cluster_name))

keep_mac-Returns :
    (old dev : Option Device)
    → is_some dev ≡ true
    → Returns (λ d. is_some d ≡ true) (keep_mac old dev)
unfolding keep_mac
keep_mac-Returns none dev h = h
keep_mac-Returns (some old) dev h =
    Returns-if (λ d. is_some d ≡ true) (old.mac == "") (returns dev) _ (λ e. h)
      (λ e.
        Returns-bind (λ d. dev ≡ some d) (λ d. is_some d ≡ true) _ _ (deref-Returns dev h)
          (λ d k. refl))

abbrev Built : Option Device × ℕ → Type 0
Built (d, draws) = is_some d ≡ true

abbrev Made : Filter → Option Device × Context → Type 0
Made f (d, c) = Ready f c

module _ (net : Net) where
  build_vxlan_device-Returns :
      (draws : ℕ) (name ip cidr bind : String)
      → is_some (vxlan_attributes name) ≡ true
      → Returns (λ a. is_some a ≡ true) (generate_vxlan_ip net ip cidr)
      → Returns Built (build_vxlan_device net draws name ip cidr bind)
  unfolding build_vxlan_device
  build_vxlan_device-Returns draws name ip cidr bind known addressed =
      Returns-option Built (vxlan_attributes name) (returns (none, draws)) _
        (λ e. ground (arith, known, e))
        (λ v e.
          Returns-bind (λ a. is_some a ≡ true) Built (generate_vxlan_ip net ip cidr) _ addressed
            (λ a h. named v a h))
    where
      named :
          (v : _) (a : Option String)
          → is_some a ≡ true
          → is_some (named_device net draws v bind a).0 ≡ true
      named v none h = cc
      named v (some addr) h = refl

module _ (net : Net) (f : Filter) (ok : IsResolved f) where
  create_vxlan-Ready :
      (name : String) (c : Context) (n : ClusterNode) (ip cidr : String)
      → is_some (vxlan_attributes name) ≡ true
      → Returns (λ a. is_some a ≡ true) (generate_vxlan_ip net ip cidr)
      → Ready f c
      → Returns (Made f) (create_vxlan net name c n ip cidr)
  unfolding create_vxlan
  create_vxlan-Ready name c n ip cidr known addressed r =
      let old = get_device_from_node_config c.filter n.name name in
      Returns-bind Built (Made f) (build_vxlan_device net c.draws name ip cidr n.interface_name) _
        (build_vxlan_device-Returns net c.draws name ip cidr n.interface_name known addressed)
        (λ b h.
          Returns-bind (λ d. is_some d ≡ true) (Made f) (keep_mac old b.0)
            (λ kept. returns (kept, record c { draws = b.1 })) (keep_mac-Returns old b.0 h)
            (λ d k. record { same = r.same; keys = r.keys }))

  append_device-Ready :
      (n : ClusterNode) (d : Option Device) (c : Context)
      → In n f.cluster_nodes
      → Ready f c
      → Returns (Ready f) (append_device n (d, c))
  unfolding append_device
  append_device-Ready n none c m r = r
  append_device-Ready n (some d) c m r = update-Ready f c r n _ m

-- The four tests on a node's cluster have one shape.
abbrev pub Needs : Cluster → String → (ClusterLinkOptions → String) → Bool → Type 0
Needs cl ip cidr b =
    (o : ClusterLinkOptions)
    → cl.link_options ≡ some o
    → b ≡ true
    → ((ip == "") ≡ false) × ((cidr o == "") ≡ false)

not_empty : (s x y : Bool) → (s && not x && not y) ≡ true → (x ≡ false) × (y ≡ false)
not_empty s x y h = ground arith

pub needed :
    (supported : Outcome Bool) (cl : Cluster) (ip : String) (cidr : ClusterLinkOptions → String)
    → HasOptions cl
    → Returns (λ _. Unit {0}) supported
    → Returns (Needs cl ip cidr) (do
      s ← supported
      o ← deref cl.link_options
      returns (s && not (ip == "") && not (cidr o == "")))
needed supported cl ip cidr h s =
    Returns-bind (λ _. Unit {0}) (Needs cl ip cidr) supported _ s
      (λ b u.
        Returns-bind (λ o. cl.link_options ≡ some o) (Needs cl ip cidr) _ _
          (deref-Returns cl.link_options h)
          (λ o e o' e' t.
            let same : o' ≡ o = some-injective o' o (sym e' ∙ e) in
            not_empty b (ip == "") (cidr o' == "") (rw same t)))

module _ (net : Net) (f : Filter) (ok : IsResolved f) where
  -- One of the four creations: it is made only where it is needed, and then it has an address.
  pub create_if-Ready :
      (name : String) (b : Bool) (n : ClusterNode) (cl : Cluster) (ip : String)
      (cidr : ClusterLinkOptions → String) (c : Context)
      → is_some (vxlan_attributes name) ≡ true
      → HasOptions cl
      → ((o : ClusterLinkOptions) → cl.link_options ≡ some o → Addressed net ip (cidr o))
      → Needs cl ip cidr b
      → In n f.cluster_nodes
      → Ready f c
      → Returns (Ready f) (
          create_if net b n (do o ← deref cl.link_options; create_vxlan net name c n ip (cidr o)) c)
  create_if-Ready name b n cl ip cidr c known h addressed need m r =
      Returns-if (Ready f) b _ (returns c)
        (λ t.
          Returns-bind (Made f) (Ready f)
            (do o ← deref cl.link_options; create_vxlan net name c n ip (cidr o)) (append_device n)
            (Returns-bind (λ o. cl.link_options ≡ some o) (Made f) (deref cl.link_options) _
              (deref-Returns cl.link_options h)
              (λ o e.
                let given = need o e t in
                create_vxlan-Ready net f ok name c n ip (cidr o) known
                  (addressed o e given.0 given.1) r))
            (λ d q. append_device-Ready net f ok n d.0 d.1 m q))
        (λ e. r)
