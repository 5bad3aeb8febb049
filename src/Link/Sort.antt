-- ===== src/Link/Sort.antt =====
-- helpers/sort.go, and `Sort` of handlers/nodeconfig.go: the order of the entries of a result. They
-- are sorted by their JSON text, the greatest first.
use Prim.Native.String.{compare}
use Prim.Native.Nat.{Ordering}
use kosmos.Base.{
  ℕ, ◌+◌, String, Bool, true, false, ◌≡◌, refl, Option, none, some, is_some, List, [], ◌∷◌, leb,
  arith,
}
use kosmos.Base.Dict
use kosmos.Base.Dict.{Dict}
use kosmos.Api.Config.{Device, Route, Iptables, Fdb, Arp}
use kosmos.Link.Context.{NodeConfig}

-- `json.Marshal` of each kind of entry, `none` where it fails, and `sort.Sort`, which asks for the
-- order of the elements at two places by their places and themselves.
pub record Sorting : Type 1 where
  pub marshal_device : Device → Option String
  pub marshal_route : Route → Option String
  pub marshal_iptables : Iptables → Option String
  pub marshal_fdb : Fdb → Option String
  pub marshal_arp : Arp → Option String
  pub sort : {A : Type 0} → (ℕ → ℕ → A → A → Bool) → List A → List A

-- The order of texts by their bytes is that by their code points.
unfoldable pub greater : String → String → Bool
greater s t = elim (compare s t) [ Ordering.gt ↦ true | _ ↦ false ]

-- `Less` of the five sorters.
unfoldable pub less : {A : Type 0} → (A → Option String) → ℕ → ℕ → A → A → Bool
unfolding greater
less marshal i j x y = elim (marshal x) [
  | none ↦ leb (i + 1) j
  | some text_x ↦ elim (marshal y) [ none ↦ leb (i + 1) j | some text_y ↦ greater text_x text_y ]
]

module _ (sorting : Sorting) where
  unfoldable pub sort_config : NodeConfig → NodeConfig
  unfolding less
  sort_config c = record {
    devices = sorting.sort (less sorting.marshal_device) c.devices;
    routes = sorting.sort (less sorting.marshal_route) c.routes;
    iptables = sorting.sort (less sorting.marshal_iptables) c.iptables;
    fdbs = sorting.sort (less sorting.marshal_fdb) c.fdbs;
    arps = sorting.sort (less sorting.marshal_arp) c.arps;
  }

  unfoldable pub sort_configs : Dict NodeConfig → Dict NodeConfig
  unfolding sort_config
  sort_configs [] = []
  sort_configs ((name, config) ∷ results) = (name, sort_config config) ∷ sort_configs results

  -- Sorting keeps the names.
  pub lookup-sort_configs :
      (k : String) (results : Dict NodeConfig)
      → is_some (Dict.lookup k (sort_configs results)) ≡ is_some (Dict.lookup k results)
  unfolding sort_configs Dict.lookup
  lookup-sort_configs k [] = refl
  lookup-sort_configs k ((name, config) ∷ results) = ground (arith, lookup-sort_configs k results)
