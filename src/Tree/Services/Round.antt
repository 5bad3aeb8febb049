-- ===== src/Tree/Services/Round.antt =====
-- What a whole round of the controller writes to the leaf cluster.
use kosmos.Base.{String, ◌≡◌, inr, false, List, In}
use kosmos.Tree.Services.{
  ServiceImport, EndpointSlice, LeafClient, Listers, Packages, retain_endpoint_slice,
}
use kosmos.Tree.Services.Import.{is_other_family, connected}
use kosmos.Tree.Services.Leaf.{IsRetry, IsLeaf}

module _ {O S : Type 0} (family : String) (packages : Packages) (client : LeafClient O S)
    (listers : Listers O) (slices : S → List (EndpointSlice O)) (retry : IsRetry packages)
    (leaf : IsLeaf slices client) where
  -- The slice that an endpoint slice of the host cluster becomes, where the import is that of the key.
  pub Imported : ServiceImport → EndpointSlice O → Type 0
  Imported i y =
      (eps_list : List (EndpointSlice O)) × (eps : EndpointSlice O) × (listers.root_slices
          i.namespace i.name
        ≡ inr eps_list)
      × In eps eps_list
      × (is_other_family family packages client eps.address_type ≡ false)
      × (y ≡ retain_endpoint_slice (connected family packages client eps i) i.name)

  module _ (Allowed : EndpointSlice O → Type 0) where
    Safe : S → Type 0
    Safe s = (y : EndpointSlice O) → In y (slices s) → Allowed y
