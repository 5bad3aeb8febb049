-- ===== src/Tree/Services/Returning.antt =====
-- A round of the controller does not panic.
use kosmos.Base.{sum-cases, Returns-if}
use kosmos.Base.{
  String, ◌≡◌, refl, ◌≢◌, inr, true, Option, none, some, List, [], ◌∷◌, ◌==◌, is_some, items,
  returns, deref, Returns, Returns-bind,
}
use kosmos.Tree.Services.{ServiceImport, Service, LeafClient, Listers, Packages}
use kosmos.Tree.Services.Import.{
  import_service_handler, check_service_type, generate_service, family_policy, index_zero,
}
use kosmos.Tree.Services.Reconcile.{sync_service_import, reconcile_found, reconcile}

-- A service that has a policy of families and a family, as Kubernetes stores every service.
abbrev pub IsStored : {O : Type 0} → Service O → Type 0
IsStored service = (is_some service.ip_family_policy ≡ true) × (items service.ip_families ≢ [])

abbrev pub AllStored : {O : Type 0} → Listers O → Type 0
AllStored {O} listers =
    (namespace name : String) (service : Service O)
    → listers.root_service namespace name ≡ inr service
    → IsStored service

abbrev Any : {A : Type 0} → A → Type 0
Any _ = Unit {0}

deref-Any : {A : Type 0} (o : Option A) → is_some o ≡ true → Returns Any (deref o)
deref-Any none h = cc
deref-Any (some a) h = tt

module _ {O S : Type 0} (family : String) (packages : Packages) (client : LeafClient O S)
    (listers : Listers O) where
  index_zero-Any : (xs : List String) → xs ≢ [] → Returns Any (index_zero family packages client xs)
  unfolding index_zero
  index_zero-Any [] h = absurd (h refl)
  index_zero-Any (x ∷ xs) h = tt

  check_service_type-Any :
      (service : Service O)
      → IsStored service
      → Returns Any (check_service_type family packages client service)
  unfolding check_service_type
  check_service_type-Any service (policy, listed) =
      Returns-bind Any Any (deref service.ip_family_policy) _
        (deref-Any service.ip_family_policy policy)
        (λ p _.
          Returns-if Any (p == "SingleStack") _ (returns true)
            (λ _.
              Returns-bind Any Any (index_zero family packages client (items service.ip_families)) _
                (index_zero-Any (items service.ip_families) listed) (λ _ _. tt))
            (λ _. tt))

  generate_service-Any :
      (service : Service O) (i : ServiceImport)
      → IsStored service
      → Returns Any (generate_service family packages client service i)
  unfolding generate_service family_policy
  generate_service-Any service i (policy, listed) =
      Returns-bind Any Any (family_policy family packages client service) _
        (Returns-if Any _ (deref service.ip_family_policy) (returns "SingleStack")
          (λ _. deref-Any service.ip_family_policy policy) (λ _. tt))
        (λ _ _. tt)

  import_service_handler-Any :
      (service : Service O) (i : ServiceImport) (s : S)
      → IsStored service
      → Returns Any (import_service_handler family packages client service i s)
  unfolding import_service_handler
  import_service_handler-Any service i s stored =
      Returns-bind Any Any (check_service_type family packages client service) _
        (check_service_type-Any service stored)
        (λ ok _.
          Returns-if Any ok _ (returns (none, s))
            (λ _.
              Returns-bind Any Any (generate_service family packages client service i) _
                (generate_service-Any service i stored) (λ _ _. tt))
            (λ _. tt))

  sync_service_import-Any :
      (i : ServiceImport) (s : S)
      → AllStored listers
      → Returns Any (sync_service_import family packages client listers i s)
  unfolding sync_service_import
  sync_service_import-Any i s stored =
      sum-cases (Returns Any) (listers.root_service i.namespace i.name) _ _ (λ e _. tt)
        (λ root found.
          Returns-bind Any Any (import_service_handler family packages client root i s) _
            (import_service_handler-Any root i s (stored i.namespace i.name root found))
            (λ _ _. tt))

  -- A round returns.
  pub reconcile-Returns :
      (namespace name : String) (s : S)
      → AllStored listers
      → Returns (λ _. Unit {0}) (reconcile family packages client listers namespace name s)
  unfolding reconcile reconcile_found
  reconcile-Returns namespace name s stored =
      sum-cases (Returns Any) (listers.service_import namespace name) _ _ (λ e _. tt)
        (λ i _.
          Returns-if Any i.is_deleting _ _ (λ _. tt)
            (λ _.
              Returns-bind Any Any (sync_service_import family packages client listers i s) _
                (sync_service_import-Any i s stored) (λ _ _. tt)))
