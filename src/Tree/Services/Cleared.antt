-- ===== src/Tree/Services/Cleared.antt =====
-- Which addresses are imported.
use kosmos.Base.{
  String, ◌≡◌, refl, sym, ap, subst, ◌∙◌, ◌≢◌, ◌↔◌, inl, inr, true, not, List, [], ◌∷◌, arith,
  eq_iff, ◌==◌, Bool-cases, any, In, In-any, any-In, In-filter, filter-In, items,
}
use kosmos.Tree.Services.{
  Endpoint, EndpointSlice, clear_endpoint, clear_endpoints, clear_endpoint_slice,
}

listed :
    (address : String) (disconnected : List String)
    → any (λ name. name == address) disconnected ≡ true
    → In address disconnected
listed address disconnected h =
    let (name, i, e) = any-In (λ name. name == address) disconnected h in
    subst (λ n. In n disconnected) ((eq_iff name address).0 e) i

module _ {O : Type 0} where
  -- The address stands in one of the endpoints.
  abbrev pub Has : String → List (Endpoint O) → Type 0
  Has address endpoints = (e : Endpoint O) × In e endpoints × In address (items e.addresses)

  kept-address :
      (disconnected : List String) (e : Endpoint O) (address : String)
      → In address (items (clear_endpoint disconnected e).addresses)
        ↔ (In address (items e.addresses) × ¬ (In address disconnected))
  unfolding clear_endpoint
  kept-address disconnected e address = (
    λ i.
        let (there, h) =
          filter-In (λ a. not (any (λ name. name == a) disconnected)) address (items e.addresses)
            i in
        (
          there,
          λ j.
              let found =
                In-any (λ name. name == address) address disconnected j
                  ((eq_iff address address).1 refl) in
              ground (arith, h, found),
        ),
    λ (i, free).
        In-filter (λ a. not (any (λ name. name == a) disconnected)) address (items e.addresses) i
          (elim (Bool-cases (any (λ name. name == address) disconnected)) [
            | inl found ↦ absurd (free (listed address disconnected found))
            | inr h ↦ ground (arith, h)
          ]),
  )

  -- One endpoint of the cleared ones is one of the endpoints, cleared, and has an address.
  clear_endpoints-In :
      (disconnected : List String) (endpoints : List (Endpoint O)) (c : Endpoint O)
      → In c (clear_endpoints disconnected endpoints)
      → (e : Endpoint O) × In e endpoints
        × (c ≡ clear_endpoint disconnected e)
        × (items c.addresses ≢ [])
  unfolding clear_endpoints
  clear_endpoints-In disconnected [] c i = absurd i
  clear_endpoints-In disconnected (e ∷ endpoints) c i =
      by_addresses (items (clear_endpoint disconnected e).addresses) refl i
        (clear_endpoints-In disconnected endpoints c)
    where
      rest : List (Endpoint O)
      rest = clear_endpoints disconnected endpoints

      Found : List (Endpoint O) → Type 0
      Found es =
          (e : Endpoint O) × In e es
          × (c ≡ clear_endpoint disconnected e)
          × (items c.addresses ≢ [])

      by_addresses :
          (left : List String)
          → items (clear_endpoint disconnected e).addresses ≡ left
          → In c (elim left as (λ _. List (Endpoint O)) [
            | [] ↦ rest
            | _ ∷ _ ↦ clear_endpoint disconnected e ∷ rest
          ])
          → (In c rest → Found endpoints)
          → Found (e ∷ endpoints)
      by_addresses [] q i further = let (d, j, same, full) = further i in (d, inr j, same, full)
      by_addresses (a ∷ left) q (inl same) further = (
        e,
        inl refl,
        same,
        λ gone.
            let empty : a ∷ left ≡ [] =
              sym q ∙ sym (ap (λ (x : Endpoint O). items x.addresses) same) ∙ gone in
            cc,
      )
      by_addresses (a ∷ left) q (inr j) further =
          let (d, k, same, full) = further j in (d, inr k, same, full)

  In-clear_endpoints :
      (disconnected : List String) (endpoints : List (Endpoint O)) (e : Endpoint O)
      (address : String)
      → In e endpoints
      → In address (items (clear_endpoint disconnected e).addresses)
      → In (clear_endpoint disconnected e) (clear_endpoints disconnected endpoints)
  unfolding clear_endpoints
  In-clear_endpoints disconnected [] e address i h = absurd i
  In-clear_endpoints disconnected (x ∷ endpoints) e address i h =
      by_addresses (items (clear_endpoint disconnected x).addresses) refl i
        (λ j. In-clear_endpoints disconnected endpoints e address j h)
    where
      rest : List (Endpoint O)
      rest = clear_endpoints disconnected endpoints

      by_addresses :
          (left : List String)
          → items (clear_endpoint disconnected x).addresses ≡ left
          → In e (x ∷ endpoints)
          → (In e endpoints → In (clear_endpoint disconnected e) rest)
          → In (clear_endpoint disconnected e) (elim left as (λ _. List (Endpoint O)) [
            | [] ↦ rest
            | _ ∷ _ ↦ clear_endpoint disconnected x ∷ rest
          ])
      by_addresses [] q (inl same) further = absurd (
          subst (In address)
            (ap (λ (y : Endpoint O). items (clear_endpoint disconnected y).addresses) same ∙ q) h)
      by_addresses [] q (inr j) further = further j
      by_addresses (a ∷ left) q (inl same) further = inl (ap (clear_endpoint disconnected) same)
      by_addresses (a ∷ left) q (inr j) further = inr (further j)

  -- An address is left just where it was there and is not disconnected, and no endpoint is left without
  -- an address.
  pub clear_endpoint_slice-Cleared :
      (slice : EndpointSlice O) (disconnected : List String)
      → ((address : String)
          → Has address (items (clear_endpoint_slice slice disconnected).endpoints)
            ↔ (Has address (items slice.endpoints) × ¬ (In address disconnected)))
        × ((e : Endpoint O)
            → In e (items (clear_endpoint_slice slice disconnected).endpoints)
            → items e.addresses ≢ [])
  unfolding clear_endpoint_slice
  clear_endpoint_slice-Cleared slice disconnected = (
    λ address. (
      λ (c, i, j).
          let (e, there, same, _) = clear_endpoints-In disconnected (items slice.endpoints) c i in
          let (k, free) =
            (kept-address disconnected e address).0
              (subst (λ (x : Endpoint O). In address (items x.addresses)) same j) in
          ((e, there, k), free),
      λ (has, free).
          let (e, i, j) = has in
          let left = (kept-address disconnected e address).1 (j, free) in
          (
            clear_endpoint disconnected e,
            In-clear_endpoints disconnected (items slice.endpoints) e address i left,
            left,
          ),
    ),
    λ e i.
        let (_, _, _, full) = clear_endpoints-In disconnected (items slice.endpoints) e i in full,
  )
