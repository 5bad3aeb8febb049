-- ===== src/Tree/Services/Exported.antt =====
-- Which endpoint slices of the host cluster are marked after a round of the export.
use kosmos.Base.{if-cases, option-cases, sum-cases}
use kosmos.Base.{
  String, ◌≡◌, sym, subst, ◌∙◌, inl, inr, true, ◌&&◌, Option, none, some, arith, eq_iff, ◌==◌,
  Bool-cases, Option-cases,
}
use kosmos.Base.Dict.{Dict}
use kosmos.Tree.Services.{ApiError, EndpointSlice, Packages}
use kosmos.Tree.Services.Import.{is_not_found}
use kosmos.Tree.Services.Leaf.{IsRetry}
use kosmos.Tree.Services.Export.{ServiceExport, RootClient, try_mark_slice}

-- The host cluster holds the annotations of a slice under its namespace and name: a write that succeeds
-- changes those of its slice alone, one that fails changes nothing, and the error that a slice is not found
-- is true.
pub record IsHost {O S : Type 0} (view : S → String → String → Option (Option (Dict String)))
    (client : RootClient O S) : Type 0 where
  pub writes :
      (x : EndpointSlice O) (s : S)
      → (client.write_slice x s).0 ≡ none
      → view (client.write_slice x s).1 x.namespace x.name ≡ some x.annotations
  pub others :
      (x : EndpointSlice O) (s : S) (namespace name : String)
      → ¬ ((x.namespace ≡ namespace) × (x.name ≡ name))
      → view (client.write_slice x s).1 namespace name ≡ view s namespace name
  pub fails :
      (x : EndpointSlice O) (s : S) (e : ApiError) (namespace name : String)
      → (client.write_slice x s).0 ≡ some e
      → view (client.write_slice x s).1 namespace name ≡ view s namespace name
  pub not_there :
      (x : EndpointSlice O) (s : S) (e : ApiError)
      → (client.write_slice x s).0 ≡ some e
      → is_not_found e ≡ true
      → view (client.write_slice x s).1 x.namespace x.name ≡ none
  pub reads :
      (namespace name : String) (y : EndpointSlice O) (s : S)
      → client.read_slice namespace name s ≡ inr y
      → (y.namespace ≡ namespace) × (y.name ≡ name)
  pub absent :
      (namespace name : String) (e : ApiError) (s : S)
      → client.read_slice namespace name s ≡ inl e
      → is_not_found e ≡ true
      → view s namespace name ≡ none
  pub reads_export :
      (namespace name : String) (y : ServiceExport) (s : S)
      → client.read_export namespace name s ≡ inr y
      → (y.namespace ≡ namespace) × (y.name ≡ name)
  pub exports :
      (x : ServiceExport) (s : S) (namespace name : String)
      → view (client.write_export x s).1 namespace name ≡ view s namespace name

module _ {O S : Type 0} (packages : Packages) (client : RootClient O S)
    (view : S → String → String → Option (Option (Dict String))) (retry : IsRetry packages)
    (host : IsHost view client) (modify : Option (Dict String) → Option (Dict String))
    (Good : Option (Dict String) → Type 0)
    (good : (a : Option (Dict String)) → Good (modify a)) where
  -- What the cluster has under the name, if anything, is good.
  abbrev pub Done : String → String → S → Type 0
  Done namespace name s = (a : Option (Dict String)) → view s namespace name ≡ some a → Good a

  pub Done-same :
      (namespace name : String) (s t : S)
      → view t namespace name ≡ view s namespace name
      → Done namespace name s
      → Done namespace name t
  Done-same namespace name s t e h a q = h a (sym e ∙ q)

  Done-none :
      (namespace name : String) (t : S) → view t namespace name ≡ none → Done namespace name t
  Done-none namespace name t e a q = absurd (ground (arith, e, q))

  abbrev changed : EndpointSlice O → EndpointSlice O
  changed x = record x { annotations = modify x.annotations }

  written :
      (x : EndpointSlice O) (s : S)
      → (client.write_slice (changed x) s).0 ≡ none
      → Done x.namespace x.name (client.write_slice (changed x) s).1
  written x s ok a q =
      let e : modify x.annotations ≡ a =
        (let w = host.writes (changed x) s ok in ground (arith, w, q)) in
      subst Good e (good x.annotations)

  write-keeps :
      (namespace name : String) (x : EndpointSlice O) (s : S)
      → Done namespace name s
      → Done namespace name (client.write_slice (changed x) s).1
  write-keeps namespace name x s h = elim (Option-cases (client.write_slice (changed x) s).0) [
    | inr (e, failed) ↦
        Done-same namespace name s _ (host.fails (changed x) s e namespace name failed) h
    | inl ok ↦ elim (Bool-cases (x.namespace == namespace && x.name == name)) [
      | inl same ↦
          let p : x.namespace ≡ namespace = ground (arith, same, eq_iff x.namespace namespace) in
          let q : x.name ≡ name = ground (arith, same, eq_iff x.name name) in
          subst (λ n. Done namespace n (client.write_slice (changed x) s).1) q
            (subst (λ n. Done n x.name (client.write_slice (changed x) s).1) p (written x s ok))
      | inr differ ↦
          Done-same namespace name s _
            (host.others (changed x) s namespace name (λ (p, q).
              ground (arith, differ, eq_iff x.namespace namespace, eq_iff x.name name, p, q)))
            h
    ]
  ]

  pub try-keeps :
      (namespace name : String) (r : EndpointSlice O × S)
      → Done namespace name r.1
      → Done namespace name (try_mark_slice packages client modify r).1.1
  unfolding try_mark_slice
  try-keeps namespace name (x, s) h =
      let after = write-keeps namespace name x s h in
      let P : Option ApiError × (EndpointSlice O × S) → Type 0 = λ r. Done namespace name r.1.1 in
      option-cases P (client.write_slice (changed x) s).0 _ _ (λ _. after)
        (λ e _.
          if-cases P (is_not_found e) _ _ (λ _. after)
            (λ _.
              sum-cases P
                (client.read_slice x.namespace x.name (client.write_slice (changed x) s).1) _ _
                (λ g _. after) (λ y _. after)))

  -- The slice keeps its name.
  unfoldable pub Named : String → String → EndpointSlice O × S → Type 0
  Named namespace name (x, s) = (x.namespace ≡ namespace) × (x.name ≡ name)

  pub try-Named :
      (namespace name : String) (r : EndpointSlice O × S)
      → Named namespace name r
      → Named namespace name (try_mark_slice packages client modify r).1
  unfolding try_mark_slice Named
  try-Named namespace name (x, s) h =
      let P : Option ApiError × (EndpointSlice O × S) → Type 0 = λ r. Named namespace name r.1 in
      let t = (client.write_slice (changed x) s).1 in
      option-cases P (client.write_slice (changed x) s).0 _ _ (λ _. h)
        (λ e _.
          if-cases P (is_not_found e) _ _ (λ _. h)
            (λ _.
              sum-cases P (client.read_slice x.namespace x.name t) _ _ (λ g _. h)
                (λ y read.
                  let (p, q) = host.reads x.namespace x.name y t read in (p ∙ h.0, q ∙ h.1))))

  -- An attempt that succeeds leaves the slice done.
  pub try-Done :
      (x : EndpointSlice O) (s : S)
      → (try_mark_slice packages client modify (x, s)).0 ≡ none
      → Done x.namespace x.name (try_mark_slice packages client modify (x, s)).1.1
  unfolding try_mark_slice
  try-Done x s =
      let P : Option ApiError × (EndpointSlice O × S) → Type 0 =
        λ r. r.0 ≡ none → Done x.namespace x.name r.1.1 in
      let t = (client.write_slice (changed x) s).1 in
      option-cases P (client.write_slice (changed x) s).0 _ _ (λ ok _. written x s ok)
        (λ e failed.
          if-cases P (is_not_found e) _ _
            (λ nf _. Done-none x.namespace x.name t (host.not_there (changed x) s e failed nf))
            (λ _.
              sum-cases P (client.read_slice x.namespace x.name t) _ _
                (λ g read.
                  if-cases (λ (o : Option ApiError). o ≡ none → Done x.namespace x.name t)
                    (is_not_found g) none (some e)
                    (λ nf _.
                      Done-none x.namespace x.name t (host.absent x.namespace x.name g t read nf))
                    (λ _ q. absurd (ground (arith, q))))
                (λ y read q. absurd (ground (arith, q)))))
