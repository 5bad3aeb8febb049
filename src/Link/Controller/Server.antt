-- ===== src/Link/Controller/Server.antt =====
-- A client whose writes work, and what the two loops of the controller leave of one object.
use kosmos.Base.{
  String, ◌≡◌, refl, sym, ◌∙◌, ap, ◌⊎◌, inl, inr, true, false, ◌==◌, eq_iff, Option, none, some,
  is_some, List, [], ◌∷◌, any, In, Bool-cases, arith, if◌then◌else◌,
}
use kosmos.Base.Dict
use kosmos.Base.Dict.{Dict}
use kosmos.Api.Config
use kosmos.Api.Config.{NodeConfigSpec}
use kosmos.Link.Context.{NodeConfig, convert_to_node_config_spec}
use kosmos.Link.Controller.{
  Object, Client, Result, finished, requeue_after, mutate_node_config, clear_node_configs,
  write_node_configs,
}

-- The client's writes succeed, and change the one object that they name; `view` reads an object.
pub record IsServer {S : Type 0} (view : S → String → Option NodeConfigSpec) (client : Client S)
    : Type 0 where
  pub marshals : (spec : NodeConfigSpec) → is_some (client.marshal spec) ≡ true
  pub deletes :
      (name k : String) (s : S)
      → view (client.delete name s).1 k ≡ (if name == k then none else view s k)
  pub writes_succeed :
      (name : String) (f : Object → Option Object) (s : S)
      → ((o : Object) → is_some (f o) ≡ true)
      → (client.create_or_update name f s).0 ≡ none
  pub writes :
      (name k : String) (f : Object → Option Object) (s : S) (spec : NodeConfigSpec)
      → ((o : Object) → (p : Object) × (f o ≡ some p) × (p.spec ≡ spec))
      → view (client.create_or_update name f s).1 k ≡ (if name == k then some spec else view s k)

same_name :
    (n k : String) (results : Dict NodeConfig)
    → n ≡ k
    → Dict.lookup n results ≡ Dict.lookup k results
same_name n k results e = ap (λ n. Dict.lookup n results) e

module _ {S : Type 0} (view : S → String → Option NodeConfigSpec) (client : Client S)
    (ok : IsServer view client) where
  mutated :
      (config : NodeConfig) (o : Object)
      → (p : Object) × (mutate_node_config client config o ≡ some p)
        × (p.spec ≡ convert_to_node_config_spec config)
  unfolding mutate_node_config
  mutated config o = marshalled (client.marshal o.spec) (ok.marshals o.spec)
    where
      marshalled :
          (r : Option String)
          → is_some r ≡ true
          → (p : Object) × ((elim r [
            | none ↦ none
            | some str_old ↦ some (record {
              annotations = ("prev", str_old) ∷ [];
              spec = convert_to_node_config_spec config;
            })
          ])
              ≡ some p)
            × (p.spec ≡ convert_to_node_config_spec config)
      marshalled none h = cc
      marshalled (some str_old) h = (
        record { annotations = ("prev", str_old) ∷ []; spec = convert_to_node_config_spec config },
        refl,
        refl,
      )

  -- Names that are neither calculated nor listed stay absent, and the listed ones that are not
  -- calculated go.
  pub view-clear_node_configs :
      (ncs : List Config.NodeConfig) (results : Dict NodeConfig) (s : S) (k : String)
      → view (clear_node_configs client ncs results s) k ≡ (
          if is_some (Dict.lookup k results)
          then view s k
          else if any (λ (nc : Config.NodeConfig). nc.name == k) ncs
          then none
          else view s k)
  unfolding clear_node_configs
  view-clear_node_configs [] results s k = ground arith
  view-clear_node_configs (nc ∷ ncs) results s k =
      elim (Bool-cases (is_some (Dict.lookup nc.name results))) [
        | inl e ↦
            let rest = view-clear_node_configs ncs results s k in
            rw (e, if◌then◌else◌)
              (ground (arith, e, rest, eq_iff nc.name k, same_name nc.name k results))
        | inr e ↦
            let rest = view-clear_node_configs ncs results (client.delete nc.name s).1 k in
            rw (e, if◌then◌else◌)
              (ground (
                arith,
                e,
                rest,
                eq_iff nc.name k,
                same_name nc.name k results,
                ok.deletes nc.name k s,
              ))
      ]

  -- What a write loop leaves of one name.
  abbrev pub Written : Dict NodeConfig → S → String → Result × Option String × S → Type 0
  Written results s k (r, e, t) =
      (r ≡ finished)
      × (e ≡ none)
      × (((config : NodeConfig) × In (k, config) results
            × (view t k ≡ some (convert_to_node_config_spec config)))
          ⊎ ((is_some (Dict.lookup k results) ≡ false) × (view t k ≡ view s k)))

  Written-grow :
      (name : String) (config : NodeConfig) (results : Dict NodeConfig) (s t : S) (k : String)
      (r : Result × Option String × S)
      → view t k ≡ (if name == k then some (convert_to_node_config_spec config) else view s k)
      → Written results t k r
      → Written ((name, config) ∷ results) s k r
  unfolding Dict.lookup
  Written-grow name config results s t k r e w = (
    w.0,
    w.1,
    elim w.2 [
      | inl (c, m, v) ↦ inl (c, inr m, v)
      | inr (absent, v) ↦ elim (Bool-cases (name == k)) [
        | inl same ↦ inl (
          config,
          inl (ap (λ n. (n, config)) (sym ((eq_iff name k).0 same))),
          v ∙ e ∙ rw same refl,
        )
        | inr other ↦ inr (rw (other, if◌then◌else◌) absent, v ∙ e ∙ rw other refl)
      ]
    ],
  )

  Written-continue :
      (name : String) (config : NodeConfig) (results : Dict NodeConfig) (s : S) (k : String)
      (q : Option String × S)
      → q.0 ≡ none
      → Written ((name, config) ∷ results) s k (write_node_configs client results q.1)
      → Written ((name, config) ∷ results) s k (elim q.0 [
        | none ↦ write_node_configs client results q.1
        | some e ↦ (requeue_after, some e, q.1)
      ])
  Written-continue name config results s k (none, t) e w = w
  Written-continue name config results s k (some err, t) e w = cc

  pub write_node_configs-Written :
      (results : Dict NodeConfig) (s : S) (k : String)
      → Written results s k (write_node_configs client results s)
  unfolding write_node_configs Dict.lookup
  write_node_configs-Written [] s k = (refl, refl, inr (refl, refl))
  write_node_configs-Written ((name, config) ∷ results) s k =
      let q = client.create_or_update name (mutate_node_config client config) s in
      let succeeds =
        ok.writes_succeed name (mutate_node_config client config) s
          (λ o. let m = mutated config o in ap is_some m.1) in
      let there = ok.writes name k (mutate_node_config client config) s _ (mutated config) in
      Written-continue name config results s k q succeeds (
        Written-grow name config results s q.1 k _ there (write_node_configs-Written results q.1 k))
