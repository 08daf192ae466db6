-- ===== src/Instigator/Laws.antt =====
-- Names and owners of component instances, and the scopes that are loaded.
use text.Mathlib.TextLemmas.{append_assoc}
use rudr.Prelude.{
  String, ◌<>◌, ◌≡◌, ◌==◌, refl, ◌↔◌, ◌⊎◌, inl, inr, true, List, [], ◌∷◌, ◌++◌, map, ok, err,
  Result-cases, Bool-cases, arith, eq_iff, unwrap_or,
}
use rudr.Json.{Serde}
use rudr.Cluster.{KubeError, contains}
use rudr.Configuration.{ApplicationConfiguration, ScopeBinding}
use rudr.Parameter.{ParameterValue}
use rudr.Variable.{Variable}
use rudr.Client.{
  Server, Request, component_instances, delete, request, pure, fail, handle, unwrap_or_else,
}
use rudr.Scopes.HealthOps
use rudr.Scopes.NetworkOps
use rudr.Scopes.{OamScope, scope_type, load_scope_by_type}
use rudr.Instigator.{combine_name, binding_values, load_bindings, load_scopes}
use rudr.Instigator.Instances.{ignore_missing, delete_component_instance}

-- The component `a-b` with the instance `c` and the component `a` with the instance `b-c` have one
-- combined name, so one instance object.
pub combine_name_collision :
    (a b c : String) → combine_name (a <> ("-" <> b)) c ≡ combine_name a (b <> ("-" <> c))
unfolding combine_name
combine_name_collision a b c = simp append_assoc

-- Deleting a component instance makes one request, and succeeds exactly when the server accepts it
-- or its refusal says that the object is not found.
pub delete_component_instance_lem :
    (server : Server) (namespace component_name instance_name : String) (log : List Request)
    → let r = delete namespace component_instances (combine_name component_name instance_name) in
      ((delete_component_instance server namespace component_name instance_name log).1
        ≡ log ++ (r ∷ []))
      × (((delete_component_instance server namespace component_name instance_name log).0 ≡ ok tt)
          ↔ ((server.accept log r ≡ ok tt)
              ⊎ ((e : KubeError) × (server.accept log r ≡ err e)
                  × (contains "NotFound" e.text ≡ true))))
unfolding delete_component_instance unwrap_or_else handle request ignore_missing pure fail
delete_component_instance_lem server ns c i log =
    elim (Result-cases (server.accept log (delete ns component_instances (combine_name c i)))) [
      | inl (u, e) ↦
          rw (delete_component_instance, unwrap_or_else, request, e)
            (refl, (λ _. inl refl, λ _. refl))
      | inr (x, e) ↦
          rw (delete_component_instance, unwrap_or_else, request, e)
            (elim (Bool-cases (contains "NotFound" x.text)) [
              | inl missing ↦ rw missing (refl, (λ _. inr (x, refl, missing), λ _. refl))
              | inr other ↦
                  rw other
                    (refl, (λ h. cc h, λ h. elim h [ inl p ↦ cc p | inr (y, p, q) ↦ ground arith ]))
            ])
    ]

load_scope_by_type-type :
    (serde : Serde) (namespace instance_name type_ : String) (param : List ParameterValue)
    (scope : OamScope)
    → load_scope_by_type serde namespace instance_name type_ param ≡ ok scope
    → scope_type scope ≡ type_
unfolding load_scope_by_type scope_type
load_scope_by_type-type serde ns inst t param scope h =
    elim (Bool-cases (t == "core.oam.dev/v1alpha1.NetworkScope")) [
      | inl at_network ↦ elim (Result-cases (NetworkOps.from_params inst ns param)) [
        | inl (n, e) ↦ ground (arith, eq_iff t "core.oam.dev/v1alpha1.NetworkScope")
        | inr (x, e) ↦ ground arith
      ]
      | inr not_network ↦ elim (Result-cases (HealthOps.from_params serde inst ns param)) [
        | inl (n, e) ↦ ground (arith, eq_iff t "core.oam.dev/v1alpha1.HealthScope")
        | inr (x, e) ↦ ground arith
      ]
    ]

load_bindings-types :
    (serde : Serde) (namespace instance_name : String) (variables : List Variable)
    (bs : List ScopeBinding) (scopes : List OamScope)
    → load_bindings serde namespace instance_name variables bs ≡ ok scopes
    → map scope_type scopes ≡ map (λ (b : ScopeBinding). b.scope_type) bs
unfolding load_bindings
load_bindings-types serde ns inst vars [] scopes h = ground arith
load_bindings-types serde ns inst vars (b ∷ bs) scopes h =
    elim (Result-cases (binding_values vars b.parameter_values)) [
      | inl (param, e) ↦ elim (Result-cases (load_scope_by_type serde ns inst b.scope_type param)) [
        | inl (sc, e') ↦ elim (Result-cases (load_bindings serde ns inst vars bs)) [
          | inl (scs, e'') ↦ ground (
            arith,
            load_scope_by_type-type serde ns inst b.scope_type param sc e',
            load_bindings-types serde ns inst vars bs scs e'',
          )
          | inr (x, e'') ↦ ground arith
        ]
        | inr (x, e') ↦ ground arith
      ]
      | inr (x, e) ↦ ground arith
    ]

-- Each loaded scope is of the type that its binding names, in the order of the bindings.
pub scope_type-load_scopes :
    (serde : Serde) (namespace instance_name : String) (variables : List Variable)
    (spec : ApplicationConfiguration) (scopes : List OamScope)
    → load_scopes serde namespace instance_name variables spec ≡ ok scopes
    → map scope_type scopes ≡ map (λ (b : ScopeBinding). b.scope_type) (unwrap_or spec.scopes [])
unfolding load_scopes
scope_type-load_scopes serde ns inst vars spec scopes h =
    load_bindings-types serde ns inst vars (unwrap_or spec.scopes []) scopes h
