-- ===== src/Instigator/Membership.antt =====
-- Which scopes a component can be put into.
use rudr.Prelude.{
  String, ◌≡◌, ap, inl, inr, Bool, List, [], ◌∷◌, ◌++◌, ok, All, All-append, Bool-cases,
  Option-cases, unwrap_or,
}
use rudr.BTreeMap
use rudr.BTreeMap.{BTreeMap}
use rudr.Configuration.{ComponentConfiguration}
use rudr.Client.{Server, Request, pure, fail, resume, ◌>>=◌, ◌>>◌}
use rudr.Client.Laws.{>>=-ok}
use rudr.Scopes
use rudr.Scopes.{OamScope, health, network, allow_overlap, scope_type}
use rudr.Scopes.NetworkOps
use rudr.Instigator.Setting.{Platform, get_scope_instance}
use rudr.Instigator.Binding.{bind_scope, bind_loaded, bind_names, bind_component}

abbrev pub IsHealthScope : OamScope → Type 0
IsHealthScope (health _) = Unit
IsHealthScope (network _) = ⊥

module _ (platform : Platform) (server : Server) (namespace : String) where
  -- The scopes that were loaded for the names, in their order.
  pub data Loaded : List String → List OamScope → Type 0 where
    none_loaded : Loaded [] []
    one_loaded :
        (sc : String) (scopes : List OamScope) (names : List String) (others : List OamScope)
        (log l' : List Request)
        → get_scope_instance platform server namespace sc log ≡ (ok scopes, l')
        → Loaded names others
        → Loaded (sc ∷ names) (scopes ++ others)

module _ (platform : Platform) (server : Server) (namespace : String)
    (component : ComponentConfiguration) where
  bind_scope-health :
      (sc : String) (s : OamScope) (taken t : BTreeMap Bool) (log l' : List Request)
      → bind_scope platform server namespace component sc s taken log ≡ (ok t, l')
      → IsHealthScope s
  unfolding bind_scope fail Scopes.add NetworkOps.add resume ◌>>=◌ ◌>>◌
  bind_scope-health sc (health h) taken t log l' e = tt
  bind_scope-health sc (network n) taken t log l' e =
      elim (Bool-cases (allow_overlap (network n))) [
        | inl allowed ↦ cc (ap (λ p. p.0) (rw (bind_scope, allowed) at e))
        | inr exclusive ↦ elim (Option-cases (BTreeMap.get (scope_type (network n)) taken)) [
          | inl free ↦ cc (ap (λ p. p.0) (rw (bind_scope, exclusive, free) at e))
          | inr (b, held) ↦ cc (ap (λ p. p.0) (rw (bind_scope, exclusive, held) at e))
        ]
      ]

  bind_loaded-health :
      (sc : String) (scopes : List OamScope) (taken t : BTreeMap Bool) (log l' : List Request)
      → bind_loaded platform server namespace component sc scopes taken log ≡ (ok t, l')
      → All IsHealthScope scopes
  unfolding bind_loaded
  bind_loaded-health sc [] taken t log l' h = tt
  bind_loaded-health sc (s ∷ scopes) taken t log l' h =
      let (u, l, first, rest) = >>=-ok _ _ log l' t h in
      (bind_scope-health sc s taken u log l first, bind_loaded-health sc scopes u t l l' rest)

  bind_names-health :
      (names : List String) (taken t : BTreeMap Bool) (log l' : List Request)
      → bind_names platform server namespace component names taken log ≡ (ok t, l')
      → (bound : List OamScope) × Loaded platform server namespace names bound
        × All IsHealthScope bound
  unfolding bind_names
  bind_names-health [] taken t log l' h = ([], none_loaded, tt)
  bind_names-health (sc ∷ names) taken t log l' h =
      let (scopes, l, loaded, rest) = >>=-ok _ _ log l' t h in
      let (u, k, first, last) = >>=-ok _ _ l l' t rest in
      let (others, all_loaded, later) = bind_names-health names u t k l' last in
      (
        scopes ++ others,
        one_loaded sc scopes names others log l loaded all_loaded,
        All-append IsHealthScope scopes others (bind_loaded-health sc scopes taken u l k first)
            later,
      )

-- When a component is put into its application scopes, then every scope that its names load is a
-- health scope: no component can be put into a network scope.
pub bind_component-health :
    (platform : Platform) (server : Server) (namespace : String)
    (component : ComponentConfiguration) (log l' : List Request)
    → bind_component platform server namespace component log ≡ (ok tt, l')
    → (bound : List OamScope) × Loaded platform server namespace
        (unwrap_or component.application_scopes [])
        bound
      × All IsHealthScope bound
unfolding bind_component
bind_component-health platform server ns component log l' h =
    let (t, l, bound_all, _) = >>=-ok _ (λ _. pure tt) log l' tt h in
    bind_names-health platform server ns component (unwrap_or component.application_scopes []) [] t
      log l bound_all
