-- ===== src/Instigator/Binding.antt =====
-- The parts of `exec` that put a component into its application scopes and take it out of them.
use rudr.Prelude.{String, ◌<>◌, Bool, true, none, some, List, [], ◌∷◌, unwrap_or, if◌then◌else◌}
use rudr.BTreeMap
use rudr.BTreeMap.{BTreeMap}
use rudr.Configuration.{ComponentConfiguration}
use rudr.Client.{Server, message, Action, pure, fail, ◌>>=◌, ◌>>◌}
use rudr.Scopes
use rudr.Scopes.{OamScope, allow_overlap, scope_type}
use rudr.Instigator.Setting.{Platform, get_scope_instance}

module _ (platform : Platform) (server : Server) (namespace : String)
    (component : ComponentConfiguration) where
  -- `scope_overlap` holds the types that allow no overlap and are taken.
  unfoldable pub bind_scope : String → OamScope → BTreeMap Bool → Action (BTreeMap Bool)
  bind_scope sc scope scope_overlap =
      if allow_overlap scope
      then Scopes.add server scope component >> pure scope_overlap
      else elim (BTreeMap.get (scope_type scope) scope_overlap) [
        | some _ ↦
            fail
              (message ("scope " <> (sc <> (" " <> (scope_type scope <> " do not allow overlap")))))
        | none ↦
            Scopes.add server scope component
            >> pure (BTreeMap.insert (scope_type scope) true scope_overlap)
      ]

  unfoldable pub bind_loaded : String → List OamScope → BTreeMap Bool → Action (BTreeMap Bool)
  unfolding bind_scope
  bind_loaded sc [] scope_overlap = pure scope_overlap
  bind_loaded sc (scope ∷ scopes) scope_overlap =
      bind_scope sc scope scope_overlap >>= bind_loaded sc scopes

  unfoldable pub bind_names : List String → BTreeMap Bool → Action (BTreeMap Bool)
  unfolding bind_loaded
  bind_names [] scope_overlap = pure scope_overlap
  bind_names (sc ∷ names) scope_overlap = do
    scopes ← get_scope_instance platform server namespace sc
    taken ← bind_loaded sc scopes scope_overlap
    bind_names names taken

  unfoldable pub bind_component : Action (Unit {0})
  unfolding bind_names
  bind_component = bind_names (unwrap_or component.application_scopes []) [] >>= λ _. pure tt

  -- Taking a component that is gone out of its scopes.
  unfoldable pub remove_all : List OamScope → Action (Unit {0})
  remove_all [] = pure tt
  remove_all (scope ∷ scopes) = Scopes.remove server scope component >> remove_all scopes

  unfoldable pub unbind_names : List String → Action (Unit {0})
  unfolding remove_all
  unbind_names [] = pure tt
  unbind_names (sc ∷ names) = do
    scopes ← get_scope_instance platform server namespace sc
    removed ← remove_all scopes
    unbind_names names

  unfoldable pub unbind_component : Action (Unit {0})
  unfolding unbind_names
  unbind_component = unbind_names (unwrap_or component.application_scopes [])
