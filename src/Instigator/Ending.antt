-- ===== src/Instigator/Ending.antt =====
-- That handling a configuration ends.
use rudr.Prelude.{
  ℕ, suc, ◌≤◌, String, ◌≡◌, ap, inl, inr, ◌||◌, not, Option, none, some, List, ok, Result,
  Bool-cases, Option-cases, arith,
}
use rudr.BTreeMap
use rudr.Lifecycle.{Phase, is_delete}
use rudr.Cluster.{OwnerReference}
use rudr.Configuration.{OpResource}
use rudr.Client.{Server, Request, Error, pure, from_result}
use rudr.Client.Laws.{>>=-ok, >>-ok, >>-pure_ok}
use rudr.Instigator.Setting.{Platform}
use rudr.Instigator.StatusPatch.{IsQuietAfter, retry_patch_status_ends}
use rudr.Instigator.Execution.{
  Progress, conclude, exec_configuration, exec, with_phase, record_annotation,
}

-- The action is still running when its fuel is spent.
abbrev pub IsRunning : Result Error (Option (Unit {0})) × List Request → Type 0
IsRunning p = (l : List Request) × (p ≡ (ok none, l))

module _ (platform : Platform) (server : Server) (namespace : String) (n fuel : ℕ)
    (quiet : IsQuietAfter server n) (enough : n ≤ fuel) where
  conclude_ends :
      (o : OpResource) (s : Progress) (log : List Request)
      → ¬ IsRunning (conclude platform server namespace (suc fuel) o s log)
  unfolding conclude pure
  conclude_ends o s log (l', h) =
      elim (Bool-cases (
        not (s.component_updated || not (BTreeMap.is_empty s.last_components))
        || is_delete s.phase)) [
          | inl idle ↦ cc (ap (λ p. p.0) (rw (conclude, idle) at h))
          | inr busy ↦
              let (text, l, printed, patched) =
                >>=-ok (from_result (platform.print_records s.new_components)) _ log l' none
                  (rw (conclude, busy) at h) in
              retry_patch_status_ends server namespace o.metadata.name
                (some (with_phase s.phase o.status))
                (some (BTreeMap.insert record_annotation text o.metadata.annotations)) n fuel o l
                quiet (omega arith) (ap (λ p. p.0) patched)
        ]

  exec_configuration_ends :
      (o : OpResource) (owner : OwnerReference) (phase : Phase) (log : List Request)
      → ¬ IsRunning (exec_configuration platform server namespace (suc fuel) o owner phase log)
  unfolding exec_configuration
  exec_configuration_ends o owner phase log (l', h) =
      let (last, l, _, looped) = >>=-ok _ _ log l' none h in
      let (s, k, _, rest) = >>=-ok _ _ l l' none looped in
      let (j, concluded) = >>-ok _ _ k l' none rest in conclude_ends o s j (l', concluded)

  pub exec_ends :
      (o : OpResource) (phase : Phase) (log : List Request)
      → ¬ IsRunning (exec platform server namespace (suc fuel) o phase log)
  unfolding exec
  exec_ends o phase log (l', h) =
      let (owner, l, _, rest) = >>=-ok _ _ log l' none h in
      elim (Option-cases o.spec.scopes) [
        | inl absent ↦ exec_configuration_ends o owner phase l (l', rw absent at rest)
        | inr (scopes, present) ↦
            let same : some tt ≡ none = >>-pure_ok _ _ none l l' (rw present at rest) in cc same
      ]
