-- ===== src/Scopes/Patching.antt =====
-- What adding and removing a component asks of the server.
use rudr.Prelude.{◌≡◌, refl, List, [], ◌∷◌, ◌++◌, Result, ok, err, Result-cases, inl, inr, ◌⊎◌}
use rudr.Configuration.{ComponentConfiguration}
use rudr.Cluster.{KubeError}
use rudr.HealthScope.{HealthScopeObject}
use rudr.Client.{
  health_scope, health_scopes, get, patch, Server, Request, Error, kube, request, ◌>>=◌, resume,
}
use rudr.Scopes.HealthOps.{Health, add_to, remove_from, get_obj, patch_obj, add, remove}

-- The object is read and, changed by `f`, patched: both succeed, or the first or the second fails
-- with the server's error, and then nothing more is asked.
abbrev pub ReadsAndPatches :
    Server
    → Health
    → (HealthScopeObject → HealthScopeObject)
    → List Request
    → Result Error (Unit {0}) × List Request
    → Type 0
ReadsAndPatches server self f log outcome =
    let read : Request = get self.namespace health_scopes self.name in
    let write : HealthScopeObject → Request =
      λ obj. patch self.namespace health_scopes self.name (health_scope (f obj)) in
    ((e : KubeError) × (server.read_health_scope log read ≡ err e)
      × (outcome ≡ (err (kube e), log ++ (read ∷ []))))
    ⊎ ((obj : HealthScopeObject) × (server.read_health_scope log read ≡ ok obj)
        × (((server.accept (log ++ (read ∷ [])) (write obj) ≡ ok tt)
              × (outcome ≡ (ok tt, (log ++ (read ∷ [])) ++ (write obj ∷ []))))
            ⊎ ((e : KubeError) × (server.accept (log ++ (read ∷ [])) (write obj) ≡ err e)
                × (outcome ≡ (err (kube e), (log ++ (read ∷ [])) ++ (write obj ∷ []))))))

reads_and_patches :
    (server : Server) (self : Health) (f : HealthScopeObject → HealthScopeObject)
    (log : List Request)
    → ReadsAndPatches server self f log
        ((get_obj server self >>= λ obj. patch_obj server self (f obj)) log)
unfolding get_obj patch_obj ◌>>=◌ resume request
reads_and_patches server self f log =
    let read : Request = get self.namespace health_scopes self.name in
    elim (Result-cases (server.read_health_scope log read)) [
      | inr (e, failed) ↦ inl (e, failed, rw failed refl)
      | inl (obj, found) ↦
          let write : Request =
            patch self.namespace health_scopes self.name (health_scope (f obj)) in
          inr (
            obj,
            found,
            elim (Result-cases (server.accept (log ++ (read ∷ [])) write)) [
              | inl (u, accepted) ↦ inl (accepted, rw (found, accepted) refl)
              | inr (e, refused) ↦ inr (e, refused, rw (found, refused) refl)
            ],
          )
    ]

-- Adding or removing a component reads the scope's object once and patches it once with the
-- component added or removed; an error of either request is returned, and after an error of the
-- first nothing is patched.
pub membership_requests :
    (server : Server) (self : Health) (spec : ComponentConfiguration) (log : List Request)
    → ReadsAndPatches server self (add_to spec) log (add server self spec log)
      × ReadsAndPatches server self (remove_from spec) log (remove server self spec log)
unfolding add remove
membership_requests server self spec log = (
  reads_and_patches server self (add_to spec) log,
  reads_and_patches server self (remove_from spec) log,
)
