-- ===== src/TraitManager/Isolation.antt =====
-- That a failing trait does not keep the others of a component from running.
use rudr.Prelude.{
  String, ◌≡◌, ◌≢◌, refl, ◌⊎◌, inl, inr, List, [], ◌∷◌, Result, ok, err, Any, Result-cases, arith,
}
use rudr.Lifecycle.{Phase}
use rudr.Traits.{OamTrait, autoscaler, manual_scaler, ingress, volume_mounter, empty}
use rudr.Cluster.{KubeError}
use rudr.Client.{
  Server, Request, Error, kube, message, panicked, Action, request, pure, resume, ◌>>=◌, ◌>>◌,
  unwrap_or_else, handle,
}
use rudr.TraitOps
use rudr.TraitOps.IngressOps.{ingress_implementation}
use rudr.TraitOps.AutoscalerOps.{autoscaler_implementation}
use rudr.TraitOps.VolumeOps.{volume_mounter_implementation}
use rudr.TraitManager.{TraitManager}
use rudr.TraitManager.Running.{exec, exec_all}

abbrev pub IsManualScaler : OamTrait → Type 0
IsManualScaler (manual_scaler _) = Unit
IsManualScaler _ = ⊥

abbrev IsCalm : Action (Unit {0}) → Type 0
IsCalm m = (log : List Request) → (m log).0 ≢ err panicked

request-IsCalm :
    (answer : List Request → Request → Result KubeError (Unit {0})) (r : Request)
    → IsCalm (request answer r)
unfolding request
request-IsCalm answer r log h = elim (Result-cases (answer log r)) [
  | inl (a, e) ↦ ground (arith, e, h)
  | inr (x, e) ↦ ground (arith, e, h)
]

pure-IsCalm : IsCalm (pure tt)
unfolding pure
pure-IsCalm log h = cc h

-- The requests once every trait has run its phase, whatever each of them yielded.
unfoldable pub trail : Server → String → Phase → List OamTrait → List Request → List Request
trail server ns phase [] log = log
trail server ns phase (imp ∷ traits) log =
    trail server ns phase traits (TraitOps.exec server ns phase imp log).1

-- Only a manual scaler panics.
exec-IsCalm :
    (server : Server) (ns : String) (phase : Phase) (imp : OamTrait)
    → IsManualScaler imp ⊎ IsCalm (TraitOps.exec server ns phase imp)
unfolding TraitOps.exec TraitOps.Interface.exec TraitOps.implementation ingress_implementation
    autoscaler_implementation volume_mounter_implementation TraitOps.Interface.provided
    TraitOps.Interface.empty_implementation TraitOps.IngressOps.ingress_add
    TraitOps.IngressOps.ingress_modify TraitOps.IngressOps.ingress_delete
    TraitOps.AutoscalerOps.autoscaler_add TraitOps.AutoscalerOps.autoscaler_modify
    TraitOps.AutoscalerOps.autoscaler_delete TraitOps.VolumeOps.volume_pre_add
    TraitOps.VolumeOps.volume_modify TraitOps.VolumeOps.volume_delete
exec-IsCalm server ns phase (manual_scaler m) = inl tt
exec-IsCalm server ns Phase.add (ingress i) = inr (request-IsCalm _ _)
exec-IsCalm server ns Phase.modify (ingress i) = inr (request-IsCalm _ _)
exec-IsCalm server ns Phase.delete (ingress i) = inr (request-IsCalm _ _)
exec-IsCalm server ns _ (ingress i) = inr pure-IsCalm
exec-IsCalm server ns Phase.add (autoscaler a) = inr (request-IsCalm _ _)
exec-IsCalm server ns Phase.modify (autoscaler a) = inr (request-IsCalm _ _)
exec-IsCalm server ns Phase.delete (autoscaler a) = inr (request-IsCalm _ _)
exec-IsCalm server ns _ (autoscaler a) = inr pure-IsCalm
exec-IsCalm server ns Phase.pre_add (volume_mounter v) = inr (request-IsCalm _ _)
exec-IsCalm server ns Phase.modify (volume_mounter v) = inr (request-IsCalm _ _)
exec-IsCalm server ns Phase.delete (volume_mounter v) = inr (request-IsCalm _ _)
exec-IsCalm server ns _ (volume_mounter v) = inr pure-IsCalm
exec-IsCalm server ns Phase.add empty = inr pure-IsCalm
exec-IsCalm server ns _ empty = inr pure-IsCalm

module _ (server : Server) (ns : String) (phase : Phase) where
  -- A trait's error is dropped and what it requested stays.
  dropped :
      (m : Action (Unit {0})) (log : List Request)
      → (unwrap_or_else m (λ _. pure tt) log ≡ (ok tt, (m log).1)) ⊎ ((m log).0 ≡ err panicked)
  unfolding unwrap_or_else pure
  dropped m log = after (m log)
    where
      after :
          (p : Result Error (Unit {0}) × List Request)
          → (handle (λ _. pure tt) p ≡ (ok tt, p.1)) ⊎ (p.0 ≡ err panicked)
      after (ok a, l) = inl refl
      after (err (kube e), l) = inl refl
      after (err (message t), l) = inl refl
      after (err panicked, l) = inr refl

  exec_all_lem :
      (traits : List OamTrait) (log : List Request)
      → (exec_all server ns phase traits log ≡ (ok tt, trail server ns phase traits log))
        ⊎ Any IsManualScaler traits
  unfolding exec_all trail ◌>>◌ ◌>>=◌ resume pure
  exec_all_lem [] log = inl refl
  exec_all_lem (imp ∷ traits) log = elim (exec-IsCalm server ns phase imp) [
    | inl scaler ↦ inr (inl scaler)
    | inr calm ↦ elim (dropped (TraitOps.exec server ns phase imp) log) [
      | inr panics ↦ absurd (calm log panics)
      | inl e ↦ elim (exec_all_lem traits (TraitOps.exec server ns phase imp log).1) [
        | inl rest ↦ inl (rw e rest)
        | inr scaler ↦ inr (inr scaler)
      ]
    ]
  ]

-- A component that has no manual scaler runs a phase of all its traits in their order, each from
-- the requests that those before it made, and succeeds, even where some of the traits fail.
pub exec-trail :
    (server : Server) (ns : String) (self : TraitManager) (phase : Phase) (log : List Request)
    → ¬ Any IsManualScaler self.traits
    → exec server ns self phase log ≡ (ok tt, trail server ns phase self.traits log)
unfolding exec
exec-trail server ns self phase log h = elim (exec_all_lem server ns phase self.traits log) [
  | inl e ↦ e
  | inr scaler ↦ absurd (h scaler)
]
