-- ===== src/Workload/Dispatch.antt =====
-- Which workload a component's type loads.
use rudr.Prelude.{
  String, ◌≡◌, ◌≢◌, ◌==◌, refl, ap, sym, ◌∙◌, none, some, List, [], ◌∷◌, Result, ok, arith,
  Result-cases, Option-cases, inl, inr, ◌⊎◌, ◌↔◌, if◌then◌else◌, Member,
}
use rudr.Arms.{Picks, last-Picks, arm-Picks}
use rudr.Component.{get_workload_setting}
use rudr.Gvk.{GroupVersionKind, from_str}
use rudr.Gvk.RoundTrip.{from_str_iff}
use rudr.Client.{Error}
use rudr.Workload.{WorkloadMetadata}
use rudr.Prelude.Int.{pos}
use rudr.Workload.Core.{
  replicated_server, singleton_server, singleton_task, replicated_task, singleton_worker,
  replicated_worker,
}
use rudr.Workload.Extended.{new_others}
use rudr.Workload.Loading.{
  Workload, core, openfaas, others, load_others, load_workload_type, workload_meta, workload_name,
}

-- What the last arm of the match yields.
others_lem :
    (t : String) (meta : WorkloadMetadata)
    → ((g : GroupVersionKind) × (from_str t ≡ ok g)
        × (get_workload_setting meta.definition "spec" ≢ none)
        × (load_others (new_others meta t) ≡ ok (others meta g)))
      ⊎ (((g : GroupVersionKind)
            → from_str t ≡ ok g
            → get_workload_setting meta.definition "spec" ≡ none)
          × ((w : Workload) → load_others (new_others meta t) ≢ ok w))
unfolding load_others new_others
others_lem t meta = elim (Result-cases (from_str t)) [
  | inl (g, parsed) ↦ elim (Option-cases (get_workload_setting meta.definition "spec")) [
    | inl absent ↦ inr (λ _ _. absent, λ w h. ground arith)
    | inr (s, found) ↦ inl (g, parsed, λ h. ground arith, ground arith)
  ]
  | inr (e, bad) ↦ inr (λ g h. ground arith, λ w h. ground arith)
]

-- The names of the types that the program knows.
abbrev pub known_types : List String
known_types =
    "core.oam.dev/v1alpha1.Server" ∷ "core.oam.dev/v1alpha1.SingletonServer"
    ∷ "core.oam.dev/v1alpha1.SingletonTask" ∷ "core.oam.dev/v1alpha1.Task"
    ∷ "core.oam.dev/v1alpha1.SingletonWorker" ∷ "core.oam.dev/v1alpha1.Worker"
    ∷ "openfaas.com/v1alpha2.Function" ∷ []

-- The workload is of the type that is named, with the metadata that was given.
abbrev IsLoaded : String → WorkloadMetadata → Workload → Type 0
IsLoaded t meta w = (workload_name w ≡ t) × (workload_meta w ≡ meta)

module _ (t : String) (meta : WorkloadMetadata) where
  arm :
      (n : String) (w : Workload) (ns : List String) (rest : Result Error Workload)
      → workload_name w ≡ n
      → workload_meta w ≡ meta
      → Picks (IsLoaded t meta) t (load_others (new_others meta t)) ns rest
      → Picks
          (IsLoaded t meta)
          t
          (load_others (new_others meta t))
          (n ∷ ns)
          (if t == n then ok w else rest)
  arm n w ns rest named same =
      arm-Picks (IsLoaded t meta) t (load_others (new_others meta t)) n w ns rest
        (λ here. (named ∙ here, same))

  load_lem :
      Picks
        (IsLoaded t meta)
        t
        (load_others (new_others meta t))
        known_types
        (load_workload_type t meta)
  unfolding load_workload_type
  load_lem = arm _ (core (replicated_server meta)) _ _ refl refl (
      arm _ (core (singleton_server meta)) _ _ refl refl (
        arm _ (core (singleton_task meta)) _ _ refl refl (
          arm _ (core (replicated_task meta (some (pos 1)))) _ _ refl refl (
            arm _ (core (singleton_worker meta)) _ _ refl refl (
              arm _ (core (replicated_worker meta (some (pos 1)))) _ _ refl refl (
                arm _ (openfaas meta) _ _ refl refl
                  (last-Picks (IsLoaded t meta) t (load_others (new_others meta t)))))))))

-- A workload that is loaded is of the type that was named, printed for an unknown kind as its group,
-- version and kind, and has the metadata that was given.
pub workload_name-load_workload_type :
    (t : String) (meta : WorkloadMetadata) (w : Workload)
    → load_workload_type t meta ≡ ok w
    → (workload_name w ≡ t) × (workload_meta w ≡ meta)
unfolding Picks
workload_name-load_workload_type t meta w h = elim (load_lem t meta) [
  | inl (v, e, (named, same), _) ↦
      let v_w : v ≡ w = ground arith in
      (ap workload_name (sym v_w) ∙ named, ap workload_meta (sym v_w) ∙ same)
  | inr (e, _) ↦ elim (others_lem t meta) [
    | inl (g, parsed, _, last) ↦
        let (_, _, printed) = (from_str_iff t g).0 parsed in
        let v_w : others meta g ≡ w = ground arith in
        (ap workload_name (sym v_w) ∙ printed, ap workload_meta (sym v_w))
    | inr (_, never) ↦ absurd (never w (sym e ∙ h))
  ]
]

-- Loading succeeds exactly when the type is one of the seven that the program knows, or parses as
-- group, version and kind where the component has a setting `spec`.
pub load_workload_type-ok_iff :
    (t : String) (meta : WorkloadMetadata)
    → ((w : Workload) × (load_workload_type t meta ≡ ok w)) ↔ (
        Member t known_types
        ⊎ ((g : GroupVersionKind) × (from_str t ≡ ok g)
            × (get_workload_setting meta.definition "spec" ≢ none)))
unfolding Picks
load_workload_type-ok_iff t meta = elim (load_lem t meta) [
  | inl (v, e, _, found) ↦ (λ _. inl found, λ _. (v, e))
  | inr (e, absent) ↦ elim (others_lem t meta) [
    | inl (g, parsed, spec, last) ↦ (λ _. inr (g, parsed, spec), λ _. (others meta g, e ∙ last))
    | inr (no_spec, never) ↦ (
      λ (w, h). absurd (never w (sym e ∙ h)),
      λ h. elim h [
        | inl found ↦ absurd (absent found)
        | inr (g, parsed, spec) ↦ absurd (spec (no_spec g parsed))
      ],
    )
  ]
]
