-- ===== src/TraitManager/Loading.antt =====
-- Which traits are loaded.
use rudr.Prelude.{
  String, ◌<>◌, ◌≡◌, refl, subst, ◌↔◌, ◌⊎◌, inl, inr, List, [], ◌∷◌, map, Result, ok, err, arith,
  All, Member, unwrap_or,
}
use rudr.Arms.{Picks, last-Picks, arm-Picks}
use rudr.Json.{Serde}
use rudr.Configuration.{TraitBinding}
use rudr.Client.{Error, message}
use rudr.Traits.{OamTrait, autoscaler, manual_scaler, ingress, volume_mounter, empty}
use rudr.TraitManager.{TraitManager, load_trait, load_all, load_traits}

-- The name under which a trait is bound.
abbrev pub trait_name : OamTrait → String
trait_name (ingress _) = "ingress"
trait_name (volume_mounter _) = "volume-mounter"
trait_name (autoscaler _) = "auto-scaler"
trait_name (manual_scaler _) = "manual-scaler"
trait_name empty = "empty"

abbrev pub known_traits : List String
known_traits = "ingress" ∷ "volume-mounter" ∷ "auto-scaler" ∷ "manual-scaler" ∷ "empty" ∷ []

module _ (serde : Serde) (self : TraitManager) where
  load_trait_lem :
      (b : TraitBinding)
      → Picks
          (λ t. trait_name t ≡ b.name)
          b.name
          (err (message ("unknown trait " <> b.name)))
          known_traits
          (load_trait serde self b)
  unfolding load_trait
  load_trait_lem b =
      let P : OamTrait → Type 0 = λ t. trait_name t ≡ b.name in
      let last : Result Error OamTrait = err (message ("unknown trait " <> b.name)) in
      arm-Picks P b.name last _ (ingress _) _ _ (λ e. e)
        (arm-Picks P b.name last _ (volume_mounter _) _ _ (λ e. e)
          (arm-Picks P b.name last _ (autoscaler _) _ _ (λ e. e)
            (arm-Picks P b.name last _ (manual_scaler _) _ _ (λ e. e)
              (arm-Picks P b.name last _ empty _ _ (λ e. e) (last-Picks P b.name last)))))

  -- What loading the bindings yields.
  abbrev Loaded : List TraitBinding → Type 0
  Loaded bs =
      ((ts : List OamTrait) × (load_all serde self bs ≡ ok ts)
        × (map trait_name ts ≡ map (λ (b : TraitBinding). b.name) bs)
        × All (λ (b : TraitBinding). Member b.name known_traits) bs)
      ⊎ ((n : String) × (load_all serde self bs ≡ err (message ("unknown trait " <> n)))
          × (¬ Member n known_traits)
          × Member n (map (λ (b : TraitBinding). b.name) bs))

  load_all-Loaded : (bs : List TraitBinding) → Loaded bs
  unfolding load_all Picks
  load_all-Loaded [] = inl ([], refl, refl, tt)
  load_all-Loaded (b ∷ bs) = elim (load_trait_lem b) [
    | inr (e, absent) ↦ inr (b.name, rw e refl, absent, inl refl)
    | inl (t, e, named, known) ↦ elim (load_all-Loaded bs) [
      | inl (ts, e', names, all) ↦
          inl (t ∷ ts, rw (e, e') refl, ground (arith, named, names), (known, all))
      | inr (n, e', absent, found) ↦ inr (n, rw (e, e') refl, absent, inr found)
    ]
  ]

-- The bindings of a component.
abbrev pub bindings_of : TraitManager → List TraitBinding
bindings_of self = unwrap_or self.component.traits []

-- Loading the traits of a component succeeds exactly when every binding names one of the five
-- traits. The manager then has one trait for each binding, in order, of the kind that the binding
-- names; on a failure it keeps the traits it had.
pub load_traits_lem :
    (serde : Serde) (self : TraitManager)
    → (((load_traits serde self).1 ≡ ok tt)
        ↔ All (λ (b : TraitBinding). Member b.name known_traits) (bindings_of self))
      × ((load_traits serde self).1 ≡ ok tt
          → map trait_name (load_traits serde self).0.traits
            ≡ map (λ (b : TraitBinding). b.name) (bindings_of self))
      × ((e : Error) → (load_traits serde self).1 ≡ err e → (load_traits serde self).0 ≡ self)
unfolding load_traits
load_traits_lem serde self = elim (load_all-Loaded serde self (bindings_of self)) [
  | inl (ts, e, names, all) ↦ rw (load_traits, e) ((λ _. all, λ _. refl), λ _. names, λ x h. cc h)
  | inr (n, e, absent, found) ↦
      rw (load_traits, e)
        (
          (λ h. cc h, λ h. absurd (absent (Member-names (bindings_of self) n found h))),
          λ h. cc h,
          λ _ _. refl,
        )
]
  where
    Member-names :
        (bs : List TraitBinding) (n : String)
        → Member n (map (λ (b : TraitBinding). b.name) bs)
        → All (λ (b : TraitBinding). Member b.name known_traits) bs
        → Member n known_traits
    Member-names [] n h _ = absurd h
    Member-names (b ∷ bs) n (inl e) (known, _) = subst (λ x. Member x known_traits) e known
    Member-names (b ∷ bs) n (inr h) (_, all) = Member-names bs n h all
