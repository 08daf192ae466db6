-- ===== src/Scopes/Membership.antt =====
-- The components that a health scope lists.
use rudr.Prelude.{
  none, and_then, ◌≡◌, refl, true, eq_iff, List, [], ◌∷◌, ◌++◌, arith, if◌then◌else◌, ◌⊎◌,
}
use rudr.Configuration.{ComponentConfiguration}
use rudr.HealthScope.{ComponentInfo, HealthScopeObject}
use rudr.Scopes.HealthOps.{is_same, without, listed, remove_one, info_of, add_to, remove_from}

-- The entries that stand for the component, and the others, in order.
abbrev pub entries_of : ComponentConfiguration → List ComponentInfo → List ComponentInfo
entries_of spec [] = []
entries_of spec (c ∷ cs) = if is_same spec c then c ∷ entries_of spec cs else entries_of spec cs

abbrev pub others_of : ComponentConfiguration → List ComponentInfo → List ComponentInfo
others_of spec [] = []
others_of spec (c ∷ cs) = if is_same spec c then others_of spec cs else c ∷ others_of spec cs

without-others_of :
    (spec : ComponentConfiguration) (cs : List ComponentInfo) → without spec cs ≡ others_of spec cs
unfolding without
without-others_of spec [] = refl
without-others_of spec (c ∷ cs) = ground (arith, without-others_of spec cs)

is_same-info_of : (spec : ComponentConfiguration) → is_same spec (info_of spec) ≡ true
is_same-info_of spec = ground (
  arith,
  eq_iff spec.component_name spec.component_name,
  eq_iff spec.instance_name spec.instance_name,
)

split_lem :
    (spec : ComponentConfiguration) (cs : List ComponentInfo)
    → (entries_of spec (others_of spec cs ++ (info_of spec ∷ [])) ≡ info_of spec ∷ [])
      × (others_of spec (others_of spec cs ++ (info_of spec ∷ [])) ≡ others_of spec cs)
      × (entries_of spec (others_of spec cs) ≡ [])
      × (others_of spec (others_of spec cs) ≡ others_of spec cs)
split_lem spec [] = ground (arith, is_same-info_of spec)
split_lem spec (c ∷ cs) = ground (arith, split_lem spec cs)

-- Adding a component to the object of a health scope drops every entry for it and puts a new one,
-- without a status, after all the others, which keep their order and are not of the component; the
-- time of the last aggregation is forgotten, and nothing but the status changes.
pub add_to_lem :
    (spec : ComponentConfiguration) (obj : HealthScopeObject)
    → (listed (add_to spec obj).status
        ≡ others_of spec (listed obj.status)
          ++ (record {
            name = spec.component_name;
            instance_name = spec.instance_name;
            status = none;
          }
              ∷ []))
      × (entries_of spec (others_of spec (listed obj.status)) ≡ [])
      × (and_then (add_to spec obj).status (λ s. s.last_aggregate_timestamp) ≡ none)
      × (record (add_to spec obj) { status = obj.status } ≡ obj)
unfolding add_to remove_one listed
add_to_lem spec obj =
    let (_, _, no_entry, _) = split_lem spec (listed obj.status) in
    (rw (without-others_of spec (listed obj.status)) refl, no_entry, refl, refl)

-- Removing a component leaves no entry for it, and the entries of the others, in order.
pub remove_from_lem :
    (spec : ComponentConfiguration) (obj : HealthScopeObject)
    → (entries_of spec (listed (remove_from spec obj).status) ≡ [])
      × (others_of spec (listed (remove_from spec obj).status) ≡ others_of spec (listed obj.status))
unfolding remove_from remove_one listed
remove_from_lem spec obj =
    let (_, _, no_entry, rest) = split_lem spec (listed obj.status) in
    (
      rw (without-others_of spec (listed obj.status)) no_entry,
      rw (without-others_of spec (listed obj.status)) rest,
    )

-- What a sequence of additions and removals makes of an object.
pub data History : HealthScopeObject → HealthScopeObject → Type 0 where
  start : {o : HealthScopeObject} → History o o
  after_add :
      {o p : HealthScopeObject} (spec : ComponentConfiguration)
      → History o p
      → History o (add_to spec p)
  after_remove :
      {o p : HealthScopeObject} (spec : ComponentConfiguration)
      → History o p
      → History o (remove_from spec p)

-- Of every component at most one entry.
abbrev pub IsListedOnce : List ComponentInfo → Type 0
IsListedOnce cs =
    (spec : ComponentConfiguration)
    → (entries_of spec cs ≡ []) ⊎ ((c : ComponentInfo) × (entries_of spec cs ≡ c ∷ []))

abbrev SameName : ComponentConfiguration → ComponentConfiguration → Type 0
SameName s t = (s.component_name ≡ t.component_name) × (s.instance_name ≡ t.instance_name)

-- Two configurations of one component have the same entries; of another, dropping one keeps them.
entries_of-others_of :
    (s t : ComponentConfiguration) (cs : List ComponentInfo)
    → (SameName s t
        × (entries_of t (others_of s cs) ≡ [])
        × (entries_of t (info_of s ∷ []) ≡ info_of s ∷ []))
      ⊎ ((entries_of t (others_of s cs) ≡ entries_of t cs) × (entries_of t (info_of s ∷ []) ≡ []))
entries_of-others_of s t [] =
    ground (arith, eq_iff s.component_name t.component_name, eq_iff s.instance_name t.instance_name)
entries_of-others_of s t (c ∷ cs) = ground (
  arith,
  entries_of-others_of s t cs,
  eq_iff s.component_name t.component_name,
  eq_iff s.instance_name t.instance_name,
  eq_iff c.name s.component_name,
  eq_iff c.name t.component_name,
  eq_iff c.instance_name s.instance_name,
  eq_iff c.instance_name t.instance_name,
)

entries_of-append :
    (t : ComponentConfiguration) (cs ds : List ComponentInfo)
    → entries_of t (cs ++ ds) ≡ entries_of t cs ++ entries_of t ds
entries_of-append t [] ds = refl
entries_of-append t (c ∷ cs) ds = ground (arith, entries_of-append t cs ds)

add-IsListedOnce :
    (s : ComponentConfiguration) (cs : List ComponentInfo)
    → IsListedOnce cs
    → IsListedOnce (others_of s cs ++ (info_of s ∷ []))
add-IsListedOnce s cs h t =
    ground (
      arith,
      entries_of-append t (others_of s cs) (info_of s ∷ []),
      entries_of-others_of s t cs,
      h t,
    )

remove-IsListedOnce :
    (s : ComponentConfiguration) (cs : List ComponentInfo)
    → IsListedOnce cs
    → IsListedOnce (others_of s cs)
remove-IsListedOnce s cs h t = ground (arith, entries_of-others_of s t cs, h t)

-- If an object lists every component at most once, it does so after any sequence of additions and
-- removals; so a scope that is created empty never lists a component twice.
pub History-IsListedOnce :
    (o p : HealthScopeObject)
    → IsListedOnce (listed o.status)
    → History o p
    → IsListedOnce (listed p.status)
unfolding add_to remove_from remove_one listed
History-IsListedOnce o _ h start = h
History-IsListedOnce o _ h (after_add {p = p} spec steps) =
    rw (without-others_of spec (listed p.status))
      (add-IsListedOnce spec (listed p.status) (History-IsListedOnce o p h steps))
History-IsListedOnce o _ h (after_remove {p = p} spec steps) =
    rw (without-others_of spec (listed p.status))
      (remove-IsListedOnce spec (listed p.status) (History-IsListedOnce o p h steps))
