-- ===== src/TraitOps/Interface.antt =====
-- `TraitImplementation` of src/schematic/traits.rs, with its provided methods, and the empty trait.
use rudr.Prelude.{String, Option, none}
use rudr.BTreeMap.{BTreeMap}
use rudr.Lifecycle.{Phase}
use rudr.Client.{Action, message, pure, fail}

-- The methods of one trait, its namespace and client given.
pub record TraitImplementation : Type 0 where
  pub add : Action (Unit {0})
  pub modify : Action (Unit {0})
  pub delete : Action (Unit {0})
  pub pre_add : Action (Unit {0})
  pub pre_modify : Action (Unit {0})
  pub pre_delete : Action (Unit {0})
  pub status : Action (Option (BTreeMap String))

-- The methods that an implementation does not override.
unfoldable pub provided : Action (Unit {0}) → TraitImplementation
provided add = record {
  add = add;
  modify = fail (message "Trait updates not implemented for this type");
  delete = fail (message "Trait delete not implemented for this type");
  pre_add = pure tt;
  pre_modify = pure tt;
  pre_delete = pure tt;
  status = pure none;
}

unfoldable pub exec : TraitImplementation → Phase → Action (Unit {0})
exec self Phase.add = self.add
exec self Phase.modify = self.modify
exec self Phase.delete = self.delete
exec self Phase.pre_add = self.pre_add
exec self Phase.pre_modify = self.pre_modify
exec self Phase.pre_delete = self.pre_delete

-- `Empty`
unfoldable pub empty_implementation : TraitImplementation
unfolding provided
empty_implementation = record (provided (pure tt)) {
  modify = pure tt;
  delete = pure tt;
  status = pure none;
}
