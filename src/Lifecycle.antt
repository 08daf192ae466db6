-- ===== src/Lifecycle.antt =====
-- src/lifecycle.rs: the phases of an operation.
use rudr.Prelude.{String, Bool, true, false}

pub data Phase : Type 0 where
  pre_add add pre_modify modify pre_delete delete : Phase

-- `Display`
unfoldable pub phase_text : Phase → String
phase_text pre_add = "PreAdd"
phase_text add = "Add"
phase_text pre_modify = "PreModify"
phase_text modify = "Modify"
phase_text pre_delete = "PreDelete"
phase_text delete = "Delete"

-- `==`
abbrev pub is_add : Phase → Bool
is_add add = true
is_add _ = false

abbrev pub is_modify : Phase → Bool
is_modify modify = true
is_modify _ = false

abbrev pub is_delete : Phase → Bool
is_delete delete = true
is_delete _ = false
