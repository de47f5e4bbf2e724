-- ===== src/Store/BindingTests.antt =====
-- Runs of the calls on one binding.
use wyrwood.Base.{◌≡◌, ◌≢◌, ◌⊎◌, refl, false, none, [], ◌∷◌}
use wyrwood.Base.Text.{Text, codes, ◌==t◌}
use wyrwood.Base.Assoc.{lookup, insert, some_entry}
use wyrwood.Base.Errors.{Result, ok, err}
use wyrwood.Base.Sort.{has, sort_names}
use wyrwood.Policy.Types.{Settings, Effective}
use wyrwood.Policy.Validate.{defaults}
use wyrwood.Store.Tables.{Store, StoreError, conflict, BindingRow, PolicyRow, empty}
use wyrwood.Store.Bindings.{
  Binding, binding, scan_binding, create_binding, change_binding, update_binding,
  mark_binding_applied, members_of, write_membership, insert_members,
}
use wyrwood.Store.Reports.{save_assignment_accessor, token_accessor}
use wyrwood.Store.Assignments.{
  create_binding-binding, change_binding-binding, no_lost_update, accessor_of_applied_revision,
  stored_revision,
}

abbrev unset : Settings
unset = record {
  token_ttl = [];
  token_max_ttl = [];
  access_group = none;
  enforcement = [];
  values = [];
}

abbrev nothing : Effective
nothing = record {
  sources = [];
  open_bao = record { policy = []; agent_token_renewal = none };
  ssh = none;
  contract = record {
    mount_target = codes "/run/w";
    env = [];
    access_group = none;
    enforcement = codes "report";
  };
  settings = unset;
}

abbrev row : Text → PolicyRow
row name = record {
  revision = 1;
  document = record {
    name = name;
    revision = 1;
    open_bao = record { policy = []; agent_token_renewal = none };
    ssh = none;
    contract = record { mount_target = codes "/run/w"; env = [] };
    generation = 1;
  };
  saved_at = 1;
  saved_by = [];
  generation = 1;
}

abbrev two_policies : Store
two_policies = record empty {
  policies = (codes "web", row (codes "web")) ∷ (codes "app", row (codes "app")) ∷ [];
}

abbrev given : Binding
given = record {
  id = codes "b1";
  agent = codes "build";
  key = record { kind = codes "label"; value = codes "x" };
  policies = codes "web" ∷ codes "app" ∷ [];
  settings = unset;
  revision = 0;
  effective = nothing;
  applied = false;
  role = codes "r";
  created_at = 4;
  created_by = codes "ops";
}

abbrev changed : Binding
changed = record given { policies = codes "app" ∷ []; revision = 2 }

abbrev kept : Result StoreError Store → Store
kept (ok s) = s
kept (err _) = empty

abbrev created : Store
created = kept (create_binding given two_policies)

abbrev second : Store
second = kept (change_binding changed created)

abbrev first_row : BindingRow
first_row = record {
  agent = codes "build";
  key = record { kind = codes "label"; value = codes "x" };
  settings = defaults unset;
  revision = 1;
  effective = nothing;
  applied = false;
  role = codes "r";
  created_at = 4;
  created_by = codes "ops";
}

create_binding-binding_example :
    binding (codes "b1") created
    ≡ ok (record given {
      policies = sort_names (codes "web" ∷ codes "app" ∷ []);
      settings = defaults unset;
      revision = stored_revision 0;
    })
unfolding create_binding write_membership insert_members lookup insert some_entry ◌==t◌ has
    members_of
create_binding-binding_example = create_binding-binding given two_policies created refl

change_binding-binding_example :
    binding (codes "b1") second
    ≡ ok (record (scan_binding created (codes "b1") first_row) {
      policies = sort_names (codes "app" ∷ []);
      settings = defaults unset;
      revision = 2;
      effective = nothing;
      applied = false;
    })
unfolding create_binding change_binding update_binding write_membership insert_members lookup insert
    some_entry ◌==t◌ has members_of
change_binding-binding_example = change_binding-binding changed created second first_row refl refl

no_lost_update_example : change_binding changed second ≡ err conflict
unfolding create_binding change_binding update_binding write_membership insert_members lookup insert
    some_entry ◌==t◌ has members_of
no_lost_update_example = no_lost_update changed changed created second refl refl refl

accessor_of_applied_revision_example :
    (save_assignment_accessor given (codes "acc") 9 second ≡ err conflict)
    × (((given.revision ≡ changed.revision)
          × (u : Store) × (save_assignment_accessor given
                (codes "acc")
                9
                (mark_binding_applied (codes "b1") second)
              ≡ ok u)
          × (token_accessor (codes "b1") u ≡ ok (codes "acc")))
        ⊎ ((given.revision ≢ changed.revision)
            × (save_assignment_accessor given
                  (codes "acc")
                  9
                  (mark_binding_applied (codes "b1") second)
                ≡ err conflict)))
unfolding create_binding change_binding update_binding write_membership insert_members lookup insert
    some_entry ◌==t◌ has members_of
accessor_of_applied_revision_example =
    accessor_of_applied_revision changed given created second (codes "acc") 9 refl refl

abbrev retired : Result StoreError (Text × Store) → Store
retired (ok (a, s)) = s
retired (err _) = empty
