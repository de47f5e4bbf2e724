-- ===== src/Controller/Tests.antt =====
-- Runs of the controller's operations on small worlds.
use wyrwood.Base.{
  ◌≡◌, ◌≢◌, ap, ◌⊎◌, refl, inr, true, false, none, some, List, [], ◌∷◌, arith, any, ◌&&◌, ◌||◌,
}
use wyrwood.Base.Text.{Text, codes, ◌==t◌, ==t_iff}
use wyrwood.Base.Assoc.{lookup}
use wyrwood.Base.Errors.{ok}
use wyrwood.Base.Sort.{sort_names, has, Distinct}
use wyrwood.Policy.Patterns.{open_bao_policy_name, valid_name}
use wyrwood.Policy.Lifecycle.{published_hcl}
use wyrwood.Policy.Compose.{names_of, open_bao_policies}
use wyrwood.Protocol.Types.{Container}
use wyrwood.Protocol.Validate.{key_name}
use wyrwood.Protocol.Messages.{Credential}
use wyrwood.Store.Tables.{PolicyRow, BindingRow}
use wyrwood.Policy.Validate.{validate_policy}
use wyrwood.Policy.BindingValues.{validate_binding_placeholders}
use wyrwood.Store.Policies
use wyrwood.Store.Policies.{policy, scan_policy, selected}
use wyrwood.Store.Bindings.{members_of, Binding, binding, bindings, scan_binding}
use wyrwood.Store.Reports.{token_accessor}
use wyrwood.Controller.World.{map_error, read_answer, write_answer, World, fine, lost, hidden}
use wyrwood.Controller.Matching.{match_bindings, carried_bindings, ids}
use wyrwood.Controller.Matching.Correct.{governs, match_bindings_lem, carried_bindings_lem}
use wyrwood.Controller.Composing.{assignment}
use wyrwood.Controller.Published.Repair.{Keyed, Each, sync_policies-Synced}
use wyrwood.Controller.Publishing.{sync_policies, apply_binding, equal_names}
use wyrwood.Controller.Changes.{delete_policy, save_policy}
use wyrwood.Controller.Published.{document_of, Named, NoHidden, Synced}
use wyrwood.Controller.Published.Delete.{delete_policy-Synced}
use wyrwood.Controller.Published.Deleted.{delete_policy_lem}
use wyrwood.Controller.Published.Saving.{save_policy-Synced}
use wyrwood.Controller.Retiring.{settle_identities}
use wyrwood.Controller.Retiring.Held.{settle_identities-held}
use wyrwood.Controller.Roles.{prepare_credential}
use wyrwood.Controller.Roles.Applied.{apply_binding_lem}
use wyrwood.Controller.Roles.Issued.{prepare_credential_lem}
use wyrwood.Controller.Samples.{
  outside, documented, role_laws, deploy, deploy_row, one_policy, one_binding, world, web_key,
  unset, effective,
}

abbrev web : Binding
web = record {
  id = codes "b1";
  agent = codes "build";
  key = web_key;
  policies = codes "deploy" ∷ [];
  settings = unset;
  revision = 1;
  effective = effective;
  applied = false;
  role = codes "wyrwood-build-b1";
  created_at = 4;
  created_by = codes "ops";
}

one_policy-Named : Named one_policy
unfolding lookup valid_name
one_policy-Named k r h = ground (arith, ==t_iff (codes "deploy") k)

-- OpenBao holds the text of the policy, and the deletion of its row fails behind its effect, so that
-- the store has to be read again, which fails too.
abbrev published : World outside
published = record (world one_policy (fine ∷ fine ∷ hidden ∷ lost ∷ []) false) {
  bao = record {
    held = λ n. some (published_hcl outside.codec.hcl (document_of deploy_row));
    roles = λ n. none;
    ended = λ a. false;
  };
}

row_of : (k : Text) (r : PolicyRow) → lookup k one_policy.policies ≡ some r → deploy_row ≡ r
unfolding lookup
row_of k r h = ground arith

published-Synced : Synced outside documented published
published-Synced = inr (λ k r h.
    ap (λ (q : PolicyRow). some (published_hcl outside.codec.hcl (document_of q))) (row_of k r h))

delete_policy-Synced_example :
    Synced outside documented (delete_policy outside (codes "deploy") published).1
delete_policy-Synced_example =
    delete_policy-Synced outside documented (codes "deploy") published one_policy-Named
      published-Synced

abbrev sound : World outside
sound = record published { faults = [] }

delete_policy_lem_example :
    ((r : PolicyRow) × (lookup (codes "deploy") one_policy.policies ≡ some r)
      × (documented.view
            (delete_policy outside (codes "deploy") sound).1.bao
            (open_bao_policy_name (document_of r))
          ≡ none))
    × (lookup (codes "deploy") (delete_policy outside (codes "deploy") sound).1.db.policies ≡ none)
    × ((k : Text)
        → (codes "deploy" ==t k) ≡ false
        → lookup k (delete_policy outside (codes "deploy") sound).1.db.policies
          ≡ lookup k one_policy.policies)
unfolding delete_policy valid_name map_error read_answer policy lookup ◌==t◌ scan_policy
    validate_policy validate_binding_placeholders bindings open_bao_policy_name write_answer
    Policies.delete_policy selected
delete_policy_lem_example =
    delete_policy_lem outside documented (codes "deploy") sound one_policy-Named refl

-- The commit fails without an effect, and the old text is published again.
abbrev uncommitted : World outside
uncommitted = record published { faults = fine ∷ fine ∷ lost ∷ [] }

uncommitted-NoHidden : NoHidden uncommitted.faults
unfolding NoHidden
uncommitted-NoHidden = (λ e. cc, (λ e. cc, (λ e. cc, tt)))

save_policy-Synced_example :
    Synced outside documented
      (save_policy outside
        (record deploy { contract = record { mount_target = codes "/run/x"; env = [] } })
        (codes "ops")
        7
        uncommitted).1
save_policy-Synced_example =
    save_policy-Synced outside documented
      (record deploy { contract = record { mount_target = codes "/run/x"; env = [] } })
      (codes "ops") 7 uncommitted one_policy-Named uncommitted-NoHidden published-Synced

abbrev waiting : World outside
waiting = world one_binding [] false

applied : (apply_binding outside web waiting).0 ≡ ok tt
unfolding apply_binding equal_names ◌==t◌ map_error read_answer token_accessor lookup write_answer
applied = refl

apply_binding_lem_example :
    let v = (apply_binding outside web waiting).1 in
    (web.policies ≡ names_of effective)
    × (role_laws.role v.bao web.role ≡ some (open_bao_policies effective))
    × ((accessor : Text)
        → token_accessor web.id one_binding ≡ ok accessor
        → accessor ≢ []
        → role_laws.revoked v.bao accessor ≡ true)
    × ((r : BindingRow)
        → lookup web.id one_binding.bindings ≡ some r
        → lookup web.id v.db.bindings ≡ some (record r { applied = true }))
apply_binding_lem_example = apply_binding_lem outside role_laws web waiting refl applied

abbrev issued : Credential
issued = record {
  assignment = codes "revision";
  binding = codes "b1";
  approle_mount = codes "approle";
  role_id = codes "role-id";
  wrapped_secret_id = codes "wrapped";
}

prepared : (prepare_credential outside (codes "build") web waiting).0 ≡ ok issued
unfolding prepare_credential map_error read_answer binding lookup ◌==t◌ scan_binding apply_binding
    equal_names sort_names members_of token_accessor write_answer
prepared = refl

prepare_credential_lem_example :
    let v = (prepare_credential outside (codes "build") web waiting).1 in
    (v.sync_pending ≡ false)
    × ((b : Binding) × (binding web.id one_binding ≡ ok b)
        × (b.agent ≡ codes "build")
        × (assignment outside b ≡ assignment outside web)
        × (issued.binding ≡ web.id)
        × (issued.assignment ≡ assignment outside b)
        × (b.policies ≡ names_of b.effective)
        × ((b.applied ≡ true)
            ⊎ ((role_laws.role v.bao b.role ≡ some (open_bao_policies b.effective))
                × ((accessor : Text)
                    → token_accessor b.id one_binding ≡ ok accessor
                    → accessor ≢ []
                    → role_laws.revoked v.bao accessor ≡ true))))
prepare_credential_lem_example =
    prepare_credential_lem outside documented role_laws (codes "build") web issued waiting prepared

abbrev labelled : Binding
labelled = record web {
  id = codes "b2";
  key = record { kind = codes "devcontainer"; value = codes "api" };
}

abbrev inventory : List Container
inventory =
    record {
      id = codes "c1";
      name = codes "web";
      state = codes "running";
      image = codes "img";
      consumer_directory = [];
      keys = labelled.key ∷ web_key ∷ [];
      mounts = [];
      env_names = [];
    }
    ∷ []

match_bindings_lem_example :
    ((i : Text)
      → has i (ids (match_bindings inventory (web ∷ labelled ∷ [])))
        ≡ any (governs (web ∷ labelled ∷ []) i) inventory)
    × Distinct (ids (match_bindings inventory (web ∷ labelled ∷ [])))
match_bindings_lem_example = match_bindings_lem (web ∷ labelled ∷ []) inventory

carried_bindings_lem_example :
    has (codes "b1") (ids (carried_bindings inventory (web ∷ labelled ∷ []))) ≡ (
      any (governs (web ∷ labelled ∷ []) (codes "b1")) inventory
      || any
          (λ (b : Binding). (b.key.kind ==t key_name) && (b.id ==t codes "b1"))
          (web ∷ labelled ∷ []))
carried_bindings_lem_example = carried_bindings_lem (web ∷ labelled ∷ []) inventory (codes "b1")

-- The identity of the stored policy is on record beside one that no policy has, and the first call of
-- the store fails behind its effect.
abbrev recorded : World outside
recorded = record published {
  faults = hidden ∷ [];
  db = record one_policy {
    retirements = (codes "wyrwood-deploy", 1) ∷ (codes "wyrwood-old", 2) ∷ [];
  };
}

settle_identities-held_example :
    let v =
      (settle_identities outside
        (codes "wyrwood-deploy" ∷ [])
        (codes "wyrwood-deploy" ∷ codes "wyrwood-old" ∷ [])
        recorded).1 in
    ((k : Text)
      → has k (codes "wyrwood-deploy" ∷ []) ≡ true
      → documented.view v.bao k ≡ documented.view recorded.bao k)
    × (v.db ≡ record recorded.db { retirements = v.db.retirements })
settle_identities-held_example =
    settle_identities-held outside documented (codes "wyrwood-deploy" ∷ [])
      (codes "wyrwood-deploy" ∷ codes "wyrwood-old" ∷ []) recorded

-- OpenBao holds nothing of the policy, and the flag is set.
abbrev unrepaired : World outside
unrepaired = world one_policy [] true

one_policy-Keyed : Keyed one_policy
unfolding Each lookup ◌==t◌
one_policy-Keyed = (refl, tt)

sync_policies-Synced_example : Synced outside documented (sync_policies outside unrepaired).1
sync_policies-Synced_example =
    sync_policies-Synced outside documented unrepaired one_policy-Named one_policy-Keyed

-- The repair clears the flag.
repaired : (sync_policies outside unrepaired).1.sync_pending ≡ false
unfolding sync_policies map_error read_answer Policies.policies scan_policy validate_policy
    validate_binding_placeholders ◌==t◌ open_bao_policy_name
repaired = refl
