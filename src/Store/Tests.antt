-- ===== src/Store/Tests.antt =====
-- Runs of the database's calls.
use wyrwood.Base.{ℕ, ◌≡◌, ◌≢◌, refl, true, none, some, [], ◌∷◌}
use wyrwood.Base.Text.{codes, ◌==t◌}
use wyrwood.Base.Assoc.{lookup, insert, remove, some_entry}
use wyrwood.Base.Errors.{Result, ok, err}
use wyrwood.Policy.Types.{Policy}
use wyrwood.Policy.Hcl.{Hcl}
use wyrwood.Policy.Patterns.{valid_name, identity_name}
use wyrwood.Store.Tables.{
  Store, Agent, AgentState, OperatorKey, Grant, PolicyRow, StoreError, empty,
}
use wyrwood.Store.Agents.{record_key, recorded_agent, decide_agent}
use wyrwood.Store.OperatorKeys.{
  record_operator_key, recorded_key, approve_operator_key, revoke_operator_key,
}
use wyrwood.Store.Policies.{
  save_policy_bindings, delete_policy, next_policy_generation, saved_generation, record_generation,
  update_bindings, selected,
}
use wyrwood.Store.Step.{
  Step, Reach, here, next, key_recorded, agent_decided, operator_key_recorded,
  operator_key_approved, operator_key_revoked, policy_saved, policy_deleted,
}
use wyrwood.Store.KeyLife.{may_become}
use wyrwood.Store.KeyHistory.{decision_kept}
use wyrwood.Store.KeyLists.{key_lists_apart}
use wyrwood.Store.AgentNames.{approved_names_unique}
use wyrwood.Store.KeyLabels.{key_labels_unique}
use wyrwood.Store.Generations.{identity_never_reused}

-- A parser that finds no stanza.
abbrev no_stanzas : Hcl
no_stanzas = record {
  parse = λ s. some [];
  unquote = λ s. none;
  decode_rules = λ s. some [];
  print = λ is. none;
}

abbrev after {ℓ} : {A : Type ℓ} → Result StoreError (A × Store) → Store
after (ok (a, s)) = s
after (err _) = empty

abbrev kept : Result StoreError Store → Store
kept (ok s) = s
kept (err _) = empty

abbrev value {ℓ} : {A : Type ℓ} → A → Result StoreError (A × Store) → A
value d (ok (a, s)) = a
value d (err _) = d

abbrev deploy : Policy
deploy = record {
  name = codes "deploy";
  revision = 0;
  open_bao = record { policy = []; agent_token_renewal = none };
  ssh = none;
  contract = record { mount_target = codes "/run/w"; env = [] };
  generation = 0;
}

abbrev stored : Store
stored = after (save_policy_bindings deploy [] (codes "ops") 5 empty)

abbrev gone : Store
gone = kept (delete_policy (codes "deploy") stored)

abbrev again : Store
again = after (save_policy_bindings deploy [] (codes "ops") 9 gone)

abbrev row : ℕ → ℕ → PolicyRow
row generation at = record {
  revision = 1;
  document = record deploy { revision = 1; generation = generation };
  saved_at = at;
  saved_by = codes "ops";
  generation = generation;
}

to_stored : Step no_stanzas empty stored
unfolding save_policy_bindings lookup insert ◌==t◌ saved_generation next_policy_generation
    record_generation update_bindings
to_stored =
    policy_saved deploy [] (codes "ops") 5 (record deploy { revision = 1; generation = 1 }) refl

to_gone : Step no_stanzas stored gone
unfolding save_policy_bindings delete_policy selected lookup insert remove ◌==t◌ saved_generation
    next_policy_generation record_generation update_bindings
to_gone = policy_deleted (codes "deploy") refl

to_again : Step no_stanzas gone again
unfolding save_policy_bindings delete_policy selected lookup insert remove ◌==t◌ saved_generation
    next_policy_generation record_generation update_bindings
to_again =
    policy_saved deploy [] (codes "ops") 9 (record deploy { revision = 1; generation = 2 }) refl

identity_never_reused_example : identity_name (codes "deploy") 1 ≢ identity_name (codes "deploy") 2
unfolding save_policy_bindings delete_policy selected lookup insert remove ◌==t◌ saved_generation
    next_policy_generation record_generation update_bindings valid_name
identity_never_reused_example =
    identity_never_reused no_stanzas (next here to_stored) (next here to_gone) (next here to_again)
      (codes "deploy") (codes "deploy") (row 1 5) (row 2 9) refl refl refl refl refl

-- A key on the agents' list, approved, and another on the operator keys' list.
abbrev knocked : Store
knocked = after (record_key (codes "SHA256:a") (codes "build") (codes "ssh-ed25519 A") 1 empty)

abbrev approved_once : Store
approved_once = after (decide_agent (codes "SHA256:a") AgentState.approved (codes "ops") 2 knocked)

abbrev with_operator : Store
with_operator =
    after
      (record_operator_key (codes "SHA256:b") (codes "ci") (codes "ssh-ed25519 B") 3 approved_once)

abbrev no_agent : Agent
no_agent = recorded_agent [] [] 0 none

abbrev no_key : OperatorKey
no_key = recorded_key [] [] 0 none

three_calls : Reach no_stanzas empty with_operator
unfolding record_key recorded_agent decide_agent record_operator_key recorded_key lookup insert
    ◌==t◌ some_entry
three_calls =
    next
      (next
        (next here (
          key_recorded (codes "SHA256:a") (codes "build") (codes "ssh-ed25519 A") 1
            (value no_agent
              (record_key (codes "SHA256:a") (codes "build") (codes "ssh-ed25519 A") 1 empty))
            refl))
        (agent_decided (codes "SHA256:a") AgentState.approved (codes "ops") 2
          (value no_agent
            (decide_agent (codes "SHA256:a") AgentState.approved (codes "ops") 2 knocked))
          refl))
      (operator_key_recorded (codes "SHA256:b") (codes "ci") (codes "ssh-ed25519 B") 3
        (value no_key (
          record_operator_key (codes "SHA256:b") (codes "ci") (codes "ssh-ed25519 B") 3
            approved_once))
        refl)

abbrev build_agent : Agent
build_agent =
    value no_agent (decide_agent (codes "SHA256:a") AgentState.approved (codes "ops") 2 knocked)

key_lists_apart_example : lookup (codes "SHA256:a") with_operator.operator_keys ≡ none
unfolding record_key recorded_agent decide_agent record_operator_key recorded_key lookup insert
    ◌==t◌ some_entry
key_lists_apart_example = key_lists_apart no_stanzas three_calls (codes "SHA256:a") build_agent refl

approved_names_unique_example : codes "SHA256:a" ≡ codes "SHA256:a"
unfolding record_key recorded_agent decide_agent record_operator_key recorded_key lookup insert
    ◌==t◌ some_entry
approved_names_unique_example =
    approved_names_unique no_stanzas three_calls (codes "SHA256:a") (codes "SHA256:a") build_agent
      build_agent refl refl refl refl refl

abbrev grant : Grant
grant = record { agents = codes "*" ∷ []; policies = codes "*" ∷ []; actions = codes "bind" ∷ [] }

abbrev ci_key : OperatorKey
ci_key =
    value no_key
      (approve_operator_key (codes "SHA256:b") (codes "ci") grant (codes "ops") 4 with_operator)

abbrev admitted : Store
admitted =
    after (approve_operator_key (codes "SHA256:b") (codes "ci") grant (codes "ops") 4 with_operator)

four_calls : Reach no_stanzas empty admitted
unfolding record_key recorded_agent decide_agent record_operator_key recorded_key
    approve_operator_key lookup insert ◌==t◌ some_entry
four_calls =
    next three_calls
      (operator_key_approved (codes "SHA256:b") (codes "ci") grant (codes "ops") 4 ci_key refl)

key_labels_unique_example : codes "SHA256:b" ≡ codes "SHA256:b"
unfolding record_key recorded_agent decide_agent record_operator_key recorded_key
    approve_operator_key lookup insert ◌==t◌ some_entry
key_labels_unique_example =
    key_labels_unique no_stanzas four_calls (codes "SHA256:b") (codes "SHA256:b") ci_key ci_key refl
      refl refl refl refl

-- The key is revoked, and its earlier approval is not given again.
abbrev revoked_once : Store
revoked_once = after (revoke_operator_key (codes "SHA256:b") (codes "ops") 5 admitted)

abbrev revoked_key : OperatorKey
revoked_key = value no_key (revoke_operator_key (codes "SHA256:b") (codes "ops") 5 admitted)

one_revocation : Reach no_stanzas admitted revoked_once
unfolding record_key recorded_agent decide_agent record_operator_key recorded_key
    approve_operator_key revoke_operator_key lookup insert ◌==t◌ some_entry
one_revocation =
    next here (operator_key_revoked (codes "SHA256:b") (codes "ops") 5 revoked_key refl)

decision_kept_example :
    (new : OperatorKey) × (lookup (codes "SHA256:b") revoked_once.operator_keys ≡ some new)
    × (may_become ci_key.state new.state ≡ true)
    × (new.public_key ≡ ci_key.public_key)
    × (new.label ≡ ci_key.label)
    × (new.grant ≡ ci_key.grant)
unfolding record_key recorded_agent decide_agent record_operator_key recorded_key
    approve_operator_key revoke_operator_key lookup insert ◌==t◌ some_entry
decision_kept_example = decision_kept no_stanzas one_revocation (codes "SHA256:b") ci_key refl refl
