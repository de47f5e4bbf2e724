-- ===== src/Operator/Tests.antt =====
-- Runs of the requests of an operator key.
use wyrwood.Base.{◌≡◌, ◌⊎◌, true, false, none, some, [], ◌∷◌}
use wyrwood.Base.Text.{codes}
use wyrwood.Base.Errors.{ok, err}
use wyrwood.Store.Tables.{OperatorKey, OperatorKeyState}
use wyrwood.Store.OperatorKeys.{operator_key, is_approved}
use wyrwood.Controller.World.{World}
use wyrwood.Controller.Samples.{outside, one_binding, world}
use wyrwood.Operator.Grants.{action_read, action_bind}
use wyrwood.Operator.Messages.{RequestError, Answer, Request, unbind}
use wyrwood.Operator.Requests.{dispatch}
use wyrwood.Operator.Requests.Shown.{Shows}
use wyrwood.Operator.Requests.Inside.{permits, dispatch-inside_grant}

-- An approved key that may bind policies of the agent lab, and not of the agent build.
abbrev lab_key : OperatorKey
lab_key = record {
  label = codes "ci";
  public_key = codes "pk";
  state = OperatorKeyState.approved;
  grant = record {
    agents = codes "lab" ∷ [];
    policies = codes "deploy" ∷ [];
    actions = action_read ∷ action_bind ∷ [];
  };
  first_seen = 1;
  decided_at = some 2;
  decided_by = codes "ops";
  revoked_at = none;
  revoked_by = [];
  last_used = none;
}

abbrev asked_world : World outside
asked_world =
    world (record one_binding { operator_keys = (codes "SHA256:k", lab_key) ∷ [] }) [] false

-- The binding b1 of the agent build.
abbrev retire_web : Request
retire_web = unbind (record { id = codes "b1"; agent = []; key = none })

dispatch-inside_grant_example :
    let x = dispatch outside (codes "SHA256:k") (codes "b2") 9 retire_web asked_world in
    ((k : OperatorKey) × (operator_key (codes "SHA256:k") asked_world.db ≡ ok k)
      × (is_approved k.state ≡ true)
      × (permits k retire_web asked_world.db ≡ true)
      × ((a : Answer) → x.0 ≡ ok a → Shows k a))
    ⊎ ((x.1.db ≡ asked_world.db)
        × (x.1.bao ≡ asked_world.bao)
        × ((e : RequestError) × (x.0 ≡ err e)))
dispatch-inside_grant_example =
    dispatch-inside_grant outside (codes "SHA256:k") (codes "b2") 9 retire_web asked_world
