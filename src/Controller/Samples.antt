-- ===== src/Controller/Samples.antt =====
-- An OpenBao that documents its calls as the theorems ask, and small worlds for the tests.
use wyrwood.Base.{
  ℕ, ◌≡◌, refl, Bool, true, false, Option, none, some, List, [], ◌∷◌, arith, if◌then◌else◌,
}
use wyrwood.Base.Text.{Text, codes, ◌==t◌, ==t_refl}
use wyrwood.Base.Errors.{Result, ok, err}
use wyrwood.Policy.Hcl.{Hcl}
use wyrwood.Policy.Types.{Policy, Effective, Settings}
use wyrwood.Protocol.Types.{Key}
use wyrwood.Protocol.Codec.{Codec}
use wyrwood.Store.Tables.{Store, empty, PolicyRow, BindingRow}
use wyrwood.Controller.Errors.{Category}
use wyrwood.Controller.World.{Manager, Outside, World, Fault}
use wyrwood.Controller.Published.{Documented}
use wyrwood.Controller.Roles.Applied.{RoleLaws}

-- What the OpenBao of the tests holds.
pub record Vault : Type 0 where
  pub held : Text → Option Text
  pub roles : Text → Option (List Text)
  pub ended : Text → Bool

-- A table with one entry changed.
abbrev pub put {ℓ} : {A : Type ℓ} → Text → A → (Text → A) → Text → A
put n v table k = if n ==t k then v else table k

abbrev found : {A : Type 0} → Option A → Bool
found none = false
found (some _) = true

-- A call on a name that is empty is refused.
abbrev named : Text → (Vault → Vault) → Vault → Result Category (Unit {0}) × Vault
named [] change s = (err Category.invalid, s)
named (c ∷ n) change s = (ok tt, change s)

abbrev pub plain : Manager
plain = record {
  State = Vault;
  write_policy = λ n h. named n (λ s. record s { held = put n (some h) s.held });
  delete_policy = λ n. named n (λ s. record s { held = put n none s.held });
  policy_exists = λ n s. (ok (found (s.held n)), s);
  write_role = λ n ns ttl max. named n (λ s. record s { roles = put n (some ns) s.roles });
  delete_role = λ n. named n (λ s. record s { roles = put n none s.roles });
  revoke_accessor = λ a. named a (λ s. record s { ended = put a true s.ended });
  role_id = λ n s. (ok (codes "role-id"), s);
  wrapped_secret_id = λ n values s. (ok (codes "wrapped"), s);
  transit_key_exists = λ n s. (ok true, s);
  ssh_role_exists = λ n s. (ok true, s);
  approle_mount = codes "approle";
}

put-same : {A : Type 0} (n : Text) (v : A) (table : Text → A) → put n v table n ≡ v
put-same n v table = ground (arith, ==t_refl n)

put-other :
    {A : Type 0} (n k : Text) (v : A) (table : Text → A)
    → (n ==t k) ≡ false
    → put n v table k ≡ table k
put-other n k v table h = ground arith

pub written :
    (n h : Text) (s : Vault)
    → (plain.write_policy n h s).0 ≡ ok tt
    → (plain.write_policy n h s).1.held n ≡ some h
written [] h s e = cc
written (c ∷ n) h s e = put-same (c ∷ n) (some h) s.held

pub written_apart :
    (n h k : Text) (s : Vault) → (n ==t k) ≡ false → (plain.write_policy n h s).1.held k ≡ s.held k
written_apart [] h k s e = refl
written_apart (c ∷ n) h k s e = put-other (c ∷ n) k (some h) s.held e

pub refused :
    (n h k : Text) (s : Vault)
    → (plain.write_policy n h s).0 ≡ err Category.invalid
    → (plain.write_policy n h s).1.held k ≡ s.held k
refused [] h k s e = refl
refused (c ∷ n) h k s e = cc

pub deleted :
    (n : Text) (s : Vault)
    → (plain.delete_policy n s).0 ≡ ok tt
    → (plain.delete_policy n s).1.held n ≡ none
deleted [] s e = cc
deleted (c ∷ n) s e = put-same (c ∷ n) none s.held

pub deleted_apart :
    (n k : Text) (s : Vault) → (n ==t k) ≡ false → (plain.delete_policy n s).1.held k ≡ s.held k
deleted_apart [] k s e = refl
deleted_apart (c ∷ n) k s e = put-other (c ∷ n) k none s.held e

pub exists : (n : Text) (s : Vault) → (plain.policy_exists n s).0 ≡ ok false → s.held n ≡ none
exists n s e = go (s.held n) e
  where
    go :
        (o : Option Text) → (let r : Result Category Bool = ok (found o) in r) ≡ ok false → o ≡ none
    go none h = refl
    go (some t) h = cc

pub role_kept :
    (n k : Text) (ns : List Text) (s : Vault)
    → (named n (λ v. record v { roles = put n (some ns) v.roles }) s).1.held k ≡ s.held k
role_kept [] k ns s = refl
role_kept (c ∷ n) k ns s = refl

pub delete_kept : (n k : Text) (s : Vault) → (plain.delete_role n s).1.held k ≡ s.held k
delete_kept [] k s = refl
delete_kept (c ∷ n) k s = refl

pub revoke_kept : (n k : Text) (s : Vault) → (plain.revoke_accessor n s).1.held k ≡ s.held k
revoke_kept [] k s = refl
revoke_kept (c ∷ n) k s = refl

abbrev pub documented : Documented plain
documented = record {
  view = λ s. s.held;
  write-ok = written;
  write-other = written_apart;
  write-invalid = refused;
  delete-ok = deleted;
  delete-other = deleted_apart;
  exists-view = exists;
  exists-keeps = λ n k s. refl;
  role-keeps = λ n k ns ttl max s. role_kept n k ns s;
  delete_role-keeps = delete_kept;
  revoke-keeps = revoke_kept;
  role_id-keeps = λ n k s. refl;
  wrapped-keeps = λ n k values s. refl;
  transit-keeps = λ n k s. refl;
  ssh-keeps = λ n k s. refl;
}

pub role_given :
    (n : Text) (ns : List Text) (ttl max : ℕ) (s : Vault)
    → (plain.write_role n ns ttl max s).0 ≡ ok tt
    → (plain.write_role n ns ttl max s).1.roles n ≡ some ns
role_given [] ns ttl max s e = cc
role_given (c ∷ n) ns ttl max s e = put-same (c ∷ n) (some ns) s.roles

pub role_deleted :
    (n : Text) (s : Vault)
    → (plain.delete_role n s).0 ≡ ok tt
    → (plain.delete_role n s).1.roles n ≡ none
role_deleted [] s e = cc
role_deleted (c ∷ n) s e = put-same (c ∷ n) none s.roles

pub token_ended :
    (a : Text) (s : Vault)
    → (plain.revoke_accessor a s).0 ≡ ok tt
    → (plain.revoke_accessor a s).1.ended a ≡ true
token_ended [] s e = cc
token_ended (c ∷ a) s e = put-same (c ∷ a) true s.ended

pub roles_kept : (a n : Text) (s : Vault) → (plain.revoke_accessor a s).1.roles n ≡ s.roles n
roles_kept [] n s = refl
roles_kept (c ∷ a) n s = refl

abbrev pub role_laws : RoleLaws plain
role_laws = record {
  role = λ s. s.roles;
  revoked = λ s. s.ended;
  write_role-ok = role_given;
  delete_role-ok = role_deleted;
  revoke-ok = token_ended;
  revoke-role = roles_kept;
  role_id-role = λ n k s. refl;
  wrapped-role = λ n k values s. refl;
  role_id-revoked = λ n a s. refl;
  wrapped-revoked = λ n a values s. refl;
}

-- A parser that finds no stanza.
abbrev no_stanzas : Hcl
no_stanzas = record {
  parse = λ s. some [];
  unquote = λ s. none;
  decode_rules = λ s. some [];
  print = λ is. none;
}

abbrev no_messages : Codec
no_messages = record {
  hcl = no_stanzas;
  absolute_uri = λ s. true;
  marshal = λ m. none;
  marshal_fields = λ fields. none;
  unmarshal_fields = λ s. none;
  unmarshal_int = λ s. none;
  unmarshal_string = λ s. none;
  decode_strict = λ t s. none;
}

abbrev pub outside : Outside
outside = record {
  manager = plain;
  codec = no_messages;
  agent_open_bao = record {
    address = codes "https://bao";
    ca_pem = [];
    namespace = [];
    transit_mount = codes "transit";
    ssh_mount = codes "ssh";
  };
  effective_json = λ e. codes "assignment";
  assignment_json = λ n e. codes "revision";
  sha256_hex = λ t. t;
  deep_equal = λ p q. false;
  lower = λ t. t;
}

abbrev pub deploy : Policy
deploy = record {
  name = codes "deploy";
  revision = 1;
  open_bao = record { policy = []; agent_token_renewal = none };
  ssh = none;
  contract = record { mount_target = codes "/run/w"; env = [] };
  generation = 1;
}

abbrev pub deploy_row : PolicyRow
deploy_row = record {
  revision = 1;
  document = deploy;
  saved_at = 1;
  saved_by = codes "ops";
  generation = 1;
}

abbrev pub unset : Settings
unset = record {
  token_ttl = [];
  token_max_ttl = [];
  access_group = none;
  enforcement = codes "report";
  values = [];
}

abbrev pub effective : Effective
effective = record {
  sources = record { name = codes "deploy"; revision = 1; hcl = []; generation = 1 } ∷ [];
  open_bao = record { policy = []; agent_token_renewal = none };
  ssh = none;
  contract = record {
    mount_target = codes "/run/w";
    env = [];
    access_group = none;
    enforcement = codes "report";
  };
  settings = unset;
}

abbrev pub web_key : Key
web_key = record { kind = codes "name"; value = codes "web" }

abbrev pub web_row : BindingRow
web_row = record {
  agent = codes "build";
  key = web_key;
  settings = unset;
  revision = 1;
  effective = effective;
  applied = false;
  role = codes "wyrwood-build-b1";
  created_at = 4;
  created_by = codes "ops";
}

-- One policy that no binding holds.
abbrev pub one_policy : Store
one_policy = record empty { policies = (codes "deploy", deploy_row) ∷ [] }

-- One policy with one binding, whose token is known and which waits for its transition.
abbrev pub one_binding : Store
one_binding = record one_policy {
  bindings = (codes "b1", web_row) ∷ [];
  members = (codes "b1", codes "deploy") ∷ [];
  tokens = (codes "b1", record { accessor = codes "acc"; updated_at = 2 }) ∷ [];
}

abbrev pub nothing_held : Vault
nothing_held = record { held = λ n. none; roles = λ n. none; ended = λ a. false }

abbrev pub world : Store → List Fault → Bool → World outside
world s faults waiting = record {
  db = s;
  faults = faults;
  bao = nothing_held;
  sync_pending = waiting;
  sessions = [];
}
