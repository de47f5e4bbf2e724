-- ===== src/VaultProxy/Tests.antt =====
-- Requests on a vault socket.
use wyrwood.Base.{◌≡◌, ◌≤◌, ◌&&◌, ◌||◌, refl, true, false, none, some, [], ◌∷◌, length, All, arith}
use wyrwood.Base.Text.{Text, codes, ◌==t◌, has_prefix, trim_prefix}
use wyrwood.Base.Assoc.{lookup, insert, remove}
use wyrwood.Base.Errors.{ok}
use wyrwood.VaultProxy.Types.{Request, View, Outside, Wrapped, Answer}
use wyrwood.VaultProxy.Paths.{login_path, token_create_path, refused_path, has_dots}
use wyrwood.VaultProxy.Headers.{Carries, delete_all}
use wyrwood.VaultProxy.Wrapped.{consume_wrapped, consume_wrapped-once, tokens_of, maximum_wrapped}
use wyrwood.VaultProxy.Serve.{serve, is_write, send, route, run_route, answer_forward}
use wyrwood.VaultProxy.Safety.{sent_with_own_token, never_revokes, never_logs_in}
use wyrwood.VaultProxy.Memory.{serve-wrapped_bounded}

-- An OpenBao that answers every request in the same way.
abbrev outside : Outside
outside = record {
  round_trip = λ u. ok (record {
    status = 200;
    header = (codes "Upgrade", codes "h2c" ∷ []) ∷ [];
    content_length = some 2;
    body = codes "{}";
    broken = false;
  });
  base_path = λ a. some (codes "/bao/");
  query_get = λ q k. [];
  valid_ca = λ pem. true;
  token_field = λ body. codes "hvs.wrap";
  wrap_info = λ body. none;
  lookup_data = λ body. none;
  looked_up = λ body. none;
  json_text = λ s. s;
  sum256 = λ s. s;
}

abbrev bound_view : View
bound_view = record {
  id = codes "b1";
  address = codes "https://bao:8200/bao/";
  namespace = codes "team";
  ca_pem = [];
  mounts = record { transit = codes "transit"; ssh = codes "ssh" };
  token = record { value = codes "hvs.real"; policies = []; ttl = some 60 };
  has_token = true;
}

-- A client that sends a token and a namespace of its own.
abbrev a_read : Request
a_read = record {
  method = codes "GET";
  path = codes "/v1/secret/data/app";
  query = [];
  header =
      (codes "X-Vault-Token", codes "stolen" ∷ [])
      ∷ (codes "X-Vault-Namespace", codes "root" ∷ [])
      ∷ (codes "Authorization", codes "Bearer x" ∷ [])
      ∷ (codes "Te", codes "trailers" ∷ [])
      ∷ [];
  body = [];
}

abbrev remembered : Wrapped
remembered = (codes "b1", (codes "hvs.wrap", 90) ∷ []) ∷ []

a_read_is_passed :
    (serve outside 100 5 a_read true bound_view []).answer ≡ Answer.passed 200 [] (codes "{}")
unfolding serve run_route has_prefix has_dots trim_prefix route ◌==t◌ refused_path answer_forward
    send lookup delete_all remove
a_read_is_passed = refl

sent_with_own_token_example :
    All
      (λ u. (true ≡ true) × (bound_view.has_token ≡ true) × Carries bound_view u.header)
      (serve outside 100 5 a_read true bound_view remembered).sent
sent_with_own_token_example = sent_with_own_token outside 100 5 a_read true bound_view remembered

never_revokes_example :
    All
      (λ u. refused_path (trim_prefix u.path (codes "/v1/")) ≡ false)
      (serve outside 100 5 a_read true bound_view remembered).sent
never_revokes_example = never_revokes outside 100 5 a_read true bound_view remembered

never_logs_in_example :
    All
      (λ u.
        (is_write u.method
          && (login_path (trim_prefix u.path (codes "/v1/"))
              || token_create_path (trim_prefix u.path (codes "/v1/"))))
        ≡ false)
      (serve outside 100 5 a_read true bound_view remembered).sent
never_logs_in_example = never_logs_in outside 100 5 a_read true bound_view remembered

nothing_remembered : (id : Text) → length (tokens_of id []) ≤ maximum_wrapped
unfolding lookup
nothing_remembered id = omega arith

serve-wrapped_bounded_example :
    length (tokens_of (codes "b1") (serve outside 100 5 a_read true bound_view []).wrapped)
    ≤ maximum_wrapped
serve-wrapped_bounded_example =
    serve-wrapped_bounded outside 100 5 a_read true bound_view [] nothing_remembered (codes "b1")

consume_wrapped-once_example :
    consume_wrapped 7 (codes "b1") (codes "hvs.wrap") ((codes "b1", []) ∷ [])
    ≡ (false, (codes "b1", []) ∷ [])
unfolding consume_wrapped lookup insert remove ◌==t◌
consume_wrapped-once_example =
    consume_wrapped-once 5 7 (codes "b1") (codes "hvs.wrap") remembered ((codes "b1", []) ∷ []) refl
