-- ===== src/VaultProxy/Serve.antt =====
-- internal/vaultproxy/proxy.go: the handler of one request.
use wyrwood.Base.{
  ℕ, ◌+◌, ◌*◌, ◌/◌, ◌%◌, ◌^◌, Bool, true, not, ◌&&◌, ◌||◌, Option, none, some, List, [], ◌∷◌, ◌++◌,
  length, ltb, leb, ◌==◌, if◌then◌else◌, take,
}
use wyrwood.Base.Text.{Text, codes, ◌==t◌, has_prefix, trim_prefix}
use wyrwood.Base.Assoc.{lookup, remove}
use wyrwood.Base.Errors.{Result, ok, err}
use wyrwood.Policy.Compose.Loop.{replace_all}
use wyrwood.VaultProxy.Types.{
  Request, View, Upstream, Response, Failure, Outside, Outcome, done, denied, failed, timeout,
  ErrorCode, openbao_unavailable, openbao_denied, openbao_timeout, no_token, not_bound,
  policy_denied, protocol, Auth, Answer, Wrapped, Exchange,
}
use wyrwood.VaultProxy.Paths.{login_path, token_create_path, refused_path, has_dots, non_empty}
use wyrwood.VaultProxy.Headers.{upstream_request, delete_all, hop_headers}
use wyrwood.VaultProxy.Wrapped.{remember_wrapped, consume_wrapped}

abbrev maximum_scrubbed_response_bytes : ℕ
maximum_scrubbed_response_bytes = 32 * 2 ^ 20

abbrev maximum_looked_up_bytes : ℕ
maximum_looked_up_bytes = 2 ^ 20

abbrev hex_digit : ℕ → ℕ
hex_digit n = if ltb n 10 then n + 48 else n + 87

-- hex.EncodeToString
unfoldable pub hex : Text → Text
hex [] = []
hex (b ∷ s) = hex_digit (b / 16) ∷ hex_digit (b % 16) ∷ hex s

-- Placeholder
unfoldable pub placeholder_token : Outside → Text → Text
unfolding hex
placeholder_token o id =
    codes "wyrwood." ++ hex (take 12 (o.sum256 (codes "wyrwood-placeholder:" ++ id)))

-- syntheticAuth
unfoldable pub synthetic_auth : View → Text → Auth
synthetic_auth v placeholder = record {
  client_token = placeholder;
  accessor = [];
  policies = v.token.policies;
  lease_duration = elim v.token.ttl [ none ↦ 0 | some seconds ↦ seconds ];
  renewable = true;
}

-- timeoutOutcome
abbrev pub failure_outcome : Failure → Outcome × ErrorCode
failure_outcome Failure.timed_out = (timeout, openbao_timeout)
failure_outcome Failure.too_large = (failed, openbao_unavailable)
failure_outcome Failure.unreachable = (failed, openbao_unavailable)

-- statusOutcome
unfoldable pub status_outcome : ℕ → Outcome × ErrorCode
status_outcome status =
    if ltb status 400
    then (done, ErrorCode.none)
    else if (status == 401) || (status == 403)
    then (denied, openbao_denied)
    else if leb 500 status
    then (failed, openbao_unavailable)
    else (failed, protocol)

abbrev finish : Answer → Outcome × ErrorCode → List Upstream → Wrapped → Exchange
finish answer (outcome, code) sent wrapped = record {
  answer = answer;
  outcome = outcome;
  code = code;
  sent = sent;
  wrapped = wrapped;
}

-- The requests that roundTrip sends, and what comes of it: the address and its CA must parse, and
-- a body above the limit ends the round trip in an error.
unfoldable pub send : Outside → ℕ → Request → View → List Upstream × Result Failure Response
unfolding upstream_request
send o maximum r v = elim (o.base_path v.address) [
  | none ↦ ([], err Failure.unreachable)
  | some base ↦
      if non_empty v.ca_pem && not (o.valid_ca v.ca_pem)
      then ([], err Failure.unreachable)
      else let u = upstream_request base r v in
        (u ∷ [], if ltb maximum (length r.body) then err Failure.too_large else o.round_trip u)
]

-- lookupSelf
unfoldable pub answer_lookup :
    Outside → View → Text → List Upstream × Result Failure Response → Wrapped → Exchange
unfolding status_outcome
answer_lookup o v placeholder (sent, err failure) w =
    finish (Answer.errors 502) (failure_outcome failure) sent w
answer_lookup o v placeholder (sent, ok response) w =
    if not (response.status == 200)
    then finish (Answer.errors response.status) (status_outcome response.status) sent w
    else elim (o.lookup_data (take maximum_scrubbed_response_bytes response.body)) [
      | none ↦ finish (Answer.errors 403) (denied, openbao_denied) sent w
      | some fields ↦
          finish (Answer.looked_data (replace_all fields (o.json_text v.token.value) placeholder))
            (done, ErrorCode.none) sent w
    ]

-- renewSelf
unfoldable pub answer_renewal :
    Outside → View → Text → List Upstream × Result Failure Response → Wrapped → Exchange
unfolding synthetic_auth
answer_renewal o v placeholder (sent, err failure) w =
    finish (Answer.errors 502) (failure_outcome failure) sent w
answer_renewal o v placeholder (sent, ok response) w =
    elim (if response.status == 200
      then o.looked_up (take maximum_looked_up_bytes response.body)
      else none) [
        | none ↦ finish (Answer.errors 403) (denied, openbao_denied) sent w
        | some looked ↦
            finish
              (Answer.synthetic (record (synthetic_auth v placeholder) {
                accessor = looked.accessor;
                policies = looked.policies;
                lease_duration = looked.ttl;
                renewable = looked.renewable;
              }))
              (done, ErrorCode.none) sent w
      ]

abbrev first_value : Option (List Text) → Text
first_value (some (value ∷ values)) = value
first_value _ = []

abbrev at_most : ℕ → Option ℕ → Bool
at_most n none = true
at_most n (some m) = leb m n

-- Whether forward scrubs the response.
unfoldable pub is_scrubbed : Response → Bool
is_scrubbed r =
    has_prefix (first_value (lookup (codes "Content-Type") r.header)) (codes "application/json")
    && at_most maximum_scrubbed_response_bytes r.content_length

-- forward
unfoldable pub answer_forward :
    Outside → ℕ → View → Text → List Upstream × Result Failure Response → Wrapped → Exchange
unfolding status_outcome is_scrubbed
answer_forward o now v placeholder (sent, err Failure.too_large) w =
    finish (Answer.errors 413) (failed, protocol) sent w
answer_forward o now v placeholder (sent, err Failure.timed_out) w =
    finish (Answer.errors 502) (failure_outcome Failure.timed_out) sent w
answer_forward o now v placeholder (sent, err Failure.unreachable) w =
    finish (Answer.errors 502) (failure_outcome Failure.unreachable) sent w
answer_forward o now v placeholder (sent, ok r) w =
    let header = delete_all hop_headers r.header in
    let body = replace_all r.body v.token.value placeholder in
    if is_scrubbed r
    then if r.broken || ltb maximum_scrubbed_response_bytes (length r.body)
      then finish (Answer.errors 502) (failed, openbao_unavailable) sent w
      else finish (Answer.passed r.status (remove (codes "Content-Length") header) body)
          (status_outcome r.status) sent (remember_wrapped o now v.id body w)
    else finish (Answer.passed r.status header r.body) (status_outcome r.status) sent w

abbrev pub is_write : Text → Bool
is_write method = (method ==t codes "POST") || (method ==t codes "PUT")

abbrev pub is_read : Text → Bool
is_read method = (method ==t codes "GET") || (method ==t codes "HEAD")

-- The request that asks OpenBao for the token itself.
abbrev pub renewal_lookup : Request → Request
renewal_lookup r = record r {
  method = codes "GET";
  path = codes "/v1/auth/token/lookup-self";
  query = [];
  body = [];
}

-- The answer to sys/wrapping/unwrap, which only takes a token that this container created.
unfoldable pub serve_unwrap : Outside → ℕ → ℕ → Request → View → Text → Wrapped → Exchange
serve_unwrap o maximum now r v placeholder w =
    let token = o.token_field r.body in
    let (taken, left) = consume_wrapped now v.id token w in
    if ltb maximum (length r.body)
    then finish (Answer.errors 413) (failed, protocol) [] w
    else if non_empty token && taken
    then answer_forward o now v placeholder (send o maximum r v) left
    else finish (Answer.errors 403) (denied, policy_denied) [] w

-- The cases of serve's switch.
pub data Route : Type 0 where
  to_lookup to_login to_renewal to_refusal to_unwrap to_forward : Route

unfoldable pub route : Text → Text → Route
route path method =
    if (path ==t codes "auth/token/lookup-self") && is_read method
    then to_lookup
    else if is_write method && (login_path path || token_create_path path)
    then to_login
    else if (path ==t codes "auth/token/renew-self") && is_write method
    then to_renewal
    else if refused_path path
    then to_refusal
    else if path ==t codes "sys/wrapping/unwrap"
    then to_unwrap
    else to_forward

unfoldable pub run_route : Outside → ℕ → ℕ → Route → Request → View → Text → Wrapped → Exchange
run_route o maximum now to_lookup r v placeholder w =
    answer_lookup o v placeholder (send o maximum (record r { method = codes "GET" }) v) w
run_route o maximum now to_login r v placeholder w =
    finish (Answer.synthetic (synthetic_auth v placeholder)) (done, ErrorCode.none) [] w
run_route o maximum now to_renewal r v placeholder w =
    answer_renewal o v placeholder (send o maximum (renewal_lookup r) v) w
run_route o maximum now to_refusal r v placeholder w =
    finish (Answer.errors 403) (denied, policy_denied) [] w
run_route o maximum now to_unwrap r v placeholder w = serve_unwrap o maximum now r v placeholder w
run_route o maximum now to_forward r v placeholder w =
    answer_forward o now v placeholder (send o maximum r v) w

-- serve, where `bound` and `v` are what lookup returns
unfoldable pub serve : Outside → ℕ → ℕ → Request → Bool → View → Wrapped → Exchange
serve o maximum now r bound v w =
    let path = trim_prefix r.path (codes "/v1/") in
    if not (has_prefix r.path (codes "/v1/")) || has_dots path
    then finish (Answer.errors 404) (failed, protocol) [] w
    else if not bound
    then finish (Answer.unavailable (codes "not-bound")) (denied, not_bound) [] w
    else if not v.has_token
    then finish (Answer.unavailable (codes "no-token")) (failed, no_token) [] w
    else run_route o maximum now (route path r.method) r v (placeholder_token o v.id) w
