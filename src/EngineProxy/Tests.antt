-- ===== src/EngineProxy/Tests.antt =====
-- Requests of an agent to the container engine.
use wyrwood.Base.{◌≡◌, ◌⊎◌, ◌↔◌, refl, true, false, none, some, [], ◌∷◌}
use wyrwood.Base.Text.{Text, codes, ◌==t◌, has_prefix}
use wyrwood.Base.Assoc.{lookup}
use wyrwood.EngineProxy.Types.{
  Query, Request, Codec, inspect, start, stop, Forwarded, rejected, granted,
}
use wyrwood.Policy.CleanPath.{split_on}
use wyrwood.Policy.Ttl.{atoi}
use wyrwood.EngineProxy.Patterns.{split_prefix, container_name, stop_timeout}
use wyrwood.EngineProxy.Authorize.{
  authorize, is_malformed, overrides_method, decide, asked, asked_post, asked_get, body_ok, grant,
}
use wyrwood.EngineProxy.Permission.{
  writes_need_permission, granted_method, reads_need_no_permission, is_get, is_post, is_delete,
  changes,
}

-- Texts that need no escape.
abbrev plain : Codec
plain = record {
  escape = λ s. s;
  unescape = λ s. some s;
  media_type = λ s. some s;
  fields = λ s. none;
}

abbrev to_engine : Text → Text → Query → Request
to_engine method path q = record {
  method = method;
  absolute = false;
  opaque = [];
  user = false;
  fragment = [];
  uri = path;
  escaped_path = path;
  query = some q;
  header = [];
  has_body = false;
  content_length_zero = true;
  transfer_encoding = [];
}

abbrev a_stop : Request
a_stop =
    to_engine (codes "POST") (codes "/v1.41/containers/app/stop")
      ((codes "t", codes "10" ∷ []) ∷ [])

abbrev an_inspect : Request
an_inspect = to_engine (codes "GET") (codes "/containers/app/json") []

abbrev a_start : Request
a_start = to_engine (codes "POST") (codes "/v1.41/containers/app/start") []

abbrev started : Forwarded
started = record {
  path = codes "/v1.41/containers/app/start";
  raw_path = codes "/v1.41/containers/app/start";
  query = [];
}

abbrev stopped : Forwarded
stopped = record {
  path = codes "/v1.41/containers/app/stop";
  raw_path = codes "/v1.41/containers/app/stop";
  query = (codes "t", codes "10" ∷ []) ∷ [];
}

abbrev inspected : Forwarded
inspected = record {
  path = codes "/containers/app/json";
  raw_path = codes "/containers/app/json";
  query = [];
}

a_stop_is_granted : authorize plain true a_stop ≡ granted stop stopped
unfolding authorize is_malformed has_prefix overrides_method lookup decide asked ◌==t◌ asked_post
    asked_get split_on split_prefix container_name stop_timeout atoi body_ok grant
a_stop_is_granted = refl

a_start_is_granted : authorize plain false a_start ≡ granted start started
unfolding authorize is_malformed has_prefix overrides_method lookup decide asked ◌==t◌ asked_post
    asked_get split_on split_prefix container_name stop_timeout atoi body_ok grant
a_start_is_granted = refl

an_inspect_is_granted : authorize plain false an_inspect ≡ granted inspect inspected
unfolding authorize is_malformed has_prefix overrides_method lookup decide asked ◌==t◌ asked_post
    asked_get split_on split_prefix container_name stop_timeout atoi body_ok grant
an_inspect_is_granted = refl

a_stop_is_rejected : authorize plain false a_stop ≡ rejected stop 403
unfolding authorize is_malformed has_prefix overrides_method lookup decide asked ◌==t◌ asked_post
    asked_get split_on split_prefix container_name stop_timeout atoi body_ok grant
a_stop_is_rejected = refl

writes_need_permission_example :
    ((a_start.method ≡ codes "GET") × (is_get start ≡ true))
    ⊎ ((a_start.method ≡ codes "POST")
        × (start ≡ start)
        × ((root : Text) × (name : Text) × (container_name name ≡ true)
            × (split_on b'/' (split_prefix a_start.escaped_path).1
                ≡ root ∷ codes "containers" ∷ name ∷ codes "start" ∷ [])))
writes_need_permission_example =
    writes_need_permission plain a_start start started a_start_is_granted

granted_method_example :
    ((a_stop.method ≡ codes "GET") × (is_get stop ≡ true))
    ⊎ ((a_stop.method ≡ codes "POST") × (is_post stop ≡ true))
    ⊎ ((a_stop.method ≡ codes "DELETE") × (is_delete stop ≡ true))
granted_method_example = granted_method plain true a_stop stop stopped a_stop_is_granted

reads_need_no_permission_example :
    (authorize plain false an_inspect ≡ granted inspect inspected)
    ↔ ((authorize plain true an_inspect ≡ granted inspect inspected) × (changes inspect ≡ false))
reads_need_no_permission_example = reads_need_no_permission plain an_inspect inspect inspected
