-- ===== src/EngineProxy/Authorize.antt =====
-- internal/engineproxy/policy.go: authorize.
use wyrwood.Base.{
  Bool, true, false, not, ◌&&◌, ◌||◌, Option, none, some, List, [], ◌∷◌, ◌++◌, any, length, ◌==◌,
  if◌then◌else◌,
}
use wyrwood.Base.Text.{Text, codes, ◌==t◌, has_prefix}
use wyrwood.Base.Assoc.{lookup}
use wyrwood.Policy.CleanPath.{split_on}
use wyrwood.EngineProxy.Types.{
  Query, Request, Codec, Operation, request, list, inspect, events, image_inspect, create, remove,
  start, stop, Verdict, rejected, granted,
}
use wyrwood.EngineProxy.Patterns.{
  split_prefix, container_name, safe_reference, single, exact_query, stop_timeout, valid_filters,
  non_empty,
}

abbrev pub override_headers : List Text
override_headers =
    codes "Upgrade"
    ∷ codes "X-Http-Method-Override"
    ∷ codes "X-Method-Override"
    ∷ codes "X-Http-Method"
    ∷ []

abbrev present : Option (List Text) → Bool
present none = false
present (some _) = true

-- The first guard.
unfoldable pub is_malformed : Request → Bool
is_malformed r =
    r.absolute
    || non_empty r.opaque
    || r.user
    || non_empty r.fragment
    || not (has_prefix r.uri (codes "/"))

unfoldable pub overrides_method : Request → Bool
overrides_method r = any (λ h. present (lookup h r.header)) override_headers

abbrev pub holds : (Text → Bool) → Option Text → Bool
holds test none = false
holds test (some value) = test value

abbrev pub is_single : Query → Bool
is_single q = length q == 1

-- The variables that the switch sets: the operation, `write`, which asks for the permission of the
-- host, and the path that is forwarded behind the prefix.
pub data Asked : Type 0 where
  unknown : Asked
  asks : Operation → Bool → Text → Asked

-- The cases with the method GET.
unfoldable pub asked_get : Codec → Text → List Text → Query → Asked
asked_get c path (root ∷ kind ∷ name ∷ last ∷ []) q =
    if (kind ==t codes "containers")
      && container_name name
      && (last ==t codes "json")
      && (length q == 0)
    then asks inspect false path
    else if (kind ==t codes "images") && (last ==t codes "json") && (length q == 0)
    then elim (c.unescape name) [
      | none ↦ unknown
      | some reference ↦
          if safe_reference reference
          then asks image_inspect false (codes "/images/" ++ c.escape reference ++ codes "/json")
          else unknown
    ]
    else unknown
asked_get c path parts q =
    if (path ==t codes "/containers/json") && exact_query q ((codes "all", codes "1") ∷ [])
    then asks list false path
    else if (path ==t codes "/events")
        && is_single q
        && holds (valid_filters c) (single (codes "filters") q)
    then asks events false path
    else unknown

-- The cases with the method POST.
unfoldable pub asked_post : Text → List Text → Query → Asked
asked_post path (root ∷ kind ∷ name ∷ last ∷ []) q =
    if (kind ==t codes "containers") && container_name name
    then if (last ==t codes "start") && (length q == 0)
      then asks start false path
      else if (last ==t codes "stop") && is_single q && holds stop_timeout (single (codes "t") q)
      then asks stop true path
      else unknown
    else unknown
asked_post path parts q =
    if (path ==t codes "/containers/create")
      && is_single q
      && holds container_name (single (codes "name") q)
    then asks create true path
    else unknown

-- The case with the method DELETE.
unfoldable pub asked_delete : Text → List Text → Query → Asked
asked_delete path (root ∷ kind ∷ name ∷ []) q =
    if (kind ==t codes "containers")
      && container_name name
      && exact_query q ((codes "v", codes "0") ∷ (codes "force", codes "0") ∷ [])
    then asks remove true path
    else unknown
asked_delete path parts q = unknown

-- The switch. A path has the number of its parts, so a case for one number of parts excludes the
-- paths that the other cases write out.
unfoldable pub asked : Codec → Text → Text → Query → Asked
asked c method path q =
    let parts = split_on b'/' path in
    if method ==t codes "GET"
    then asked_get c path parts q
    else if method ==t codes "POST"
    then asked_post path parts q
    else if method ==t codes "DELETE"
    then asked_delete path parts q
    else unknown

abbrev first_value : Option (List Text) → Text
first_value (some (value ∷ values)) = value
first_value _ = []

abbrev is_json : Option Text → Bool
is_json none = false
is_json (some media) = media ==t codes "application/json"

-- The test of the body.
unfoldable pub body_ok : Codec → Operation → Request → Bool
body_ok c create r =
    is_json (c.media_type (first_value (lookup (codes "Content-Type") r.header))) && r.has_body
body_ok c _ r = r.content_length_zero && (length r.transfer_encoding == 0)

unfoldable pub grant : Codec → Operation → Text → Text → Query → Verdict
grant c operation prefix path q = elim (c.unescape (prefix ++ path)) [
  | none ↦ rejected operation 400
  | some decoded ↦
      granted operation (record { path = decoded; raw_path = prefix ++ path; query = q })
]

-- authorize behind the switch
unfoldable pub decide : Codec → Bool → Request → Text → Query → Asked → Verdict
decide c recreate r prefix q unknown = rejected request 403
decide c recreate r prefix q (asks operation write path) =
    if write && not recreate
    then rejected operation 403
    else if body_ok c operation r
    then grant c operation prefix path q
    else rejected operation 400

-- authorize
unfoldable pub authorize : Codec → Bool → Request → Verdict
authorize c recreate r =
    if is_malformed r
    then rejected request 400
    else if overrides_method r
    then rejected request 403
    else elim r.query [
      | none ↦ rejected request 400
      | some q ↦
          let (prefix, path) = split_prefix r.escaped_path in
          decide c recreate r prefix q (asked c r.method path q)
    ]
