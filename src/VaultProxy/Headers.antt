-- ===== src/VaultProxy/Headers.antt =====
-- internal/vaultproxy/proxy.go: the headers of a request that goes to OpenBao.
use wyrwood.Base.{
  ◌≡◌, refl, Bool, true, false, Option, none, some, List, [], all, ◌∷◌, if◌then◌else◌, arith, ◌==◌,
  Bool-cases, ◌||◌, ap, ◌∙◌, inl, inr, subst,
}
use wyrwood.Base.Text.{Text, codes, ◌==t◌, ==t_iff, ==t_refl}
use wyrwood.Base.Assoc.{lookup, insert, remove, lookup-insert, lookup-remove}
use wyrwood.Base.Sort.{has}
use wyrwood.VaultProxy.Types.{Header, View, Request, Upstream}

-- hopHeaders
abbrev pub hop_headers : List Text
hop_headers =
    codes "Connection"
    ∷ codes "Keep-Alive"
    ∷ codes "Proxy-Authenticate"
    ∷ codes "Proxy-Authorization"
    ∷ codes "Proxy-Connection"
    ∷ codes "Te"
    ∷ codes "Trailer"
    ∷ codes "Transfer-Encoding"
    ∷ codes "Upgrade"
    ∷ []

-- Header.Del of each name.
unfoldable pub delete_all : List Text → Header → Header
delete_all [] h = h
delete_all (n ∷ ns) h = delete_all ns (remove n h)

abbrev pub set_namespace : Text → Header → Header
set_namespace [] h = h
set_namespace (c ∷ s) h = insert (codes "X-Vault-Namespace") ((c ∷ s) ∷ []) h

-- The headers that roundTrip sends.
unfoldable pub upstream_header : View → Header → Header
upstream_header v h = set_namespace v.namespace (
    insert (codes "X-Vault-Token") (v.token.value ∷ []) (
      remove (codes "X-Vault-Namespace") (
        remove (codes "X-Vault-Token")
          (remove (codes "Authorization") (delete_all hop_headers h)))))

-- strings.TrimRight(path, "/")
unfoldable pub trim_slashes : Text → Text
trim_slashes [] = []
trim_slashes (c ∷ s) = elim (trim_slashes s) [
  | [] ↦ if c == b'/' then [] else c ∷ []
  | d ∷ t ↦ c ∷ d ∷ t
]

unfoldable pub upstream_request : Text → Request → View → Upstream
unfolding trim_slashes
upstream_request base r v = record {
  address = v.address;
  method = r.method;
  base = trim_slashes base;
  path = r.path;
  query = r.query;
  header = upstream_header v r.header;
  body = r.body;
}

lookup-delete_all :
    (n : Text) (ns : List Text) (h : Header)
    → lookup n (delete_all ns h) ≡ (if has n ns then none else lookup n h)
unfolding delete_all has
lookup-delete_all n [] h = refl
lookup-delete_all n (m ∷ ns) h =
    ground
      (arith, lookup-delete_all n ns (remove m h), lookup-remove m n h, ==t_iff m n, ==t_iff n m)

abbrev namespace_values : Text → Option (List Text)
namespace_values [] = none
namespace_values (c ∷ s) = some ((c ∷ s) ∷ [])

abbrev absent : Header → Text → Bool
absent h n = elim (lookup n h) [ none ↦ true | some _ ↦ false ]

-- What a request to OpenBao carries: the token and the namespace of the binding, whatever the
-- client sent, and neither an authorization nor a hop header of the client.
pub record Carries (v : View) (h : Header) : Type 0 where
  pub token : lookup (codes "X-Vault-Token") h ≡ some (v.token.value ∷ [])
  pub namespace : lookup (codes "X-Vault-Namespace") h ≡ namespace_values v.namespace
  pub authorization : lookup (codes "Authorization") h ≡ none
  pub hop : all (absent h) hop_headers ≡ true

all_of_has :
    (p : Text → Bool) (ns : List Text)
    → ((n : Text) → has n ns ≡ true → p n ≡ true)
    → all p ns ≡ true
unfolding has
all_of_has p [] h = refl
all_of_has p (n ∷ ns) h =
    ground (arith, h n, ==t_refl n, all_of_has p ns (λ m k. h m (ground (arith, k))))

not_hop : (n m : Text) → has n hop_headers ≡ true → has m hop_headers ≡ false → (m ==t n) ≡ false
not_hop n m h k = elim (Bool-cases (m ==t n)) [
  | inl same ↦ cc (subst (λ x. has x hop_headers ≡ false) ((==t_iff m n).0 same) k)
  | inr other ↦ other
]

-- One name in the headers that are sent.
abbrev sent_value : View → Header → Text → Option (List Text)
sent_value v h n =
    if codes "X-Vault-Namespace" ==t n
    then namespace_values v.namespace
    else if codes "X-Vault-Token" ==t n
    then some (v.token.value ∷ [])
    else if (codes "Authorization" ==t n) || has n hop_headers
    then none
    else lookup n h

lookup-set_namespace :
    (n ns : Text) (h : Header)
    → lookup (codes "X-Vault-Namespace") h ≡ none
    → lookup n (set_namespace ns h)
      ≡ (if codes "X-Vault-Namespace" ==t n then namespace_values ns else lookup n h)
lookup-set_namespace n [] h gone = ground (arith, ==t_iff (codes "X-Vault-Namespace") n)
lookup-set_namespace n (c ∷ s) h gone = lookup-insert (codes "X-Vault-Namespace") n ((c ∷ s) ∷ []) h

-- The names that are replaced, kept apart from the rest.
lookup-replaced :
    (token auth space n : Text) (value : List Text) (h : Header)
    → lookup n
        (insert token value (remove space (remove token (remove auth (delete_all hop_headers h)))))
      ≡ (if token ==t n
          then some value
          else if (space ==t n) || (auth ==t n) || has n hop_headers
          then none
          else lookup n h)
lookup-replaced token auth space n value h =
    let clean = delete_all hop_headers h in
    ground (
      arith,
      lookup-insert token n value (remove space (remove token (remove auth clean))),
      lookup-remove space n (remove token (remove auth clean)),
      lookup-remove token n (remove auth clean),
      lookup-remove auth n clean,
      lookup-delete_all n hop_headers h,
    )

lookup-upstream_header :
    (v : View) (h : Header) (n : Text) → lookup n (upstream_header v h) ≡ sent_value v h n
unfolding upstream_header ◌==t◌
lookup-upstream_header v h n =
    let token = codes "X-Vault-Token" in
    let space = codes "X-Vault-Namespace" in
    let auth = codes "Authorization" in
    let replaced = λ (m : Text). lookup-replaced token auth space m (v.token.value ∷ []) h in
    lookup-set_namespace n v.namespace _ (replaced space)
    ∙ ap (λ (x : Option (List Text)). if space ==t n then namespace_values v.namespace else x)
        (replaced n)
    ∙ ground arith

token_not_hop : has (codes "X-Vault-Token") hop_headers ≡ false
unfolding has ◌==t◌
token_not_hop = refl

namespace_not_hop : has (codes "X-Vault-Namespace") hop_headers ≡ false
unfolding has ◌==t◌
namespace_not_hop = refl

sent_value-hop :
    (v : View) (h : Header) (n : Text) → has n hop_headers ≡ true → sent_value v h n ≡ none
sent_value-hop v h n hop = ground (
  arith,
  not_hop n (codes "X-Vault-Token") hop token_not_hop,
  not_hop n (codes "X-Vault-Namespace") hop namespace_not_hop,
)

hop_gone :
    (v : View) (h : Header) (n : Text)
    → has n hop_headers ≡ true
    → absent (upstream_header v h) n ≡ true
hop_gone v h n hop =
    ap (λ (x : Option (List Text)). elim x [ none ↦ true | some _ ↦ false ])
      (lookup-upstream_header v h n ∙ sent_value-hop v h n hop)

pub upstream_header-Carries : (v : View) (h : Header) → Carries v (upstream_header v h)
unfolding has ◌==t◌
upstream_header-Carries v h = record {
  token = lookup-upstream_header v h (codes "X-Vault-Token");
  namespace = lookup-upstream_header v h (codes "X-Vault-Namespace");
  authorization = lookup-upstream_header v h (codes "Authorization");
  hop = all_of_has (absent (upstream_header v h)) hop_headers (hop_gone v h);
}
