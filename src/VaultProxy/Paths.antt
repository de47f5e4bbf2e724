-- ===== src/VaultProxy/Paths.antt =====
-- internal/vaultproxy/proxy.go: the patterns of the paths that the proxy answers itself.
use wyrwood.Base.{
  Bool, true, false, not, ◌&&◌, ◌||◌, Option, none, some, [], ◌∷◌, any, ◌==◌, if◌then◌else◌,
}
use wyrwood.Base.Text.{Text, codes, ◌==t◌, has_prefix, strip_prefix}
use wyrwood.Policy.Lifecycle.{segment_run}
use wyrwood.VaultProxy.Types.{
  Mount, kv, transit, ssh, sys, auth, other, Mounts, Method, list, get, post, put, delete, Request,
  Outside,
}

-- (/.*)?$
abbrev pub is_tail : Text → Bool
is_tail [] = true
is_tail (c ∷ s) = (c == b'/') && not (any (λ d. d == 10) s)

abbrev pub with_tail : Option Text → Bool
with_tail none = false
with_tail (some rest) = is_tail rest

abbrev pub non_empty : Text → Bool
non_empty [] = false
non_empty (_ ∷ _) = true

-- loginPath
unfoldable pub login_path : Text → Bool
unfolding strip_prefix segment_run
login_path path = elim (strip_prefix (codes "auth/") path) [
  | none ↦ false
  | some rest ↦
      non_empty (segment_run rest).0
      && with_tail (strip_prefix (codes "/login") (segment_run rest).1)
]

-- tokenCreatePath
unfoldable pub token_create_path : Text → Bool
unfolding strip_prefix
token_create_path path =
    with_tail (strip_prefix (codes "auth/token/create") path)
    || with_tail (strip_prefix (codes "auth/token/create-orphan") path)

-- refusedPath
unfoldable pub refused_path : Text → Bool
unfolding strip_prefix
refused_path path = elim (strip_prefix (codes "auth/token/") path) [
  | none ↦ false
  | some rest ↦
      (rest ==t codes "revoke-self")
      || with_tail (strip_prefix (codes "revoke") rest)
      || (rest ==t codes "revoke-accessor")
      || with_tail (strip_prefix (codes "revoke-orphan") rest)
      || with_tail (strip_prefix (codes "renew") rest)
      || (rest ==t codes "renew-accessor")
]

-- strings.Contains(path, "..")
unfoldable pub has_dots : Text → Bool
has_dots [] = false
has_dots (c ∷ s) = ((c == b'.') && has_prefix s (codes ".")) || has_dots s

-- mountCategory
unfoldable pub mount_category : Text → Mounts → Mount
unfolding segment_run has_prefix strip_prefix
mount_category path mounts =
    let first = (segment_run path).0 in
    if first ==t []
    then other
    else if first ==t codes "sys"
    then sys
    else if first ==t codes "auth"
    then auth
    else if first ==t mounts.transit
    then transit
    else if first ==t mounts.ssh
    then ssh
    else if (first ==t codes "secret") || has_prefix first (codes "kv")
    then kv
    else other

-- method
unfoldable pub method_category : Outside → Request → Method
method_category w r =
    if (r.method ==t codes "GET") || (r.method ==t codes "HEAD")
    then (if w.query_get r.query (codes "list") ==t codes "true" then list else get)
    else if r.method ==t codes "LIST"
    then list
    else if r.method ==t codes "POST"
    then post
    else if (r.method ==t codes "PUT") || (r.method ==t codes "PATCH")
    then put
    else if r.method ==t codes "DELETE"
    then delete
    else Method.none
