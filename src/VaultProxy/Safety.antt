-- ===== src/VaultProxy/Safety.antt =====
-- What the vault socket lets through to OpenBao.
use wyrwood.Base.{ℕ, ◌≡◌, refl, sym, subst, Bool, true, false, ◌&&◌, ◌||◌, List, All, inl, inr}
use wyrwood.Base.Text.{Text, codes, ◌==t◌, trim_prefix, strip_prefix, ==t_iff}
use wyrwood.VaultProxy.Types.{Request, View, Upstream, Outside, Wrapped}
use wyrwood.VaultProxy.Paths.{login_path, token_create_path, refused_path}
use wyrwood.VaultProxy.Headers.{upstream_request, Carries, upstream_header-Carries}
use wyrwood.VaultProxy.Sends.{Sends, nothing, looks, renews, forwards, serve-cases, serve-Sends}
use wyrwood.VaultProxy.Serve.{serve, is_write}

module _ (o : Outside) (v : View) (maximum : ℕ) where
  Sends-Carries :
      (path : Text) (r : Request) (bound : Bool) (sent : List Upstream)
      → bound ≡ true
      → v.has_token ≡ true
      → Sends o v maximum path r sent
      → All (λ u. (bound ≡ true) × (v.has_token ≡ true) × Carries v u.header) sent
  unfolding upstream_request
  Sends-Carries path r bound _ b t nothing = tt
  Sends-Carries path r bound _ b t (looks base e) = ((b, t, upstream_header-Carries v r.header), tt)
  Sends-Carries path r bound _ b t (renews base) = ((b, t, upstream_header-Carries v r.header), tt)
  Sends-Carries path r bound _ b t (forwards base write refused) =
      ((b, t, upstream_header-Carries v r.header), tt)

  lookup_not_refused : refused_path (codes "auth/token/lookup-self") ≡ false
  unfolding refused_path ◌==t◌ strip_prefix
  lookup_not_refused = refl

  Sends-not_refused :
      (r : Request) (sent : List Upstream)
      → Sends o v maximum (trim_prefix r.path (codes "/v1/")) r sent
      → All (λ u. refused_path (trim_prefix u.path (codes "/v1/")) ≡ false) sent
  unfolding upstream_request strip_prefix trim_prefix
  Sends-not_refused r _ nothing = tt
  Sends-not_refused r _ (looks base e) = (
    subst (λ p. refused_path p ≡ false)
        (sym ((==t_iff (trim_prefix r.path (codes "/v1/")) (codes "auth/token/lookup-self")).0 e))
        lookup_not_refused,
    tt,
  )
  Sends-not_refused r _ (renews base) = (lookup_not_refused, tt)
  Sends-not_refused r _ (forwards base write refused) = (refused, tt)

  Sends-not_login :
      (r : Request) (sent : List Upstream)
      → Sends o v maximum (trim_prefix r.path (codes "/v1/")) r sent
      → All
          (λ u.
            (is_write u.method
              && (login_path (trim_prefix u.path (codes "/v1/"))
                  || token_create_path (trim_prefix u.path (codes "/v1/"))))
            ≡ false)
          sent
  unfolding upstream_request ◌==t◌
  Sends-not_login r _ nothing = tt
  Sends-not_login r _ (looks base e) = (refl, tt)
  Sends-not_login r _ (renews base) = (refl, tt)
  Sends-not_login r _ (forwards base write refused) = (write, tt)

-- Every request that the handler sends to OpenBao carries the token and the namespace of the
-- container's binding in place of what the client sent, no authorization and no hop header; and it
-- is sent only for a container that is bound and has a token.
pub sent_with_own_token :
    (o : Outside) (maximum now : ℕ) (r : Request) (bound : Bool) (v : View) (w : Wrapped)
    → All
        (λ u. (bound ≡ true) × (v.has_token ≡ true) × Carries v u.header)
        (serve o maximum now r bound v w).sent
sent_with_own_token o maximum now r bound v w = elim (serve-cases o v maximum now r bound w) [
  | inl (none_sent, same) ↦
      subst (All (λ u. (bound ≡ true) × (v.has_token ≡ true) × Carries v u.header)) (sym none_sent)
        tt
  | inr (held, present, e) ↦
      Sends-Carries o v maximum (trim_prefix r.path (codes "/v1/")) r bound _ held present
        (serve-Sends o v maximum now r bound w)
]

-- No request that the handler sends revokes or renews a token by a path of refusedPath, whatever
-- its method.
pub never_revokes :
    (o : Outside) (maximum now : ℕ) (r : Request) (bound : Bool) (v : View) (w : Wrapped)
    → All
        (λ u. refused_path (trim_prefix u.path (codes "/v1/")) ≡ false)
        (serve o maximum now r bound v w).sent
never_revokes o maximum now r bound v w =
    Sends-not_refused o v maximum r _ (serve-Sends o v maximum now r bound w)

-- No request that the handler sends logs in or creates a token: a POST or a PUT of such a path is
-- answered by the proxy.
pub never_logs_in :
    (o : Outside) (maximum now : ℕ) (r : Request) (bound : Bool) (v : View) (w : Wrapped)
    → All
        (λ u.
          (is_write u.method
            && (login_path (trim_prefix u.path (codes "/v1/"))
                || token_create_path (trim_prefix u.path (codes "/v1/"))))
          ≡ false)
        (serve o maximum now r bound v w).sent
never_logs_in o maximum now r bound v w =
    Sends-not_login o v maximum r _ (serve-Sends o v maximum now r bound w)
