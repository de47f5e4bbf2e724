-- ===== src/VaultProxy/Sends.antt =====
-- The requests that one call of the handler sends.
use wyrwood.Base.{
  ℕ, ◌≡◌, refl, sym, subst, ◌∙◌, ◌⊎◌, Bool, true, false, not, ◌&&◌, ◌||◌, List, [], ◌∷◌, arith,
  Bool-cases, Option-cases, inl, inr, ltb, length,
}
use wyrwood.Base.Text.{Text, codes, ◌==t◌, trim_prefix, has_prefix}
use wyrwood.Base.Errors.{Result, ok, err}
use wyrwood.VaultProxy.Types.{
  Request, View, Upstream, Response, Failure, Outside, Wrapped, Exchange,
}
use wyrwood.VaultProxy.Paths.{login_path, token_create_path, refused_path, has_dots, non_empty}
use wyrwood.VaultProxy.Headers.{upstream_request}
use wyrwood.VaultProxy.Wrapped.{consume_wrapped}
use wyrwood.VaultProxy.Serve.{
  send, serve, Route, to_lookup, to_login, to_renewal, to_refusal, to_unwrap, to_forward, route,
  run_route, serve_unwrap, answer_lookup, answer_renewal, answer_forward, is_write, renewal_lookup,
  placeholder_token,
}

module _ (o : Outside) (v : View) where
  answer_lookup-sent :
      (p : Text) (x : List Upstream × Result Failure Response) (w : Wrapped)
      → (answer_lookup o v p x w).sent ≡ x.0
  unfolding answer_lookup
  answer_lookup-sent p (sent, err f) w = refl
  answer_lookup-sent p (sent, ok r) w = ground arith

  answer_renewal-sent :
      (p : Text) (x : List Upstream × Result Failure Response) (w : Wrapped)
      → (answer_renewal o v p x w).sent ≡ x.0
  unfolding answer_renewal
  answer_renewal-sent p (sent, err f) w = refl
  answer_renewal-sent p (sent, ok r) w = ground arith

  answer_forward-sent :
      (now : ℕ) (p : Text) (x : List Upstream × Result Failure Response) (w : Wrapped)
      → (answer_forward o now v p x w).sent ≡ x.0
  unfolding answer_forward
  answer_forward-sent now p (sent, err Failure.too_large) w = refl
  answer_forward-sent now p (sent, err Failure.timed_out) w = refl
  answer_forward-sent now p (sent, err Failure.unreachable) w = refl
  answer_forward-sent now p (sent, ok r) w = ground arith

  module _ (maximum : ℕ) where
    send-cases :
        (r : Request)
        → ((send o maximum r v).0 ≡ [])
          ⊎ ((base : Text) × ((send o maximum r v).0 ≡ upstream_request base r v ∷ []))
    unfolding send
    send-cases r = elim (Option-cases (o.base_path v.address)) [
      | inl bad ↦ inl (ground arith)
      | inr (base, parsed) ↦ elim (Bool-cases (non_empty v.ca_pem && not (o.valid_ca v.ca_pem))) [
        | inl refused ↦ inl (ground arith)
        | inr trusted ↦ inr (base, ground arith)
      ]
    ]

    serve_unwrap-cases :
        (now : ℕ) (r : Request) (p : Text) (w : Wrapped)
        → ((serve_unwrap o maximum now r v p w).sent ≡ [])
          ⊎ ((serve_unwrap o maximum now r v p w).sent ≡ (send o maximum r v).0)
    unfolding serve_unwrap
    serve_unwrap-cases now r p w =
        let taken = consume_wrapped now v.id (o.token_field r.body) w in
        elim (Bool-cases (ltb maximum (length r.body))) [
          | inl large ↦ inl (ground arith)
          | inr small ↦ elim (Bool-cases (non_empty (o.token_field r.body) && taken.0)) [
            | inl may ↦ inr (ground (arith, answer_forward-sent now p (send o maximum r v) taken.1))
            | inr not_taken ↦ inl (ground arith)
          ]
        ]

    -- The request that a call may send: the lookup with the method GET, the lookup of a renewal, or
    -- the request itself, where no case before took it.
    pub data Sends (path : Text) (r : Request) : List Upstream → Type 0 where
      nothing : Sends path r []
      looks :
          (base : Text)
          → (path ==t codes "auth/token/lookup-self") ≡ true
          → Sends path r (upstream_request base (record r { method = codes "GET" }) v ∷ [])
      renews : (base : Text) → Sends path r (upstream_request base (renewal_lookup r) v ∷ [])
      forwards :
          (base : Text)
          → (is_write r.method && (login_path path || token_create_path path)) ≡ false
          → refused_path path ≡ false
          → Sends path r (upstream_request base r v ∷ [])

    route-to_lookup :
        (path method : Text)
        → route path method ≡ to_lookup
        → (path ==t codes "auth/token/lookup-self") ≡ true
    unfolding route
    route-to_lookup path method e = ground arith

    route-through :
        (path method : Text)
        → (route path method ≡ to_unwrap) ⊎ (route path method ≡ to_forward)
        → ((is_write method && (login_path path || token_create_path path)) ≡ false)
          × (refused_path path ≡ false)
    unfolding route
    route-through path method e = ground arith

    sent_once :
        (path : Text) (r q : Request) (sent : List Upstream)
        → sent ≡ (send o maximum q v).0
        → ((base : Text) → Sends path r (upstream_request base q v ∷ []))
        → Sends path r sent
    sent_once path r q sent e one = elim (send-cases q) [
      | inl none_sent ↦ subst (Sends path r) (sym (e ∙ none_sent)) nothing
      | inr (base, single) ↦ subst (Sends path r) (sym (e ∙ single)) (one base)
    ]

    route-Sends :
        (now : ℕ) (path : Text) (r : Request) (p : Text) (w : Wrapped) (c : Route)
        → route path r.method ≡ c
        → Sends path r (run_route o maximum now c r v p w).sent
    unfolding run_route
    route-Sends now path r p w to_lookup e =
        let get = record r { method = codes "GET" } in
        sent_once path r get _ (answer_lookup-sent p (send o maximum get v) w)
          (λ base. looks base (route-to_lookup path r.method e))
    route-Sends now path r p w to_login e = nothing
    route-Sends now path r p w to_renewal e =
        sent_once path r (renewal_lookup r) _
          (answer_renewal-sent p (send o maximum (renewal_lookup r) v) w) (λ base. renews base)
    route-Sends now path r p w to_refusal e = nothing
    route-Sends now path r p w to_unwrap e =
        let (write, refused) = route-through path r.method (inl e) in
        elim (serve_unwrap-cases now r p w) [
          | inl none_sent ↦ subst (Sends path r) (sym none_sent) nothing
          | inr same ↦ sent_once path r r _ same (λ base. forwards base write refused)
        ]
    route-Sends now path r p w to_forward e =
        let (write, refused) = route-through path r.method (inr e) in
        sent_once path r r _ (answer_forward-sent now p (send o maximum r v) w)
          (λ base. forwards base write refused)

    -- Either the guards answer, or the switch runs.
    pub serve-cases :
        (now : ℕ) (r : Request) (bound : Bool) (w : Wrapped)
        → (((serve o maximum now r bound v w).sent ≡ [])
            × ((serve o maximum now r bound v w).wrapped ≡ w))
          ⊎ ((bound ≡ true)
              × (v.has_token ≡ true)
              × (serve o maximum now r bound v w
                  ≡ run_route o maximum now
                      (route (trim_prefix r.path (codes "/v1/")) r.method)
                      r
                      v
                      (placeholder_token o v.id)
                      w))
    unfolding serve
    serve-cases now r bound w =
        let path = trim_prefix r.path (codes "/v1/") in
        elim (Bool-cases (not (has_prefix r.path (codes "/v1/")) || has_dots path)) [
          | inl outside ↦ inl (ground arith, ground arith)
          | inr inside ↦ elim (Bool-cases bound) [
            | inr unbound ↦ inl (ground arith, ground arith)
            | inl held ↦ elim (Bool-cases v.has_token) [
              | inr missing ↦ inl (ground arith, ground arith)
              | inl present ↦ inr (held, present, ground arith)
            ]
          ]
        ]

    pub serve-Sends :
        (now : ℕ) (r : Request) (bound : Bool) (w : Wrapped)
        → Sends (trim_prefix r.path (codes "/v1/")) r (serve o maximum now r bound v w).sent
    serve-Sends now r bound w =
        let path = trim_prefix r.path (codes "/v1/") in
        elim (serve-cases now r bound w) [
          | inl (none_sent, same) ↦ subst (Sends path r) (sym none_sent) nothing
          | inr (held, present, e) ↦
              subst (λ (x : Exchange). Sends path r x.sent) (sym e)
                (route-Sends now path r (placeholder_token o v.id) w (route path r.method) refl)
        ]
