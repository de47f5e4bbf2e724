-- ===== src/VaultProxy/Memory.antt =====
-- What the proxy remembers from one request to the next: the wrapping tokens of each binding.
use wyrwood.Base.{ℕ, ◌≡◌, ◌≤◌, refl, sym, subst, Bool, List, arith, inl, inr, length}
use wyrwood.Base.Text.{Text, codes, trim_prefix}
use wyrwood.Base.Errors.{Result, ok, err}
use wyrwood.VaultProxy.Types.{
  Request, View, Upstream, Response, Failure, Outside, Wrapped, Exchange,
}
use wyrwood.VaultProxy.Wrapped.{
  Bounded, remember_wrapped-Bounded, consume_wrapped, consume_wrapped-Bounded, tokens_of,
  maximum_wrapped,
}
use wyrwood.VaultProxy.Serve.{
  send, serve, Route, to_lookup, to_login, to_renewal, to_refusal, to_unwrap, to_forward, route,
  run_route, serve_unwrap, answer_lookup, answer_renewal, answer_forward, placeholder_token,
}
use wyrwood.VaultProxy.Sends.{serve-cases}
use wyrwood.Policy.Compose.Loop.{replace_all}

module _ (o : Outside) (v : View) (maximum : ℕ) where
  answer_lookup-wrapped :
      (p : Text) (x : List Upstream × Result Failure Response) (w : Wrapped)
      → (answer_lookup o v p x w).wrapped ≡ w
  unfolding answer_lookup
  answer_lookup-wrapped p (sent, err f) w = refl
  answer_lookup-wrapped p (sent, ok r) w = ground arith

  answer_renewal-wrapped :
      (p : Text) (x : List Upstream × Result Failure Response) (w : Wrapped)
      → (answer_renewal o v p x w).wrapped ≡ w
  unfolding answer_renewal
  answer_renewal-wrapped p (sent, err f) w = refl
  answer_renewal-wrapped p (sent, ok r) w = ground arith

  answer_forward-Bounded :
      (now : ℕ) (p : Text) (x : List Upstream × Result Failure Response) (w : Wrapped)
      → Bounded w
      → Bounded (answer_forward o now v p x w).wrapped
  unfolding answer_forward
  answer_forward-Bounded now p (sent, err Failure.too_large) w h = λ j. h j
  answer_forward-Bounded now p (sent, err Failure.timed_out) w h = λ j. h j
  answer_forward-Bounded now p (sent, err Failure.unreachable) w h = λ j. h j
  answer_forward-Bounded now p (sent, ok r) w h = λ j.
      ground
        (arith, h j, remember_wrapped-Bounded o now v.id (replace_all r.body v.token.value p) w h j)

  serve_unwrap-Bounded :
      (now : ℕ) (r : Request) (p : Text) (w : Wrapped)
      → Bounded w
      → Bounded (serve_unwrap o maximum now r v p w).wrapped
  unfolding serve_unwrap
  serve_unwrap-Bounded now r p w h j =
      let taken = consume_wrapped now v.id (o.token_field r.body) w in
      ground (
        arith,
        h j,
        answer_forward-Bounded now p (send o maximum r v) taken.1
            (consume_wrapped-Bounded now v.id (o.token_field r.body) w h) j,
      )

  run_route-Bounded :
      (now : ℕ) (c : Route) (r : Request) (p : Text) (w : Wrapped)
      → Bounded w
      → Bounded (run_route o maximum now c r v p w).wrapped
  unfolding run_route
  run_route-Bounded now to_lookup r p w h = subst Bounded (sym (answer_lookup-wrapped p _ w)) h
  run_route-Bounded now to_login r p w h = h
  run_route-Bounded now to_renewal r p w h = subst Bounded (sym (answer_renewal-wrapped p _ w)) h
  run_route-Bounded now to_refusal r p w h = h
  run_route-Bounded now to_unwrap r p w h = serve_unwrap-Bounded now r p w h
  run_route-Bounded now to_forward r p w h = answer_forward-Bounded now p _ w h

-- The proxy never remembers more than 1024 wrapping tokens of a binding, whatever request it serves.
pub serve-wrapped_bounded :
    (o : Outside) (maximum now : ℕ) (r : Request) (bound : Bool) (v : View) (w : Wrapped)
    → ((id : Text) → length (tokens_of id w) ≤ maximum_wrapped)
    → (id : Text)
    → length (tokens_of id (serve o maximum now r bound v w).wrapped) ≤ maximum_wrapped
serve-wrapped_bounded o maximum now r bound v w h id =
    elim (serve-cases o v maximum now r bound w) [
      | inl (none_sent, same) ↦ subst Bounded (sym same) h id
      | inr (held, present, e) ↦
          subst (λ (x : Exchange). Bounded x.wrapped) (sym e)
            (run_route-Bounded o v maximum now (route (trim_prefix r.path (codes "/v1/")) r.method)
              r (placeholder_token o v.id) w h)
            id
    ]
