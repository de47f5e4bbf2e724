-- ===== src/EngineProxy/Granted.antt =====
-- internal/engineproxy/policy.go: what a request that authorize grants went through.
use wyrwood.Base.{
  ◌≡◌, inl, inr, sym, ap, subst, Bool, true, false, not, ◌&&◌, some, ◌++◌, arith, Bool-cases,
  Option-cases,
}
use wyrwood.Base.Text.{Text}
use wyrwood.EngineProxy.Types.{Query, Request, Codec, Operation, Forwarded, granted}
use wyrwood.EngineProxy.Patterns.{split_prefix}
use wyrwood.EngineProxy.Authorize.{
  authorize, decide, grant, asked, Asked, unknown, asks, is_malformed, overrides_method, body_ok,
}

-- What a granted request went through.
pub record Passed (c : Codec) (recreate : Bool) (r : Request) (op : Operation) (f : Forwarded)
    : Type 0 where
  pub well_formed : is_malformed r ≡ false
  pub no_override : overrides_method r ≡ false
  pub query : r.query ≡ some f.query
  pub write : Bool
  pub path : Text
  pub asked_for : asked c r.method (split_prefix r.escaped_path).1 f.query ≡ asks op write path
  pub allowed : (write && not recreate) ≡ false
  pub body : body_ok c op r ≡ true
  pub raw : f.raw_path ≡ (split_prefix r.escaped_path).0 ++ path
  pub decoded : c.unescape f.raw_path ≡ some f.path

grant-eq-granted :
    (c : Codec) (o op : Operation) (prefix path : Text) (q : Query) (f : Forwarded)
    → grant c o prefix path q ≡ granted op f
    → (o ≡ op)
      × (f.raw_path ≡ prefix ++ path)
      × (f.query ≡ q)
      × (c.unescape (prefix ++ path) ≡ some f.path)
unfolding grant
grant-eq-granted c o op prefix path q f h = elim (Option-cases (c.unescape (prefix ++ path))) [
  | inl bad ↦ ground arith
  | inr (decoded, good) ↦ ground arith
]

decide-eq-granted :
    (c : Codec) (recreate : Bool) (r : Request) (prefix : Text) (q : Query) (a : Asked)
    (op : Operation) (f : Forwarded)
    → decide c recreate r prefix q a ≡ granted op f
    → (write : Bool) × (path : Text) × (a ≡ asks op write path)
      × ((write && not recreate) ≡ false)
      × (body_ok c op r ≡ true)
      × (f.raw_path ≡ prefix ++ path)
      × (f.query ≡ q)
      × (c.unescape f.raw_path ≡ some f.path)
unfolding decide
decide-eq-granted c recreate r prefix q unknown op f h = cc
decide-eq-granted c recreate r prefix q (asks o write path) op f h =
    elim (Bool-cases (write && not recreate)) [
      | inl denied ↦ ground arith
      | inr allowed ↦ elim (Bool-cases (body_ok c o r)) [
        | inr bad ↦ ground arith
        | inl good ↦
            let (same, raw, query, decoded) =
              grant-eq-granted c o op prefix path q f (ground arith) in
            (
              write,
              path,
              ap (λ x. asks x write path) same,
              allowed,
              subst (λ x. body_ok c x r ≡ true) same good,
              raw,
              query,
              subst (λ x. c.unescape x ≡ some f.path) (sym raw) decoded,
            )
      ]
    ]

pub authorize-Passed :
    (c : Codec) (recreate : Bool) (r : Request) (op : Operation) (f : Forwarded)
    → authorize c recreate r ≡ granted op f
    → Passed c recreate r op f
unfolding authorize
authorize-Passed c recreate r op f h = elim (Bool-cases (is_malformed r)) [
  | inl malformed ↦ ground arith
  | inr formed ↦ elim (Bool-cases (overrides_method r)) [
    | inl overrides ↦ ground arith
    | inr plain ↦ elim (Option-cases r.query) [
      | inl unread ↦ ground arith
      | inr (q, read) ↦
          let (prefix, behind) = split_prefix r.escaped_path in
          let (write, path, asked_for, allowed, body, raw, query, decoded) =
            decide-eq-granted c recreate r prefix q (asked c r.method behind q) op f
              (ground arith) in
          record {
            well_formed = formed;
            no_override = plain;
            query = ground arith;
            write = write;
            path = path;
            asked_for = ground arith;
            allowed = allowed;
            body = body;
            raw = raw;
            decoded = decoded;
          }
    ]
  ]
]

pub Passed-authorize :
    (c : Codec) (recreate : Bool) (r : Request) (op : Operation) (f : Forwarded)
    → Passed c recreate r op f
    → authorize c recreate r ≡ granted op f
unfolding authorize decide grant
Passed-authorize c recreate r op f p =
    ground (
      arith, p.well_formed, p.no_override, p.query, p.asked_for, p.allowed, p.body, p.raw,
      p.decoded,
    )

-- A permission that is not asked for makes no difference.
pub with_permission :
    (c : Codec) (before after : Bool) (r : Request) (op : Operation) (f : Forwarded)
    (p : Passed c before r op f)
    → (p.write && not after) ≡ false
    → Passed c after r op f
with_permission c before after r op f p allowed = record {
  well_formed = p.well_formed;
  no_override = p.no_override;
  query = p.query;
  write = p.write;
  path = p.path;
  asked_for = p.asked_for;
  allowed = allowed;
  body = p.body;
  raw = p.raw;
  decoded = p.decoded;
}
