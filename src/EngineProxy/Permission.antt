-- ===== src/EngineProxy/Permission.antt =====
-- What a request that authorize grants can do to the container engine.
use wyrwood.Base.{
  ◌≡◌, ◌⊎◌, inl, inr, refl, Bool, true, false, List, [], ◌∷◌, arith, not, ◌&&◌, if◌then◌else◌, ◌↔◌,
  Bool-cases,
}
use wyrwood.Base.Text.{Text, codes, ◌==t◌, ==t_iff}
use wyrwood.Policy.CleanPath.{split_on}
use wyrwood.EngineProxy.Types.{
  Query, Request, Codec, Operation, list, inspect, events, image_inspect, create, remove, start,
  stop, request, Forwarded, granted,
}
use wyrwood.EngineProxy.Patterns.{split_prefix, container_name}
use wyrwood.EngineProxy.Granted.{authorize-Passed, Passed-authorize, with_permission}
use wyrwood.EngineProxy.Authorize.{
  authorize, asked, asked_get, asked_post, asked_delete, Asked, unknown, asks,
}

-- The operations of each method.
abbrev pub is_get : Operation → Bool
is_get list = true
is_get inspect = true
is_get events = true
is_get image_inspect = true
is_get _ = false

abbrev pub is_post : Operation → Bool
is_post create = true
is_post start = true
is_post stop = true
is_post _ = false

abbrev pub is_delete : Operation → Bool
is_delete remove = true
is_delete _ = false

-- The operations that change which containers there are, or end the work of one.
abbrev pub changes : Operation → Bool
changes create = true
changes remove = true
changes stop = true
changes _ = false

-- Whether what is asked for, where anything is, has an operation of a kind, and asks for the
-- permission exactly where the operation changes something.
abbrev passes : (Operation → Bool) → Asked → Bool
passes kind unknown = true
passes kind (asks op write path) = kind op && (if changes op then write else not write)

asked_get-passes :
    (c : Codec) (path : Text) (parts : List Text) (q : Query)
    → passes is_get (asked_get c path parts q) ≡ true
unfolding asked_get
asked_get-passes c path [] q = ground arith
asked_get-passes c path (a ∷ []) q = ground arith
asked_get-passes c path (a ∷ b ∷ []) q = ground arith
asked_get-passes c path (a ∷ b ∷ d ∷ []) q = ground arith
asked_get-passes c path (a ∷ b ∷ d ∷ e ∷ []) q = ground arith
asked_get-passes c path (a ∷ b ∷ d ∷ e ∷ g ∷ more) q = ground arith

asked_post-passes :
    (path : Text) (parts : List Text) (q : Query) → passes is_post (asked_post path parts q) ≡ true
unfolding asked_post
asked_post-passes path [] q = ground arith
asked_post-passes path (a ∷ []) q = ground arith
asked_post-passes path (a ∷ b ∷ []) q = ground arith
asked_post-passes path (a ∷ b ∷ d ∷ []) q = ground arith
asked_post-passes path (a ∷ b ∷ d ∷ e ∷ []) q = ground arith
asked_post-passes path (a ∷ b ∷ d ∷ e ∷ g ∷ more) q = ground arith

asked_delete-passes :
    (path : Text) (parts : List Text) (q : Query)
    → passes is_delete (asked_delete path parts q) ≡ true
unfolding asked_delete
asked_delete-passes path [] q = refl
asked_delete-passes path (a ∷ []) q = refl
asked_delete-passes path (a ∷ b ∷ []) q = refl
asked_delete-passes path (a ∷ b ∷ d ∷ []) q = ground arith
asked_delete-passes path (a ∷ b ∷ d ∷ e ∷ more) q = refl

asked-method :
    (c : Codec) (method path : Text) (q : Query) (op : Operation) (write : Bool) (target : Text)
    → asked c method path q ≡ asks op write target
    → (write ≡ changes op)
      × (((method ≡ codes "GET") × (is_get op ≡ true))
          ⊎ ((method ≡ codes "POST")
              × (is_post op ≡ true)
              × (asked_post path (split_on b'/' path) q ≡ asks op write target))
          ⊎ ((method ≡ codes "DELETE") × (is_delete op ≡ true)))
unfolding asked
asked-method c method path q op write target h =
    let parts = split_on b'/' path in
    elim (Bool-cases (method ==t codes "GET")) [
      | inl get ↦ (
        ground (arith, asked_get-passes c path parts q),
        inl ((==t_iff method (codes "GET")).0 get, ground (arith, asked_get-passes c path parts q)),
      )
      | inr not_get ↦ elim (Bool-cases (method ==t codes "POST")) [
        | inl post ↦ (
          ground (arith, asked_post-passes path parts q),
          inr (
              inl (
                (==t_iff method (codes "POST")).0 post,
                ground (arith, asked_post-passes path parts q),
                ground arith,
              )),
        )
        | inr not_post ↦ elim (Bool-cases (method ==t codes "DELETE")) [
          | inl delete ↦ (
            ground (arith, asked_delete-passes path parts q),
            inr (
                inr (
                  (==t_iff method (codes "DELETE")).0 delete,
                  ground (arith, asked_delete-passes path parts q),
                )),
          )
          | inr other ↦ absurd (ground arith)
        ]
      ]
    ]

-- A granted request has the method of its operation: it lists, inspects or watches with a GET, it
-- creates, starts or stops with a POST, and it removes with a DELETE.
pub granted_method :
    (c : Codec) (recreate : Bool) (r : Request) (op : Operation) (f : Forwarded)
    → authorize c recreate r ≡ granted op f
    → ((r.method ≡ codes "GET") × (is_get op ≡ true))
      ⊎ ((r.method ≡ codes "POST") × (is_post op ≡ true))
      ⊎ ((r.method ≡ codes "DELETE") × (is_delete op ≡ true))
granted_method c recreate r op f h =
    let passed = authorize-Passed c recreate r op f h in
    elim (asked-method c r.method (split_prefix r.escaped_path).1 f.query op passed.write
      passed.path passed.asked_for).1 [
        | inl get ↦ inl get
        | inr (inl (post, kind, _)) ↦ inr (inl (post, kind))
        | inr (inr delete) ↦ inr (inr delete)
      ]

-- The one POST that needs no permission.
asked_post-start :
    (path : Text) (parts : List Text) (q : Query) (op : Operation) (write : Bool) (target : Text)
    → asked_post path parts q ≡ asks op write target
    → changes op ≡ false
    → (root : Text) × (name : Text) × (op ≡ start)
      × (container_name name ≡ true)
      × (parts ≡ root ∷ codes "containers" ∷ name ∷ codes "start" ∷ [])
unfolding asked_post
asked_post-start path [] q op write target h quiet = absurd (ground arith)
asked_post-start path (a ∷ []) q op write target h quiet = absurd (ground arith)
asked_post-start path (a ∷ b ∷ []) q op write target h quiet = absurd (ground arith)
asked_post-start path (a ∷ b ∷ d ∷ []) q op write target h quiet = absurd (ground arith)
asked_post-start path (a ∷ b ∷ d ∷ e ∷ []) q op write target h quiet =
    elim (Bool-cases ((b ==t codes "containers") && container_name d && (e ==t codes "start"))) [
      | inl is ↦ (
        a,
        d,
        ground arith,
        ground arith,
        ground (arith, ==t_iff b (codes "containers"), ==t_iff e (codes "start")),
      )
      | inr other ↦ absurd (ground arith)
    ]
asked_post-start path (a ∷ b ∷ d ∷ e ∷ g ∷ more) q op write target h quiet = absurd (ground arith)

-- Without the recreate permission of the host, the only requests of the agent that are granted are a
-- GET that lists, inspects or watches, and the POST to /containers/{name}/start, behind the version,
-- that starts a container.
pub writes_need_permission :
    (c : Codec) (r : Request) (op : Operation) (f : Forwarded)
    → authorize c false r ≡ granted op f
    → ((r.method ≡ codes "GET") × (is_get op ≡ true))
      ⊎ ((r.method ≡ codes "POST")
          × (op ≡ start)
          × ((root : Text) × (name : Text) × (container_name name ≡ true)
              × (split_on b'/' (split_prefix r.escaped_path).1
                  ≡ root ∷ codes "containers" ∷ name ∷ codes "start" ∷ [])))
writes_need_permission c r op f h =
    let p = authorize-Passed c false r op f h in
    let path = (split_prefix r.escaped_path).1 in
    let (flag, which) = asked-method c r.method path f.query op p.write p.path p.asked_for in
    let quiet : changes op ≡ false = ground (arith, p.allowed) in
    elim which [
      | inl get ↦ inl get
      | inr (inl (post, kind, for_post)) ↦
          let (root, name, is, slug, parts) =
            asked_post-start path (split_on b'/' path) f.query op p.write p.path for_post quiet in
          inr (post, is, (root, name, slug, parts))
      | inr (inr (delete, kind)) ↦ absurd (delete_changes op kind quiet)
    ]
  where
    delete_changes : (o : Operation) → is_delete o ≡ true → changes o ≡ false → ⊥
    delete_changes remove k q = cc
    delete_changes request k q = cc
    delete_changes list k q = cc
    delete_changes inspect k q = cc
    delete_changes events k q = cc
    delete_changes image_inspect k q = cc
    delete_changes create k q = cc
    delete_changes start k q = cc
    delete_changes stop k q = cc

-- A request of the agent is granted without the recreate permission exactly where it is granted with
-- it and its operation is none of create, remove and stop; the same request is forwarded.
pub reads_need_no_permission :
    (c : Codec) (r : Request) (op : Operation) (f : Forwarded)
    → (authorize c false r ≡ granted op f)
      ↔ ((authorize c true r ≡ granted op f) × (changes op ≡ false))
reads_need_no_permission c r op f = (
  λ h.
      let p = authorize-Passed c false r op f h in
      let (flag, which) =
        asked-method c r.method (split_prefix r.escaped_path).1 f.query op p.write p.path
          p.asked_for in
      (
        Passed-authorize c true r op f (with_permission c false true r op f p (ground arith)),
        ground (arith, p.allowed),
      ),
  λ (h, quiet).
      let p = authorize-Passed c true r op f h in
      let (flag, which) =
        asked-method c r.method (split_prefix r.escaped_path).1 f.query op p.write p.path
          p.asked_for in
      Passed-authorize c false r op f (with_permission c true false r op f p (ground arith)),
)
