-- ===== src/VaultProxy/Wrapped.antt =====
-- internal/vaultproxy/proxy.go: the wrapping tokens that a container created and may unwrap.
use wyrwood.Base.{
  ℕ, suc, ◌+◌, ◌-◌, ◌*◌, ◌%◌, ◌^◌, ◌≡◌, ◌≤◌, sym, Bool, true, false, not, Option, none, some, [],
  ◌∷◌, length, keep, ltb, if◌then◌else◌, arith, Bool-cases, Option-cases, inl, inr, ◌⊎◌, subst,
}
use wyrwood.Base.Text.{Text, codes, ◌==t◌, ==t_refl, has_prefix}
use wyrwood.Base.Assoc.{Assoc, lookup, insert, remove, lookup-insert, lookup-remove}
use wyrwood.VaultProxy.Types.{Wrapped, Outside}

abbrev pub maximum_wrapped : ℕ
maximum_wrapped = 1024

abbrev second : ℕ
second = 1000000000

-- bytes.Contains
unfoldable pub contains : Text → Text → Bool
contains part [] = has_prefix [] part
contains part (c ∷ s) = if has_prefix (c ∷ s) part then true else contains part s

abbrev pub tokens_of : Text → Wrapped → Assoc ℕ
tokens_of id w = elim (lookup id w) [ none ↦ [] | some tokens ↦ tokens ]

-- The entries of a map that are not past their time.
unfoldable pub fresh : ℕ → Assoc ℕ → Assoc ℕ
fresh now tokens = keep (λ e. not (ltb e.1 now)) tokens

-- now.Add(time.Duration(ttl) * time.Second): the product keeps its low 64 bits, and stands for a
-- negative duration where the highest of them is set. A time before 1970 is 1970.
unfoldable pub expiry : ℕ → ℕ → ℕ
expiry now ttl =
    let d = (ttl * second) % 2 ^ 64 in if ltb d (2 ^ 63) then now + d else now - (2 ^ 64 - d)

unfoldable pub add_token : ℕ → Text → ℕ → Assoc ℕ → Assoc ℕ
unfolding fresh expiry
add_token now token ttl tokens =
    let left = fresh now tokens in
    if ltb (length left) maximum_wrapped then insert token (expiry now ttl) left else left

-- What rememberWrapped does with the decoded field.
unfoldable pub remember_token : ℕ → Text → Option (Text × ℕ) → Wrapped → Wrapped
remember_token now id none w = w
remember_token now id (some ([], ttl)) w = w
remember_token now id (some (c ∷ s, ttl)) w =
    insert id (add_token now (c ∷ s) ttl (tokens_of id w)) w

-- rememberWrapped
unfoldable pub remember_wrapped : Outside → ℕ → Text → Text → Wrapped → Wrapped
remember_wrapped o now id body w =
    if contains (codes "\"wrap_info\"") body then remember_token now id (o.wrap_info body) w else w

-- consumeWrapped
unfoldable pub consume_wrapped : ℕ → Text → Text → Wrapped → Bool × Wrapped
consume_wrapped now id token w = elim (lookup token (tokens_of id w)) [
  | none ↦ (false, w)
  | some expires ↦
      if ltb expires now then (false, w) else (true, insert id (remove token (tokens_of id w)) w)
]

tokens_of-insert :
    (id j : Text) (tokens : Assoc ℕ) (w : Wrapped)
    → tokens_of j (insert id tokens w) ≡ (if id ==t j then tokens else tokens_of j w)
tokens_of-insert id j tokens w = ground (arith, lookup-insert id j tokens w)

-- A wrapping token is taken at most once: once a container has taken it, no later attempt succeeds
-- while the container is not given the token again.
pub consume_wrapped-once :
    (now later : ℕ) (id token : Text) (w v : Wrapped)
    → consume_wrapped now id token w ≡ (true, v)
    → consume_wrapped later id token v ≡ (false, v)
unfolding consume_wrapped
consume_wrapped-once now later id token w v h =
    elim (Option-cases (lookup token (tokens_of id w))) [
      | inl missing ↦ ground arith
      | inr (expires, found) ↦ ground (
        arith,
        tokens_of-insert id id (remove token (tokens_of id w)) w,
        ==t_refl id,
        ==t_refl token,
        lookup-remove token token (tokens_of id w),
      )
    ]

length-keep : (p : Text × ℕ → Bool) (l : Assoc ℕ) → length (keep p l) ≤ length l
length-keep p [] = ground arith
length-keep p (x ∷ l) = ground (arith, length-keep p l)

length-insert : (k : Text) (v : ℕ) (m : Assoc ℕ) → length (insert k v m) ≤ suc (length m)
unfolding insert
length-insert k v [] = ground arith
length-insert k v ((j, w) ∷ m) = ground (arith, length-insert k v m)

length-remove : (k : Text) (m : Assoc ℕ) → length (remove k m) ≤ length m
unfolding remove
length-remove k [] = ground arith
length-remove k ((j, w) ∷ m) = ground (arith, length-remove k m)

-- No binding has more than 1024 wrapping tokens.
abbrev pub Bounded : Wrapped → Type 0
Bounded w = (id : Text) → length (tokens_of id w) ≤ maximum_wrapped

add_token-length :
    (now : ℕ) (token : Text) (ttl : ℕ) (tokens : Assoc ℕ)
    → length tokens ≤ maximum_wrapped
    → length (add_token now token ttl tokens) ≤ maximum_wrapped
unfolding add_token fresh
add_token-length now token ttl tokens h =
    let left = keep (λ (e : Text × ℕ). not (ltb e.1 now)) tokens in
    ground (
      arith,
      length-keep (λ e. not (ltb e.1 now)) tokens,
      length-insert token (expiry now ttl) left,
    )

insert-Bounded :
    (id : Text) (tokens : Assoc ℕ) (w : Wrapped)
    → Bounded w
    → length tokens ≤ maximum_wrapped
    → Bounded (insert id tokens w)
insert-Bounded id tokens w h small j = ground (arith, tokens_of-insert id j tokens w, h j)

remember_token-Bounded :
    (now : ℕ) (id : Text) (field : Option (Text × ℕ)) (w : Wrapped)
    → Bounded w
    → Bounded (remember_token now id field w)
unfolding remember_token
remember_token-Bounded now id none w h = h
remember_token-Bounded now id (some ([], ttl)) w h = h
remember_token-Bounded now id (some (c ∷ s, ttl)) w h =
    insert-Bounded id (add_token now (c ∷ s) ttl (tokens_of id w)) w h
      (add_token-length now (c ∷ s) ttl (tokens_of id w) (h id))

pub remember_wrapped-Bounded :
    (o : Outside) (now : ℕ) (id body : Text) (w : Wrapped)
    → Bounded w
    → Bounded (remember_wrapped o now id body w)
unfolding remember_wrapped
remember_wrapped-Bounded o now id body w h =
    elim (Bool-cases (contains (codes "\"wrap_info\"") body)) [
      | inl there ↦ rw there (remember_token-Bounded now id (o.wrap_info body) w h)
      | inr absent ↦ rw absent h
    ]

consume_wrapped-cases :
    (now : ℕ) (id token : Text) (w : Wrapped)
    → ((consume_wrapped now id token w).1 ≡ w)
      ⊎ ((consume_wrapped now id token w).1 ≡ insert id (remove token (tokens_of id w)) w)
unfolding consume_wrapped
consume_wrapped-cases now id token w = elim (Option-cases (lookup token (tokens_of id w))) [
  | inl missing ↦ inl (ground arith)
  | inr (expires, found) ↦ elim (Bool-cases (ltb expires now)) [
    | inl late ↦ inl (ground arith)
    | inr early ↦ inr (ground arith)
  ]
]

pub consume_wrapped-Bounded :
    (now : ℕ) (id token : Text) (w : Wrapped)
    → Bounded w
    → Bounded (consume_wrapped now id token w).1
consume_wrapped-Bounded now id token w h = elim (consume_wrapped-cases now id token w) [
  | inl same ↦ subst Bounded (sym same) h
  | inr taken ↦ subst Bounded (sym taken) (
      insert-Bounded id (remove token (tokens_of id w)) w h
        (omega (arith, length-remove token (tokens_of id w), h id)))
]
