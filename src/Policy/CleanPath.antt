-- ===== src/Policy/CleanPath.antt =====
-- Go's strings.Split, strings.Join and path.Clean, which internal/policy/policy.go and
-- internal/contract/contract.go call on absolute paths.
use wyrwood.Base.{ℕ, Bool, List, [], ◌∷◌, ◌++◌, ◌||◌, ◌==◌, ◌≡◌, refl, if◌then◌else◌}
use wyrwood.Base.Text.{Text, codes, ◌==t◌}

abbrev push : ℕ → List Text → List Text
push c [] = (c ∷ []) ∷ []
push c (w ∷ ws) = (c ∷ w) ∷ ws

unfoldable pub split_on : ℕ → Text → List Text
split_on sep [] = [] ∷ []
split_on sep (c ∷ s) = let rest = split_on sep s in if c == sep then [] ∷ rest else push c rest

unfoldable pub join : ℕ → List Text → Text
join sep [] = []
join sep (w ∷ []) = w
join sep (w ∷ v ∷ ws) = w ++ sep ∷ join sep (v ∷ ws)

-- One component of a path, on the stack of those that are kept, the last on top.
unfoldable pub clean_step : Bool → Text → List Text → List Text
clean_step rooted w [] =
    if (w ==t []) || (w ==t codes ".")
    then []
    else if w ==t codes ".."
    then (if rooted then [] else codes ".." ∷ [])
    else w ∷ []
clean_step rooted w (top ∷ below) =
    if (w ==t []) || (w ==t codes ".")
    then top ∷ below
    else if w ==t codes ".."
    then (if top ==t codes ".." then codes ".." ∷ top ∷ below else below)
    else w ∷ top ∷ below

unfoldable pub clean_stack : Bool → List Text → List Text → List Text
unfolding clean_step
clean_stack rooted [] stack = stack
clean_stack rooted (w ∷ ws) stack = clean_stack rooted ws (clean_step rooted w stack)

-- The stack read from below.
unfoldable pub turn : List Text → List Text → List Text
turn [] out = out
turn (w ∷ ws) out = turn ws (w ∷ out)

abbrev dot_if_empty : Text → Text
dot_if_empty [] = codes "."
dot_if_empty (c ∷ s) = c ∷ s

unfoldable pub clean : Text → Text
unfolding split_on join clean_stack turn
clean [] = codes "."
clean (c ∷ s) =
    let rooted = c == b'/' in
    let body = join b'/' (turn (clean_stack rooted (split_on b'/' (c ∷ s)) []) []) in
    if rooted then b'/' ∷ body else dot_if_empty body

clean_up : clean (codes "/a/./b//../c/") ≡ codes "/a/c"
unfolding clean ◌==t◌
clean_up = refl

clean_relative : clean (codes "a/../../b") ≡ codes "../b"
unfolding clean ◌==t◌
clean_relative = refl
