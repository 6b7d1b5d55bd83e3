-- ===== src/ExecutionContext/Variables.antt =====
-- What `getVariable` reads after `setVariable`.
use open_workflow_studio.Prelude.{
  ◌≡◌, ◌≢◌, refl, ap, ◌∙◌, sym, Option, none, some, List, [], ◌∷◌, ◌>>=◌, false, All, subst, arith,
  Bool-cases, inl, inr, eqb,
}
use open_workflow_studio.Text.{Text, mem}
use open_workflow_studio.Assoc
use open_workflow_studio.Value.{
  Value, undefined, null, bool, num, str, arr, obj, Fields, end, entries, object, nil,
}
use open_workflow_studio.ExecutionContext.{ExecutionContext, get_variable, set_variable, with_vars}
use open_workflow_studio.ExecutionContext.Paths.{
  Step, plain, indexed, split, read_step, read_steps, step_into, resolve_steps, resolve_path,
  set_steps, set_along, set_path, put_member, child, put_index, list_at, or_empty, index_member,
  read_member, set_item, inherited_names, sets_prototype,
}
use open_workflow_studio.ExecutionContext.Places.{
  read_member-put_member_other, resolve_steps-set_steps, bind_some,
}

-- The variable that a step starts from.
abbrev pub step_name : Step → Text
step_name (plain key) = key
step_name (indexed name n) = name

abbrev first_step_name : List Step → Text
first_step_name [] = []
first_step_name (s ∷ ss) = step_name s

abbrev pub first_name : Text → Text
first_name path = first_step_name (read_steps (split path))

split_ne : (s : Text) → (part : Text) × (parts : List Text) × (split s ≡ part ∷ parts)
unfolding split
split_ne [] = ([], [], refl)
split_ne (c ∷ s) =
    let (part, parts, e) = split_ne s in
    elim (Bool-cases (eqb c b'.')) [
      | inl h ↦ ([], split s, rw h refl)
      | inr h ↦ (c ∷ part, parts, rw (h, e) refl)
    ]

read_steps_ne :
    (s : Text) → (step : Step) × (steps : List Step) × (read_steps (split s) ≡ step ∷ steps)
read_steps_ne s = let (part, parts, e) = split_ne s in (read_step part, read_steps parts, rw e refl)

read_member-set_steps :
    (j : Text) (s : Step) (ss : List Step) (w : Value) (f : Fields) (d : Value)
    → set_steps s ss w (obj f) ≡ some d
    → j ≢ step_name s
    → read_member j d ≡ read_member j (obj f)
unfolding set_steps
read_member-set_steps j (plain k) [] w f d e ne = read_member-put_member_other j k w f d e ne
read_member-set_steps j (indexed k n) [] w f d e ne =
    let (xs, h, q) =
      bind_some (list_at k (obj f)) (λ xs. put_index n w xs >>= λ ys. put_member k ys (obj f)) d
        e in
    let (ys, i, r) = bind_some (put_index n w xs) (λ ys. put_member k ys (obj f)) d q in
    read_member-put_member_other j k ys f d r ne
read_member-set_steps j (plain k) (s ∷ ss) w f d e ne =
    let (x, h, q) =
      bind_some (child k (obj f)) (λ x. set_steps s ss w x >>= λ y. put_member k y (obj f)) d e in
    let (y, i, r) = bind_some (set_steps s ss w x) (λ y. put_member k y (obj f)) d q in
    read_member-put_member_other j k y f d r ne
read_member-set_steps j (indexed k n) (s ∷ ss) w f d e ne =
    let (xs, g, l) =
      bind_some (list_at k (obj f))
        (λ xs. set_steps s ss w (or_empty (index_member n xs)) >>= λ y.
          put_index n y xs >>= λ ys. put_member k ys (obj f))
        d e in
    let (y, h, q) =
      bind_some (set_steps s ss w (or_empty (index_member n xs)))
        (λ y. put_index n y xs >>= λ ys. put_member k ys (obj f)) d l in
    let (ys, i, r) = bind_some (put_index n y xs) (λ ys. put_member k ys (obj f)) d q in
    read_member-put_member_other j k ys f d r ne

with_vars-some : (v : Value) (c d : ExecutionContext) → with_vars v c ≡ some d → v ≡ obj d.vars
with_vars-some (obj f) c d e = cc
with_vars-some undefined c d e = cc
with_vars-some null c d e = cc
with_vars-some (bool b) c d e = cc
with_vars-some (num n) c d e = cc
with_vars-some (str s) c d e = cc
with_vars-some (arr vs) c d e = cc

-- The steps that `setVariable` takes.
steps_of_set_variable :
    (path : Text) (v : Value) (c d : ExecutionContext)
    → set_variable path v c ≡ some d
    → (s : Step) × (ss : List Step) × (read_steps (split path) ≡ s ∷ ss)
      × (set_steps s ss v (obj c.vars) ≡ some (obj d.vars))
steps_of_set_variable [] v c d e = cc
steps_of_set_variable (x ∷ path) v c d e =
    let (s, ss, r) = read_steps_ne (x ∷ path) in
    let (w, h, q) = bind_some (set_path (obj c.vars) (x ∷ path) v) (λ w. with_vars w c) d e in
    (s, ss, r, ap (λ l. set_along l v (obj c.vars)) (sym r) ∙ h ∙ ap some (with_vars-some w c d q))

-- What a path reads, by its steps.
get_variable_steps :
    (path : Text) (s : Step) (ss : List Step) (c : ExecutionContext)
    → path ≢ []
    → read_steps (split path) ≡ s ∷ ss
    → get_variable path c ≡ resolve_steps (s ∷ ss) (obj c.vars)
unfolding resolve_path
get_variable_steps [] s ss c ne r = absurd (ne refl)
get_variable_steps (x ∷ path) s ss c ne r = ap (λ l. resolve_steps l (obj c.vars)) r

set_variable_ne :
    (path : Text) (v : Value) (c d : ExecutionContext) → set_variable path v c ≡ some d → path ≢ []
set_variable_ne [] v c d e h = cc
set_variable_ne (x ∷ path) v c d e h = cc

step_into-other :
    (s : Step) (f g : Fields)
    → read_member (step_name s) (obj f) ≡ read_member (step_name s) (obj g)
    → step_into s (obj f) ≡ step_into s (obj g)
step_into-other (plain k) f g e = e
step_into-other (indexed k n) f g e = ap (λ o. o >>= λ x. some (index_member n x)) e

resolve_steps-other :
    (s : Step) (ss : List Step) (f g : Fields)
    → read_member (step_name s) (obj f) ≡ read_member (step_name s) (obj g)
    → resolve_steps (s ∷ ss) (obj f) ≡ resolve_steps (s ∷ ss) (obj g)
unfolding resolve_steps
resolve_steps-other s ss f g e = ap (λ o. o >>= λ x. resolve_steps ss x) (step_into-other s f g e)

-- When `setVariable` sets a path, without an exception and without a step to what objects inherit,
-- the path reads the value afterwards, and a path that is not empty and starts at a variable of
-- another name reads what it read before.
pub get_variable-set_variable :
    (path other : Text) (v : Value) (c d : ExecutionContext)
    → set_variable path v c ≡ some d
    → other ≢ []
    → first_name other ≢ first_name path
    → (get_variable path d ≡ some v) × (get_variable other d ≡ get_variable other c)
get_variable-set_variable path other v c d e ne far =
    let (s, ss, r, h) = steps_of_set_variable path v c d e in
    let (t, ts, q) = read_steps_ne other in
    let apart : step_name t ≢ step_name s =
      λ i. far (ap first_step_name q ∙ i ∙ sym (ap first_step_name r)) in
    (
      get_variable_steps path s ss d (set_variable_ne path v c d e) r
          ∙ resolve_steps-set_steps s ss v (obj c.vars) (obj d.vars) h,
      get_variable_steps other t ts d ne q
          ∙ resolve_steps-other t ts d.vars c.vars
              (read_member-set_steps (step_name t) s ss v c.vars (obj d.vars) h apart)
          ∙ sym (get_variable_steps other t ts c ne q),
    )

-- No step goes by a name that every object inherits.
abbrev pub HasOwnNames : Text → Type 0
HasOwnNames path = All (λ s. mem (step_name s) inherited_names ≡ false) (read_steps (split path))

sets_prototype_no :
    (k : Text) (o : Option Value) → mem k inherited_names ≡ false → sets_prototype k o ≡ false
unfolding mem
sets_prototype_no k none h = ground (arith, h)
sets_prototype_no k (some v) h = refl

put_member_own :
    (k : Text) (w : Value) (f : Fields)
    → mem k inherited_names ≡ false
    → (g : Fields) × (put_member k w (obj f) ≡ some (obj g))
unfolding put_member
put_member_own k w f h =
    (object (Assoc.set k w (entries f)), rw (sets_prototype_no k (Assoc.get k (entries f)) h) refl)

set_steps_new :
    (s : Step) (ss : List Step) (w : Value) (f : Fields)
    → Assoc.get (step_name s) (entries f) ≡ none
    → mem (step_name s) inherited_names ≡ false
    → All (λ t. mem (step_name t) inherited_names ≡ false) ss
    → (g : Fields) × (set_steps s ss w (obj f) ≡ some (obj g))
unfolding set_steps child list_at Assoc.get
set_steps_new (plain k) [] w f e a al = put_member_own k w f a
set_steps_new (indexed k n) [] w f e a al =
    rw (e, a) (put_member_own k (arr (set_item n w nil)) f a)
set_steps_new (plain k) (s ∷ ss) w f e a (b, bs) =
    let (g, h) = set_steps_new s ss w end refl b bs in rw (e, a, h) (put_member_own k (obj g) f a)
set_steps_new (indexed k n) (s ∷ ss) w f e a (b, bs) =
    let (g, h) = set_steps_new s ss w end refl b bs in
    rw (e, a, h) (put_member_own k (arr (set_item n (obj g) nil)) f a)

-- When the path is not empty, none of its steps goes by a name that every object inherits, and there
-- is no variable of the name that it starts with, `setVariable` raises no exception, and the path
-- reads the value.
pub set_variable_new :
    (path : Text) (v : Value) (c : ExecutionContext)
    → path ≢ []
    → HasOwnNames path
    → Assoc.get (first_name path) (entries c.vars) ≡ none
    → (d : ExecutionContext) × (set_variable path v c ≡ some d) × (get_variable path d ≡ some v)
set_variable_new [] v c ne own new = absurd (ne refl)
set_variable_new (x ∷ path) v c ne own new =
    let (s, ss, r) = read_steps_ne (x ∷ path) in
    let (a, al) : All (λ t. mem (step_name t) inherited_names ≡ false) (s ∷ ss) =
      subst (All (λ t. mem (step_name t) inherited_names ≡ false)) r own in
    let (g, h) = set_steps_new s ss v c.vars (rw (← ap first_step_name r) new) a al in
    let d : ExecutionContext = record c { vars = g } in
    (
      d,
      ap (λ l. set_along l v (obj c.vars) >>= λ w. with_vars w c) r
          ∙ ap (λ o. o >>= λ w. with_vars w c) h,
      get_variable_steps (x ∷ path) s ss d ne r
          ∙ resolve_steps-set_steps s ss v (obj c.vars) (obj g) h,
    )
