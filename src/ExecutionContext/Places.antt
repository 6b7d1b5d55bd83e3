-- ===== src/ExecutionContext/Places.antt =====
-- What is read at a place of a value after a write to it.
use open_workflow_studio.Prelude.{
  ℕ, zero, suc, ◌+◌, ◌≡◌, ◌≢◌, refl, sym, ap, ◌∙◌, true, false, Option, none, some, List, [], ◌∷◌,
  ◌>>=◌, arith, Bool-cases, inl, inr, if◌then◌else◌,
}
use open_workflow_studio.Text.{Text, ◌==◌, ==_refl, ==_iff, ==_ne}
use open_workflow_studio.Text.Decimal.{print, parse_digits, parse_digits-append-print, only_digits}
use open_workflow_studio.Assoc
use open_workflow_studio.Assoc.Laws.{get-set}
use open_workflow_studio.Value.{
  Value, undefined, null, bool, num, str, arr, obj, Items, nil, cons, Fields, entries, object,
  entries-object,
}
use open_workflow_studio.Expression.Evaluate.{member, item_named}
use open_workflow_studio.ExecutionContext.Paths.{
  Step, plain, indexed, set_item, item_at, index_member, is_absent, resolve_steps, index_of_key,
  if_printed, put_index, put_member, child, set_steps, list_at, or_empty, read_member,
  sets_prototype, is_own_name,
}

print_injective : (m n : ℕ) → print m ≡ print n → m ≡ n
unfolding only_digits
print_injective m n e =
    let a = parse_digits-append-print [] m refl in
    let b = parse_digits-append-print [] n refl in
    let h : some m ≡ some n = sym a ∙ ap parse_digits e ∙ b in cc

item_at-set_item : (n : ℕ) (v : Value) (vs : Items) → item_at n (set_item n v vs) ≡ v
item_at-set_item zero v nil = refl
item_at-set_item zero v (cons w ws) = refl
item_at-set_item (suc n) v nil = item_at-set_item n v nil
item_at-set_item (suc n) v (cons w ws) = item_at-set_item n v ws

item_named-set_item :
    (m i n : ℕ) (v : Value) (vs : Items) → m ≡ i + n → item_named (print m) i (set_item n v vs) ≡ v
unfolding item_named
item_named-set_item m i zero v nil h =
    let e : m ≡ i = omega (arith, h) in rw (e, ==_refl (print i)) refl
item_named-set_item m i zero v (cons w ws) h =
    let e : m ≡ i = omega (arith, h) in rw (e, ==_refl (print i)) refl
item_named-set_item m i (suc n) v nil h =
    let ne : (print m == print i) ≡ false =
      ==_ne (print m) (print i) (λ e. omega (arith, h, print_injective m i e)) in
    rw (ne, item_named-set_item m (suc i) n v nil (omega (arith, h))) refl
item_named-set_item m i (suc n) v (cons w ws) h =
    let ne : (print m == print i) ≡ false =
      ==_ne (print m) (print i) (λ e. omega (arith, h, print_injective m i e)) in
    rw (ne, item_named-set_item m (suc i) n v ws (omega (arith, h))) refl

if_printed-some : (k : Text) (o : Option ℕ) (n : ℕ) → if_printed k o ≡ some n → k ≡ print n
unfolding if_printed
if_printed-some k none n e = cc
if_printed-some k (some m) n e = ground (arith, ==_iff k (print m))

read_member-object :
    (j k : Text) (w : Value) (f : Fields)
    → read_member j (obj (object (Assoc.set k w (entries f))))
      ≡ (if j == k then some w else read_member j (obj f))
unfolding read_member
read_member-object j k w f =
    rw (entries-object (Assoc.set k w (entries f)), get-set j k w (entries f))
      (elim (Bool-cases (j == k)) [ inl e ↦ rw e refl | inr e ↦ rw e refl ])

-- What was written as a member of an object.
put_member-object :
    (k : Text) (w : Value) (f : Fields) (d : Value)
    → put_member k w (obj f) ≡ some d
    → obj (object (Assoc.set k w (entries f))) ≡ d
unfolding put_member
put_member-object k w f d e = elim (Bool-cases (sets_prototype k (Assoc.get k (entries f)))) [
  | inl t ↦ let c : none ≡ some d = rw t at e in cc
  | inr n ↦ let c : some (obj (object (Assoc.set k w (entries f)))) ≡ some d = rw n at e in cc
]

-- The steps of a chain that gave a value.
pub bind_some :
    {A B : Type 0} (o : Option A) (f : A → Option B) (b : B)
    → (o >>= f) ≡ some b
    → (a : A) × (o ≡ some a) × (f a ≡ some b)
bind_some none f b e = cc
bind_some (some a) f b e = (a, refl, e)

is_own_name_index : (k : Text) (n : ℕ) → index_of_key k ≡ some n → is_own_name k ≡ true
is_own_name_index k n e = ground (arith)

-- What was written to is present, and has the member.
read_member-put_member :
    (k : Text) (w v d : Value)
    → put_member k w v ≡ some d
    → (is_absent d ≡ false) × (read_member k d ≡ some w)
unfolding put_member read_member member
read_member-put_member k w (obj f) d e =
    rw (← put_member-object k w f d e) (refl, read_member-object k k w f ∙ rw (==_refl k) refl)
read_member-put_member k w (arr vs) d e =
    let (n, h, q) = bind_some (index_of_key k) (λ m. some (arr (set_item m w vs))) d e in
    let g : arr (set_item n w vs) ≡ d = cc in
    rw (← g) (
      refl,
      rw (is_own_name_index k n h) (
          ap (λ x. some (item_named x 0 (set_item n w vs))) (if_printed-some k (parse_digits k) n h)
          ∙ ap some (item_named-set_item n 0 n w vs (omega arith))),
    )
read_member-put_member k w undefined d e = cc
read_member-put_member k w null d e = cc
read_member-put_member k w (bool b) d e = cc
read_member-put_member k w (num n) d e = cc
read_member-put_member k w (str s) d e = cc

-- Only the key that is written changes.
pub read_member-put_member_other :
    (j k : Text) (w : Value) (f : Fields) (d : Value)
    → put_member k w (obj f) ≡ some d
    → j ≢ k
    → read_member j d ≡ read_member j (obj f)
read_member-put_member_other j k w f d e ne =
    rw (← put_member-object k w f d e) (read_member-object j k w f ∙ rw (==_ne j k ne) refl)

index_member-put_index : (n : ℕ) (w v d : Value) → put_index n w v ≡ some d → index_member n d ≡ w
index_member-put_index n w (obj f) d e =
    let g : obj (object (Assoc.set (print n) w (entries f))) ≡ d = cc in
    rw (← g) (
      rw
        (
          entries-object (Assoc.set (print n) w (entries f)),
          get-set (print n) (print n) w (entries f),
          ==_refl (print n),
        )
        refl)
index_member-put_index n w (arr vs) d e =
    let g : arr (set_item n w vs) ≡ d = cc in rw (← g) (item_at-set_item n w vs)
index_member-put_index n w undefined d e = cc
index_member-put_index n w null d e = cc
index_member-put_index n w (bool b) d e = cc
index_member-put_index n w (num m) d e = cc
index_member-put_index n w (str s) d e = cc

-- A path that was written reads what was written.
pub resolve_steps-set_steps :
    (s : Step) (ss : List Step) (w v d : Value)
    → set_steps s ss w v ≡ some d
    → resolve_steps (s ∷ ss) d ≡ some w
unfolding set_steps resolve_steps
resolve_steps-set_steps (plain k) [] w v d e =
    let (p, m) = read_member-put_member k w v d e in rw (p, m) refl
resolve_steps-set_steps (indexed k n) [] w v d e =
    let (xs, h, q) =
      bind_some (list_at k v) (λ xs. put_index n w xs >>= λ ys. put_member k ys v) d e in
    let (ys, i, r) = bind_some (put_index n w xs) (λ ys. put_member k ys v) d q in
    let (p, m) = read_member-put_member k ys v d r in
    rw (p, m) (ap some (index_member-put_index n w xs ys i))
resolve_steps-set_steps (plain k) (s ∷ ss) w v d e =
    let (x, h, q) = bind_some (child k v) (λ x. set_steps s ss w x >>= λ y. put_member k y v) d e in
    let (y, i, r) = bind_some (set_steps s ss w x) (λ y. put_member k y v) d q in
    let (p, m) = read_member-put_member k y v d r in
    rw (p, m) (resolve_steps-set_steps s ss w x y i)
resolve_steps-set_steps (indexed k n) (s ∷ ss) w v d e =
    let (xs, g, f) =
      bind_some (list_at k v)
        (λ xs. set_steps s ss w (or_empty (index_member n xs)) >>= λ y.
          put_index n y xs >>= λ ys. put_member k ys v)
        d e in
    let (y, h, q) =
      bind_some (set_steps s ss w (or_empty (index_member n xs)))
        (λ y. put_index n y xs >>= λ ys. put_member k ys v) d f in
    let (ys, i, r) = bind_some (put_index n y xs) (λ ys. put_member k ys v) d q in
    let (p, m) = read_member-put_member k ys v d r in
    let a = index_member-put_index n y xs ys i in
    rw (p, m, a) (resolve_steps-set_steps s ss w (or_empty (index_member n xs)) y h)
