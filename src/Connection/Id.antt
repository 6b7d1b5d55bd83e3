-- ===== src/Connection/Id.antt =====
-- Connection ids name their connection, where the separators do not occur in what they separate.
use open_workflow_studio.Prelude.{ℕ, ◌≡◌, refl, Bool, false, ◌||◌, [], ◌∷◌, ◌++◌, arith, eqb}
use open_workflow_studio.Text.{Text}
use open_workflow_studio.Connection.{generate_id}

abbrev pub contains : ℕ → Text → Bool
contains x [] = false
contains x (c ∷ s) = eqb x c || contains x s

split_unique :
    (x : ℕ) (a b r q : Text)
    → contains x a ≡ false
    → contains x b ≡ false
    → a ++ x ∷ r ≡ b ++ x ∷ q
    → (a ≡ b) × (r ≡ q)
split_unique x [] [] r q ha hb e = (refl, cc)
split_unique x [] (c ∷ b) r q ha hb e = absurd (ground arith)
split_unique x (c ∷ a) [] r q ha hb e = absurd (ground arith)
split_unique x (c ∷ a) (d ∷ b) r q ha hb e =
    let (p, s) = split_unique x a b r q (ground arith) (ground arith) (cc) in (cc, s)

-- When node ids have no colon and source handles no equals sign, connections with the same id have
-- the same ends and handles.
pub generate_id-injective :
    (s sh t th s' sh' t' th' : Text)
    → contains b':' s ≡ false
    → contains b'=' sh ≡ false
    → contains b':' t ≡ false
    → contains b':' s' ≡ false
    → contains b'=' sh' ≡ false
    → contains b':' t' ≡ false
    → generate_id s sh t th ≡ generate_id s' sh' t' th'
    → (s ≡ s') × (sh ≡ sh') × (t ≡ t') × (th ≡ th')
unfolding generate_id
generate_id-injective s sh t th s' sh' t' th' h1 h2 h3 k1 k2 k3 e =
    let (p, e1) = split_unique b':' s s' _ _ h1 k1 e in
    let (q, e2) = split_unique b'=' sh sh' _ _ h2 k2 e1 in
    let (r, e3) = split_unique b':' t t' th th' h3 k3 (cc e2) in (p, q, r, e3)
