-- ===== src/Connector/Cleared.antt =====
-- utils/connector_request_config.js: which values of a request's configuration say nothing.
use open_workflow_studio.Prelude.{
  ◌≡◌, ◌≢◌, refl, ◌⊎◌, inl, inr, Bool, true, false, [], ◌∷◌, arith, zero, suc, Bool-cases, subst,
}
use open_workflow_studio.Prelude.Int.{pos, negsuc}
use open_workflow_studio.Text.{Text, codes, ◌==◌, ==_iff}
use open_workflow_studio.Text.Scan.{trim}
use open_workflow_studio.Value.{
  Value, undefined, null, bool, num, str, arr, obj, Items, nil, cons, Fields, prop, truthy,
}
use open_workflow_studio.Expression.Evaluate.{to_text}
use open_workflow_studio.Connector.{
  is_plain_object, trimmed_text, is_not_false, is_empty, is_enabled_row, some_enabled,
  has_enabled_key_value_entries, content_type_of, is_blank_content, is_blank_body_config,
  is_no_relation, is_blank_text, is_no_timeout, lacks_entries,
}

-- A row that is sent: an object with a key that is a text and not only space, and not disabled.
abbrev pub IsSent : Value → Type 0
IsSent row =
    ((f : Fields) × (row ≡ obj f))
    × ((s : Text) × (prop (codes "key") row ≡ str s) × (trim s ≢ []))
    × (prop (codes "enabled") row ≢ bool false)

pub data HasSent : Items → Type 0 where
  here : (row : Value) (rows : Items) → IsSent row → HasSent (cons row rows)
  there : (row : Value) (rows : Items) → HasSent rows → HasSent (cons row rows)

abbrev pub HasRow : Value → Type 0
HasRow v = (rows : Items) × (v ≡ arr rows) × HasSent rows

abbrev pub HasNoRow : Value → Type 0
HasNoRow v = ¬ HasRow v

abbrev pub IsNothing : Value → Type 0
IsNothing v = (v ≡ undefined) ⊎ ((v ≡ null) ⊎ (v ≡ str []))

-- The key of no record.
abbrev pub IsNoRecord : Value → Type 0
IsNoRecord v = IsNothing v ⊎ (v ≡ num (pos 0))

abbrev pub IsBlankText : Value → Type 0
IsBlankText v = (truthy v ≡ false) ⊎ (trim (to_text v) ≡ [])

abbrev pub IsForm : Text → Type 0
IsForm t = (t ≡ codes "form_data") ⊎ (t ≡ codes "urlencoded")

-- No object, no type of content, or a form without a row that is sent.
abbrev pub IsBlankBody : Value → Type 0
IsBlankBody v =
    let t = content_type_of (prop (codes "content_type") v) in
    (¬ ((f : Fields) × (v ≡ obj f)))
    ⊎ ((t ≡ []) ⊎ ((t ≡ codes "none") ⊎ (IsForm t × HasNoRow (prop (codes "form_data") v))))

-- The test finds what the predicate says.
abbrev pub Decides : (Value → Bool) → (Value → Type 0) → Type 0
Decides test p = (v : Value) → (test v ≡ true → p v) × (p v → test v ≡ true)

is_empty_iff : (s : Text) → (is_empty s ≡ true → s ≡ []) × (s ≡ [] → is_empty s ≡ true)
is_empty_iff [] = (λ e. refl, λ e. refl)
is_empty_iff (c ∷ s) = (λ e. cc, λ e. cc)

pub is_no_timeout-Decides : Decides is_no_timeout IsNothing
unfolding is_no_timeout
is_no_timeout-Decides undefined = (λ e. inl refl, λ h. refl)
is_no_timeout-Decides null = (λ e. inr (inl refl), λ h. refl)
is_no_timeout-Decides (str []) = (λ e. inr (inr refl), λ h. refl)
is_no_timeout-Decides (str (c ∷ s)) = (λ e. cc, λ h. ground arith)
is_no_timeout-Decides (bool b) = (λ e. cc, λ h. ground arith)
is_no_timeout-Decides (num n) = (λ e. cc, λ h. ground arith)
is_no_timeout-Decides (arr vs) = (λ e. cc, λ h. ground arith)
is_no_timeout-Decides (obj f) = (λ e. cc, λ h. ground arith)

pub is_no_relation-Decides : Decides is_no_relation IsNoRecord
unfolding is_no_relation
is_no_relation-Decides undefined = (λ e. inl (inl refl), λ h. refl)
is_no_relation-Decides null = (λ e. inl (inr (inl refl)), λ h. refl)
is_no_relation-Decides (str []) = (λ e. inl (inr (inr refl)), λ h. refl)
is_no_relation-Decides (str (c ∷ s)) = (λ e. cc, λ h. ground arith)
is_no_relation-Decides (bool b) = (λ e. cc, λ h. ground arith)
is_no_relation-Decides (num (pos zero)) = (λ e. inr refl, λ h. refl)
is_no_relation-Decides (num (pos (suc n))) = (λ e. cc, λ h. ground arith)
is_no_relation-Decides (num (negsuc n)) = (λ e. cc, λ h. ground arith)
is_no_relation-Decides (arr vs) = (λ e. cc, λ h. ground arith)
is_no_relation-Decides (obj f) = (λ e. cc, λ h. ground arith)

pub is_blank_text-Decides : Decides is_blank_text IsBlankText
unfolding is_blank_text
is_blank_text-Decides v = elim (Bool-cases (truthy v)) [
  | inl t ↦ (
    λ e. inr ((is_empty_iff (trim (to_text v))).0 (rw t at e)),
    λ h. rw t (elim h [ inl f ↦ absurd (cc) | inr s ↦ (is_empty_iff (trim (to_text v))).1 s ]),
  )
  | inr f ↦ (λ e. inl f, λ h. rw f refl)
]

trimmed_text_iff :
    (v : Value)
    → (is_empty (trimmed_text v) ≡ false → (s : Text) × (v ≡ str s) × (trim s ≢ []))
      × ((s : Text) × (v ≡ str s) × (trim s ≢ []) → is_empty (trimmed_text v) ≡ false)
trimmed_text_iff (str s) = (
  λ e. (s, refl, λ n. let c : is_empty [] ≡ false = rw n at e in cc),
  λ (s', e, n). elim (Bool-cases (is_empty (trim s))) [
    | inl t ↦ absurd (n (let q : s ≡ s' = cc in rw (← q) ((is_empty_iff (trim s)).0 t)))
    | inr f ↦ f
  ],
)
trimmed_text_iff undefined = (λ e. cc, λ (s, e, n). cc)
trimmed_text_iff null = (λ e. cc, λ (s, e, n). cc)
trimmed_text_iff (bool b) = (λ e. cc, λ (s, e, n). cc)
trimmed_text_iff (num b) = (λ e. cc, λ (s, e, n). cc)
trimmed_text_iff (arr b) = (λ e. cc, λ (s, e, n). cc)
trimmed_text_iff (obj b) = (λ e. cc, λ (s, e, n). cc)

is_not_false-Decides : Decides is_not_false (λ v. v ≢ bool false)
is_not_false-Decides (bool true) = (λ e h. cc, λ h. refl)
is_not_false-Decides (bool false) = (λ e h. cc, λ h. absurd (h refl))
is_not_false-Decides undefined = (λ e h. cc, λ h. refl)
is_not_false-Decides null = (λ e h. cc, λ h. refl)
is_not_false-Decides (num n) = (λ e h. cc, λ h. refl)
is_not_false-Decides (str s) = (λ e h. cc, λ h. refl)
is_not_false-Decides (arr vs) = (λ e h. cc, λ h. refl)
is_not_false-Decides (obj f) = (λ e h. cc, λ h. refl)

is_plain_object-Decides : Decides is_plain_object (λ v. (f : Fields) × (v ≡ obj f))
is_plain_object-Decides (obj f) = (λ e. (f, refl), λ h. refl)
is_plain_object-Decides (bool b) = (λ e. cc, λ (f, h). cc)
is_plain_object-Decides undefined = (λ e. cc, λ (f, h). cc)
is_plain_object-Decides null = (λ e. cc, λ (f, h). cc)
is_plain_object-Decides (num n) = (λ e. cc, λ (f, h). cc)
is_plain_object-Decides (str s) = (λ e. cc, λ (f, h). cc)
is_plain_object-Decides (arr vs) = (λ e. cc, λ (f, h). cc)

is_enabled_row-Decides : Decides is_enabled_row IsSent
is_enabled_row-Decides row =
    let (o, o') = is_plain_object-Decides row in
    let (t, t') = trimmed_text_iff (prop (codes "key") row) in
    let (n, n') = is_not_false-Decides (prop (codes "enabled") row) in
    (
      λ e.
          let p : is_plain_object row ≡ true = ground (arith, e) in
          let q : is_empty (trimmed_text (prop (codes "key") row)) ≡ false = ground (arith, e) in
          let r : is_not_false (prop (codes "enabled") row) ≡ true = ground (arith, e) in
          (o p, t q, n r),
      λ (a, b, c). rw (o' a, t' b, n' c) refl,
    )

some_enabled_iff :
    (vs : Items) → (some_enabled vs ≡ true → HasSent vs) × (HasSent vs → some_enabled vs ≡ true)
some_enabled_iff nil = (λ e. cc, λ h. elim h [ ])
some_enabled_iff (cons v vs) = let (to, from) = some_enabled_iff vs in (sent to, enabled from)
  where
    sent :
        (some_enabled vs ≡ true → HasSent vs)
        → some_enabled (cons v vs) ≡ true
        → HasSent (cons v vs)
    sent to e = elim (Bool-cases (is_enabled_row v)) [
      | inl t ↦ here v vs ((is_enabled_row-Decides v).0 t)
      | inr f ↦ there v vs (to (rw f at e))
    ]

    enabled :
        (HasSent vs → some_enabled vs ≡ true)
        → HasSent (cons v vs)
        → some_enabled (cons v vs) ≡ true
    enabled from (here w ws h) = rw ((is_enabled_row-Decides v).1 h) refl
    enabled from (there w ws h) = ground (arith, from h)

has_enabled_key_value_entries-Decides : Decides has_enabled_key_value_entries HasRow
unfolding has_enabled_key_value_entries
has_enabled_key_value_entries-Decides (arr vs) = (
  λ e. (vs, refl, (some_enabled_iff vs).0 e),
  λ (ws, e, h). (some_enabled_iff vs).1 (let q : ws ≡ vs = cc in subst HasSent q h),
)
has_enabled_key_value_entries-Decides (bool b) = (λ e. cc, λ (f, h, k). cc)
has_enabled_key_value_entries-Decides undefined = (λ e. cc, λ (f, h, k). cc)
has_enabled_key_value_entries-Decides null = (λ e. cc, λ (f, h, k). cc)
has_enabled_key_value_entries-Decides (num n) = (λ e. cc, λ (f, h, k). cc)
has_enabled_key_value_entries-Decides (str s) = (λ e. cc, λ (f, h, k). cc)
has_enabled_key_value_entries-Decides (obj vs) = (λ e. cc, λ (f, h, k). cc)

pub lacks_entries-Decides : Decides lacks_entries HasNoRow
unfolding lacks_entries
lacks_entries-Decides v =
    let (to, from) = has_enabled_key_value_entries-Decides v in
    elim (Bool-cases (has_enabled_key_value_entries v)) [
      | inl t ↦ (λ e. let c : false ≡ true = rw t at e in cc, λ h. absurd (h (to t)))
      | inr f ↦ (λ e h. let c : true ≡ false = rw (from h) at f in cc, λ h. rw f refl)
    ]

is_blank_content_iff :
    (t : Text) (body : Value)
    → (is_blank_content t body ≡ true
        → (t ≡ []) ⊎ ((t ≡ codes "none") ⊎ (IsForm t × HasNoRow (prop (codes "form_data") body))))
      × ((t ≡ []) ⊎ ((t ≡ codes "none") ⊎ (IsForm t × HasNoRow (prop (codes "form_data") body)))
          → is_blank_content t body ≡ true)
unfolding lacks_entries
is_blank_content_iff t body =
    let (rows, rows') = lacks_entries-Decides (prop (codes "form_data") body) in
    let (em, em') = is_empty_iff t in
    let (ne, ne') = ==_iff t (codes "none") in
    let (fo, fo') = ==_iff t (codes "form_data") in
    let (ur, ur') = ==_iff t (codes "urlencoded") in
    (
      λ e. elim (Bool-cases (is_empty t)) [
        | inl x ↦ inl (em x)
        | inr x ↦ elim (Bool-cases (t == codes "none")) [
          | inl y ↦ inr (inl (ne y))
          | inr y ↦ elim (Bool-cases (t == codes "form_data")) [
            | inl z ↦ inr (inr (inl (fo z), rows (rw (x, y, z) at e)))
            | inr z ↦ elim (Bool-cases (t == codes "urlencoded")) [
              | inl u ↦ inr (inr (inr (ur u), rows (rw (x, y, z, u) at e)))
              | inr u ↦ ground arith
            ]
          ]
        ]
      ],
      λ h. elim h [
        | inl x ↦ rw (em' x) refl
        | inr other ↦ elim other [
          | inl x ↦ ground (arith, ne' x)
          | inr (form, n) ↦
              let r = rows' n in
              elim form [ inl x ↦ ground (arith, fo' x) | inr x ↦ ground (arith, ur' x) ]
        ]
      ],
    )

pub is_blank_body_config-Decides : Decides is_blank_body_config IsBlankBody
unfolding is_blank_body_config
is_blank_body_config-Decides v =
    let t = content_type_of (prop (codes "content_type") v) in
    let (to, from) = is_blank_content_iff t v in
    let (o, o') = is_plain_object-Decides v in
    elim (Bool-cases (is_plain_object v)) [
      | inl p ↦ (
        λ e. inr (to (rw p at e)),
        λ h. rw p (elim h [ inl n ↦ absurd (n (o p)) | inr c ↦ from c ]),
      )
      | inr f ↦ (λ e. inl (λ x. let c : true ≡ false = rw (o' x) at f in cc), λ h. rw f refl)
    ]
