-- ===== src/Connector/Blank.antt =====
-- What is left of a request's configuration.
use open_workflow_studio.Prelude.{
  ◌≡◌, refl, ◌∙◌, ap, ◌⊎◌, Bool, true, false, Option, none, List, [], ◌∷◌, arith, if◌then◌else◌,
  Bool-cases, inl, inr, All, In,
}
use open_workflow_studio.Text.{Text, ◌==◌, ==_iff, codes, mem, mem-In, NoRepeat}
use open_workflow_studio.Assoc
use open_workflow_studio.Assoc.{Assoc}
use open_workflow_studio.Assoc.Laws.{get-delete, delete_new}
use open_workflow_studio.Value.{Value, undefined, or_undefined}
use open_workflow_studio.Connector.{
  drop_if, drop_all, rules, sanitize_connector_request_config, is_no_relation, is_blank_text,
  lacks_entries, is_blank_body_config, is_no_timeout,
}
use open_workflow_studio.Connector.Cleared.{
  IsNothing, IsNoRecord, IsBlankText, HasNoRow, IsBlankBody, Decides, is_no_relation-Decides,
  is_no_timeout-Decides, is_blank_text-Decides, lacks_entries-Decides, is_blank_body_config-Decides,
}

-- The test for a key; a key without a rule is never blank.
abbrev test_of : Text → List (Text × (Value → Bool)) → Value → Bool
test_of k [] v = false
test_of k ((key, test) ∷ rs) v = if k == key then test v else test_of k rs v

abbrev keys_of : List (Text × (Value → Bool)) → List Text
keys_of [] = []
keys_of ((key, _) ∷ rs) = key ∷ keys_of rs

abbrev kept : (Value → Bool) → Option Value → Option Value
kept test o = if test (or_undefined o) then none else o

get-drop_if :
    (k key : Text) (test : Value → Bool) (config : Assoc Value)
    → Assoc.get k (drop_if test key config)
      ≡ (if k == key then kept test (Assoc.get k config) else Assoc.get k config)
unfolding drop_if
get-drop_if k key test config = ground (arith, get-delete k key config, ==_iff k key)

test_of_absent :
    (k : Text) (rs : List (Text × (Value → Bool))) (v : Value)
    → mem k (keys_of rs) ≡ false
    → test_of k rs v ≡ false
unfolding mem
test_of_absent k [] v h = refl
test_of_absent k ((key, test) ∷ rs) v h = ground (arith, test_of_absent k rs v)

kept_absent :
    (k : Text) (rs : List (Text × (Value → Bool))) (o : Option Value)
    → mem k (keys_of rs) ≡ false
    → kept (test_of k rs) o ≡ o
kept_absent k rs o h = rw (test_of_absent k rs (or_undefined o) h) refl

get-drop_all :
    (k : Text) (rs : List (Text × (Value → Bool))) (config : Assoc Value)
    → NoRepeat (keys_of rs)
    → Assoc.get k (drop_all rs config) ≡ kept (test_of k rs) (Assoc.get k config)
get-drop_all k [] config u = refl
get-drop_all k ((key, test) ∷ rs) config (new, u) =
    get-drop_all k rs (drop_if test key config) u
    ∙ ap (kept (test_of k rs)) (get-drop_if k key test config)
    ∙ elim (Bool-cases (k == key)) [
      | inl same ↦
          let e : mem k (keys_of rs) ≡ false = rw ((==_iff k key).0 same) new in
          rw same (kept_absent k rs (kept test (Assoc.get k config)) e)
      | inr other ↦ rw other refl
    ]

rules_distinct : NoRepeat (keys_of rules)
unfolding mem ◌==◌
rules_distinct = (refl, (refl, (refl, (refl, (refl, (refl, (refl, (refl, (refl, (refl, tt))))))))))

-- What is left under a key.
get-sanitize_connector_request_config :
    (k : Text) (config : Assoc Value)
    → Assoc.get k (sanitize_connector_request_config config)
      ≡ kept (test_of k rules) (Assoc.get k config)
unfolding sanitize_connector_request_config
get-sanitize_connector_request_config k config = get-drop_all k rules config rules_distinct

-- Deleting what is blank once more changes nothing.
drop_if_again :
    (k : Text) (test : Value → Bool) (m m' : Assoc Value)
    → Assoc.get k m' ≡ kept test (Assoc.get k m)
    → drop_if test k m' ≡ m'
unfolding drop_if
drop_if_again k test m m' e = elim (Bool-cases (test (or_undefined (Assoc.get k m)))) [
  | inl blank ↦
      let gone : Assoc.get k m' ≡ none = rw blank at e in
      elim (Bool-cases (test undefined)) [
        | inl t ↦ rw (gone, drop_if) (rw t (delete_new k m' (rw gone refl)))
        | inr f ↦ rw (gone, drop_if) (rw f refl)
      ]
  | inr stays ↦
      let same : Assoc.get k m' ≡ Assoc.get k m = rw stays at e in
      rw (same, drop_if) (rw stays refl)
]

drop_all_again :
    (rs : List (Text × (Value → Bool))) (m m' : Assoc Value)
    → All (λ r. Assoc.get r.0 m' ≡ kept r.1 (Assoc.get r.0 m)) rs
    → drop_all rs m' ≡ m'
drop_all_again [] m m' h = refl
drop_all_again ((k, test) ∷ rs) m m' (h, hs) =
    ap (drop_all rs) (drop_if_again k test m m' h) ∙ drop_all_again rs m m' hs

own_tests : All (λ r. (v : Value) → test_of r.0 rules v ≡ r.1 v) rules
unfolding ◌==◌
own_tests = (
  λ v. refl,
  (
    λ v. refl,
    (
      λ v. refl,
      (λ v. refl, (λ v. refl, (λ v. refl, (λ v. refl, (λ v. refl, (λ v. refl, (λ v. refl, tt))))))),
    ),
  ),
)

kept_by_rules :
    (rs : List (Text × (Value → Bool))) (config : Assoc Value)
    → All (λ r. (v : Value) → test_of r.0 rules v ≡ r.1 v) rs
    → All (λ r. Assoc.get r.0 (drop_all rules config) ≡ kept r.1 (Assoc.get r.0 config)) rs
kept_by_rules [] config h = tt
kept_by_rules ((k, test) ∷ rs) config (h, hs) = (
  get-drop_all k rules config rules_distinct ∙ rw (h (or_undefined (Assoc.get k config))) refl,
  kept_by_rules rs config hs,
)

sanitize_connector_request_config_idempotent :
    (config : Assoc Value)
    → sanitize_connector_request_config (sanitize_connector_request_config config)
      ≡ sanitize_connector_request_config config
unfolding sanitize_connector_request_config
sanitize_connector_request_config_idempotent config =
    drop_all_again rules config (drop_all rules config) (kept_by_rules rules config own_tests)

-- The key is deleted where the predicate holds of its value, or of undefined where there is none,
-- and stays as it is where the predicate does not hold.
abbrev pub IsCleared : (Value → Type 0) → Text → Assoc Value → Type 0
IsCleared p k config =
    let v = or_undefined (Assoc.get k config) in
    let o = Assoc.get k (sanitize_connector_request_config config) in
    (p v × (o ≡ none)) ⊎ ((¬ p v) × (o ≡ Assoc.get k config))

abbrev pub cleared_keys : List Text
cleared_keys =
    codes "connector_id"
    ∷ codes "workspace_id"
    ∷ codes "endpoint_id"
    ∷ codes "auth_profile_id"
    ∷ codes "url"
    ∷ codes "method"
    ∷ codes "headers"
    ∷ codes "query_params"
    ∷ codes "body_config"
    ∷ codes "timeout"
    ∷ []

IsCleared-by :
    (test : Value → Bool) (p : Value → Type 0) (k : Text) (config : Assoc Value)
    → Decides test p
    → ((v : Value) → test_of k rules v ≡ test v)
    → IsCleared p k config
IsCleared-by test p k config decides own =
    let v = or_undefined (Assoc.get k config) in
    let e = get-sanitize_connector_request_config k config in
    elim (Bool-cases (test v)) [
      | inl t ↦ inl ((decides v).0 t, e ∙ rw (own v, t) refl)
      | inr f ↦
          inr (λ h. let c : true ≡ false = rw ((decides v).1 h) at f in cc, e ∙ rw (own v, f) refl)
    ]

-- Each of the ten keys is deleted for the values that say nothing under it, and for no other: the
-- four references to records for undefined, null, an empty text or zero; the address and the method
-- for what is falsy or a text of only space; the headers and the parameters without an enabled row
-- with a key; the body that is no object, has no type of content, or is a form without such a row;
-- the time limit for undefined, null or an empty text. Every other key stays as it is, and cleaning
-- once more changes nothing.
pub sanitize_connector_request_config_lem :
    (config : Assoc Value)
    → IsCleared IsNoRecord (codes "connector_id") config
      × IsCleared IsNoRecord (codes "workspace_id") config
      × IsCleared IsNoRecord (codes "endpoint_id") config
      × IsCleared IsNoRecord (codes "auth_profile_id") config
      × IsCleared IsBlankText (codes "url") config
      × IsCleared IsBlankText (codes "method") config
      × IsCleared HasNoRow (codes "headers") config
      × IsCleared HasNoRow (codes "query_params") config
      × IsCleared IsBlankBody (codes "body_config") config
      × IsCleared IsNothing (codes "timeout") config
      × ((k : Text)
          → In k cleared_keys
            ⊎ (Assoc.get k (sanitize_connector_request_config config) ≡ Assoc.get k config))
      × (sanitize_connector_request_config (sanitize_connector_request_config config)
          ≡ sanitize_connector_request_config config)
unfolding ◌==◌
sanitize_connector_request_config_lem config = (
  IsCleared-by is_no_relation IsNoRecord _ config is_no_relation-Decides (λ v. refl),
  IsCleared-by is_no_relation IsNoRecord _ config is_no_relation-Decides (λ v. refl),
  IsCleared-by is_no_relation IsNoRecord _ config is_no_relation-Decides (λ v. refl),
  IsCleared-by is_no_relation IsNoRecord _ config is_no_relation-Decides (λ v. refl),
  IsCleared-by is_blank_text IsBlankText _ config is_blank_text-Decides (λ v. refl),
  IsCleared-by is_blank_text IsBlankText _ config is_blank_text-Decides (λ v. refl),
  IsCleared-by lacks_entries HasNoRow _ config lacks_entries-Decides (λ v. refl),
  IsCleared-by lacks_entries HasNoRow _ config lacks_entries-Decides (λ v. refl),
  IsCleared-by is_blank_body_config IsBlankBody _ config is_blank_body_config-Decides (λ v. refl),
  IsCleared-by is_no_timeout IsNothing _ config is_no_timeout-Decides (λ v. refl),
  λ k. elim (Bool-cases (mem k (keys_of rules))) [
    | inl known ↦ inl ((mem-In k cleared_keys).0 known)
    | inr new ↦ inr (
        get-sanitize_connector_request_config k config
        ∙ kept_absent k rules (Assoc.get k config) new)
  ],
  sanitize_connector_request_config_idempotent config,
)
