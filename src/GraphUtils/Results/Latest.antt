-- ===== src/GraphUtils/Results/Latest.antt =====
-- utils/graph_utils.js: the single latest result of some nodes, beside the list of their latest results.
use open_workflow_studio.Prelude.{
  ℕ, zero, suc, ◌≤◌, ◌<◌, ◌≡◌, refl, inl, inr, false, Option, none, some, List, [], ◌∷◌, ◌++◌,
  length, get_elem?, get_last?, if◌then◌else◌, arith, Option-cases, List-cases, append_assoc,
  append-nil, ◌∙◌, sym, ap, length-append, subst,
}
use open_workflow_studio.Text.{Text, ==_refl}
use open_workflow_studio.Assoc
use open_workflow_studio.Assoc.{Assoc}
use open_workflow_studio.Assoc.Laws.{get-delete, set_new}
use open_workflow_studio.GraphUtils.Results.{
  NodeResult, Entry, allowed_ids, wanted, put_last, record_entry, unique_by_node, scan_back,
  get_latest_node_results_by_node_ids, get_latest_node_result_for_node_ids,
}

module _ {B : Type 0} (allowed : List Text) where
  get_last?-values :
      (m : Assoc (NodeResult B)) (k : Text) (r : NodeResult B)
      → get_last? (Assoc.values (m ++ (k, r) ∷ [])) ≡ some r
  get_last?-values [] k r = refl
  get_last?-values ((j, q) ∷ []) k r = refl
  get_last?-values ((j, q) ∷ (i, p) ∷ m) k r = get_last?-values ((i, p) ∷ m) k r

  -- A result that is put goes to the end.
  get_last?-put_last :
      (m : Assoc (NodeResult B)) (k : Text) (r : NodeResult B)
      → get_last? (Assoc.values (put_last k r m)) ≡ some r
  get_last?-put_last m k r =
      rw (set_new k r _ absent)
        (get_last?-values (if Assoc.has k m then Assoc.delete k m else m) k r)
    where
      absent : Assoc.has k (if Assoc.has k m then Assoc.delete k m else m) ≡ false
      absent = ground (arith, get-delete k k m, ==_refl k)

  unique_by_node-append :
      (es fs : List (Entry B)) (m : Assoc (NodeResult B))
      → unique_by_node allowed (es ++ fs) m
        ≡ unique_by_node allowed fs (unique_by_node allowed es m)
  unfolding unique_by_node
  unique_by_node-append [] fs m = refl
  unique_by_node-append (e ∷ es) fs m = unique_by_node-append es fs (record_entry allowed e m)

  get_elem?-append :
      (es : List (Entry B)) (e : Entry B) (fs : List (Entry B))
      → get_elem? (es ++ e ∷ fs) (length es) ≡ some e
  get_elem?-append [] e fs = refl
  get_elem?-append (d ∷ es) e fs = get_elem?-append es e fs

  -- Entries behind the index are not read.
  scan_back-append :
      (es fs : List (Entry B)) (i : ℕ)
      → i ≤ length es
      → scan_back allowed (es ++ fs) i ≡ scan_back allowed es i
  unfolding scan_back
  scan_back-append es fs zero h = refl
  scan_back-append es fs (suc i) h =
      ground (arith, scan_back-append es fs i, get_elem?-before es fs i)
    where
      get_elem?-before :
          (es fs : List (Entry B)) (i : ℕ) → i < length es → get_elem? (es ++ fs) i ≡ get_elem? es i
      get_elem?-before [] fs i h = absurd (omega arith)
      get_elem?-before (e ∷ es) fs zero h = refl
      get_elem?-before (e ∷ es) fs (suc i) h = get_elem?-before es fs i (omega arith)

  -- What the last entry does to the single result.
  abbrev or_wanted : Entry B → Option (NodeResult B) → Option (NodeResult B)
  or_wanted e r = elim (wanted allowed e) [ none ↦ r | some (k, q) ↦ some q ]

  scan_back_last :
      (es : List (Entry B)) (e : Entry B)
      → scan_back allowed (es ++ e ∷ []) (suc (length es))
        ≡ or_wanted e (scan_back allowed es (length es))
  unfolding scan_back
  scan_back_last es e =
      ground (arith, scan_back-append es (e ∷ []) (length es), get_elem?-append es e [])

  last_of_record_entry :
      (e : Entry B) (m : Assoc (NodeResult B))
      → get_last? (Assoc.values (record_entry allowed e m))
        ≡ or_wanted e (get_last? (Assoc.values m))
  unfolding record_entry
  last_of_record_entry e m = elim (Option-cases (wanted allowed e)) [
    | inl n ↦ ground arith
    | inr ((k, r), q) ↦ ground (arith, get_last?-put_last m k r)
  ]

  -- By induction on a list that grows at its end.
  scan_back_unique :
      (es fs : List (Entry B))
      → scan_back allowed es (length es) ≡ get_last? (Assoc.values (unique_by_node allowed es []))
      → scan_back allowed (es ++ fs) (length (es ++ fs))
        ≡ get_last? (Assoc.values (unique_by_node allowed (es ++ fs) []))
  unfolding unique_by_node
  scan_back_unique es [] h = rw (append-nil es) h
  scan_back_unique es (e ∷ fs) h =
      subst
        (λ l.
          scan_back allowed l (length l) ≡ get_last? (Assoc.values (unique_by_node allowed l [])))
        (append_assoc es (e ∷ []) fs) (scan_back_unique (es ++ e ∷ []) fs grown)
    where
      longer : length (es ++ e ∷ []) ≡ suc (length es)
      longer = omega (arith, length-append es (e ∷ []))

      grown :
          scan_back allowed (es ++ e ∷ []) (length (es ++ e ∷ []))
          ≡ get_last? (Assoc.values (unique_by_node allowed (es ++ e ∷ []) []))
      grown =
          rw (longer, scan_back_last es e, unique_by_node-append es (e ∷ []) [])
            (ap (or_wanted e) h ∙ sym (last_of_record_entry e (unique_by_node allowed es [])))

nothing :
    {B : Type 0} (ids : List Text)
    → scan_back {B = B} ids [] 0 ≡ get_last? (Assoc.values (unique_by_node {B = B} ids [] []))
unfolding scan_back unique_by_node
nothing ids = refl

-- `getLatestNodeResultForNodeIds` is the last entry of `getLatestNodeResultsByNodeIds`, for any
-- log and ids, absent ones included; it is null where the list is empty.
pub get_last?-get_latest_node_results_by_node_ids :
    {B : Type 0} (es : Option (List (Entry B))) (ids : Option (List Text))
    → get_latest_node_result_for_node_ids es ids
      ≡ get_last? (get_latest_node_results_by_node_ids es ids)
unfolding get_latest_node_result_for_node_ids get_latest_node_results_by_node_ids
get_last?-get_latest_node_results_by_node_ids none ids = refl
get_last?-get_latest_node_results_by_node_ids (some []) ids = refl
get_last?-get_latest_node_results_by_node_ids (some (e ∷ es)) ids =
    elim (List-cases (allowed_ids ids)) [
      | inl n ↦
          rw (n, get_latest_node_result_for_node_ids, get_latest_node_results_by_node_ids) refl
      | inr (a, rest, n) ↦
          rw (n, get_latest_node_result_for_node_ids, get_latest_node_results_by_node_ids)
            (scan_back_unique (a ∷ rest) [] (e ∷ es) (nothing (a ∷ rest)))
    ]
