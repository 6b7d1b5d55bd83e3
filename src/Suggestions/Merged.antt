-- ===== src/Suggestions/Merged.antt =====
-- What merging suggestions keeps.
use open_workflow_studio.Prelude.{
  ◌≡◌, refl, sym, ap, subst, ◌∙◌, true, List, [], ◌∷◌, ◌++◌, map, All, In, Bool-cases, inl, inr,
  append_assoc, append-nil, All-append, In-append,
}
use open_workflow_studio.Text.{Text, mem, mem-append, mem-In, NoRepeat, NoRepeat-append}
use open_workflow_studio.Value.{Value}
use open_workflow_studio.Suggestions.{
  Suggestion, Merging, nothing_merged, normalize_suggestions, key_of, merge_item, merge_items,
  merge_lists, merge_unique_suggestions,
}

-- The suggestions of all lists, in order.
abbrev pub all_suggestions : List Value → List Suggestion
all_suggestions [] = []
all_suggestions (l ∷ ls) = normalize_suggestions l ++ all_suggestions ls

All-weaken :
    {A : Type 0} (P Q : A → Type 0) (xs : List A) → ((x : A) → P x → Q x) → All P xs → All Q xs
All-weaken P Q [] f h = tt
All-weaken P Q (x ∷ xs) f (p, h) = (f x p, All-weaken P Q xs f h)

map-append :
    {A B : Type 0} (f : A → B) (xs : List A) (y : A) → map f (xs ++ y ∷ []) ≡ map f xs ++ f y ∷ []
map-append f [] y = refl
map-append f (x ∷ xs) y = ap (f x ∷◌) (map-append f xs y)

module _ (to_lower_case : Text → Text) where
  abbrev key : Suggestion → Text
  key = key_of to_lower_case

  -- Of the suggestions `done`, those with new keys were merged.
  record IsMerged (done : List Suggestion) (m : Merging) : Type 0 where
    seen_is : m.seen ≡ map key m.merged
    distinct : NoRepeat m.seen
    whole : All (λ s. mem (key s) m.seen ≡ true) done
    sound : All (λ s. In s done) m.merged

  merge_item-IsMerged :
      (s : Suggestion) (done : List Suggestion) (m : Merging)
      → IsMerged done m
      → IsMerged (done ++ s ∷ []) (merge_item to_lower_case s m)
  unfolding merge_item
  merge_item-IsMerged s done m h = elim (Bool-cases (mem (key s) m.seen)) [
    | inl old ↦ rw old (record {
      seen_is = h.seen_is;
      distinct = h.distinct;
      whole = All-append _ done (s ∷ []) h.whole (old, tt);
      sound = longer;
    })
    | inr new ↦ rw new (record {
      seen_is = ap (λ x. x ++ key s ∷ []) h.seen_is ∙ sym (map-append key m.merged s);
      distinct = NoRepeat-append (key s) m.seen h.distinct new;
      whole =
          All-append _ done (s ∷ [])
            (All-weaken _ _ done (λ x e. rw (mem-append (key x) m.seen (key s ∷ []), e) refl)
              h.whole)
            (last, tt);
      sound =
          All-append _ m.merged (s ∷ []) longer
            ((In-append s done (s ∷ [])).1 (inr (inl refl)), tt);
    })
  ]
    where
      longer : All (λ x. In x (done ++ s ∷ [])) m.merged
      longer = All-weaken _ _ m.merged (λ x i. (In-append x done (s ∷ [])).1 (inl i)) h.sound

      last : mem (key s) (m.seen ++ key s ∷ []) ≡ true
      last =
          (mem-In (key s) (m.seen ++ key s ∷ [])).1
            ((In-append (key s) m.seen (key s ∷ [])).1 (inr (inl refl)))

  merge_items-IsMerged :
      (ss : List Suggestion) (done : List Suggestion) (m : Merging)
      → IsMerged done m
      → IsMerged (done ++ ss) (merge_items to_lower_case ss m)
  merge_items-IsMerged [] done m h = rw append-nil h
  merge_items-IsMerged (s ∷ ss) done m h =
      subst (λ x. IsMerged x (merge_items to_lower_case (s ∷ ss) m)) (append_assoc done (s ∷ []) ss)
        (merge_items-IsMerged ss (done ++ s ∷ []) (merge_item to_lower_case s m)
          (merge_item-IsMerged s done m h))

  merge_lists-IsMerged :
      (ls : List Value) (done : List Suggestion) (m : Merging)
      → IsMerged done m
      → IsMerged (done ++ all_suggestions ls) (merge_lists to_lower_case ls m)
  merge_lists-IsMerged [] done m h = rw append-nil h
  merge_lists-IsMerged (l ∷ ls) done m h =
      subst (λ x. IsMerged x (merge_lists to_lower_case (l ∷ ls) m))
        (append_assoc done (normalize_suggestions l) (all_suggestions ls))
        (merge_lists-IsMerged ls (done ++ normalize_suggestions l)
          (merge_items to_lower_case (normalize_suggestions l) m)
          (merge_items-IsMerged (normalize_suggestions l) done m h))

  -- Whatever lower case is: no two suggestions that `mergeUniqueSuggestions` gives have the same
  -- value in lower case; each is one of the normalized suggestions of the lists; and each of those
  -- has a suggestion with its value in lower case.
  pub merge_unique_suggestions_lem :
      (lists : List Value)
      → NoRepeat (map key (merge_unique_suggestions to_lower_case lists))
        × All (λ s. In s (all_suggestions lists)) (merge_unique_suggestions to_lower_case lists)
        × All
            (λ s. mem (key s) (map key (merge_unique_suggestions to_lower_case lists)) ≡ true)
            (all_suggestions lists)
  merge_unique_suggestions_lem lists =
      let start : IsMerged [] nothing_merged = record {
        seen_is = refl;
        distinct = tt;
        whole = tt;
        sound = tt;
      } in
      let h = merge_lists-IsMerged lists [] nothing_merged start in
      (rw (← h.seen_is) h.distinct, h.sound, rw (← h.seen_is) h.whole)
