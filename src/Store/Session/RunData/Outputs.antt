-- ===== src/Store/Session/RunData/Outputs.antt =====
-- store/workflow_store.js: each node of a run that ended early has one result.
use mathlib.Core.List.{reverse, reverse-cons, reverse-reverse}
use open_workflow_studio.Prelude.{
  ◌≡◌, refl, ◌∙◌, sym, ap, Option, List, [], ◌∷◌, ◌++◌, map, arith, Bool-cases, inl, inr,
  if◌then◌else◌,
}
use open_workflow_studio.Text.{Text, ==_iff, mem, mem-append, add, NoRepeat}
use open_workflow_studio.Assoc.{Assoc}
use open_workflow_studio.Value.{Value}
use open_workflow_studio.Store.Session.RunData.{
  collect, output_result, ids_of_run, outputs_or_empty, build_node_results_from_outputs,
}

-- The ids, each where it stands last.
pub latest : List Text → List Text
latest [] = []
latest (k ∷ ks) = let rest = latest ks in if mem k ks then rest else k ∷ rest

mem-latest : (j : Text) (ks : List Text) → mem j (latest ks) ≡ mem j ks
unfolding latest mem
mem-latest j [] = refl
mem-latest j (k ∷ ks) = ground (arith, mem-latest j ks, ==_iff j k)

mem-reverse : (j : Text) (ks : List Text) → mem j (reverse ks) ≡ mem j ks
unfolding mem
mem-reverse j [] = refl
mem-reverse j (k ∷ ks) =
    rw (reverse-cons k ks, mem-append j (reverse ks) (k ∷ [])) (ground (arith, mem-reverse j ks))

-- A step at the end of the loop.
collect-append :
    (k : Text) (ks results : List Text)
    → collect (ks ++ k ∷ []) results results
      ≡ (let q = collect ks results results in if mem k q then q else q ++ k ∷ [])
unfolding collect add
collect-append k [] results = refl
collect-append k (j ∷ ks) results = elim (Bool-cases (mem j results)) [
  | inl seen ↦ rw seen (collect-append k ks results)
  | inr new ↦ rw new (collect-append k ks (results ++ j ∷ []))
]

collect-reverse : (ks : List Text) → collect (reverse ks) [] [] ≡ reverse (latest ks)
unfolding latest collect
collect-reverse [] = refl
collect-reverse (k ∷ ks) =
    rw (reverse-cons k ks, collect-append k (reverse ks) [], collect-reverse ks)
      (rw (mem-reverse k (latest ks), mem-latest k ks)
        (elim (Bool-cases (mem k ks)) [
          | inl again ↦ rw again refl
          | inr last ↦ rw last (sym (reverse-cons k (latest ks)))
        ]))

latest-NoRepeat : (ks : List Text) → NoRepeat (latest ks)
unfolding latest
latest-NoRepeat [] = tt
latest-NoRepeat (k ∷ ks) = elim (Bool-cases (mem k ks)) [
  | inl again ↦ rw again (latest-NoRepeat ks)
  | inr last ↦ rw last (mem-latest k ks ∙ last, latest-NoRepeat ks)
]

-- The results of a run up to a node are those of the ids of the executed order, or of the outputs
-- when there is none, each id once and where it stands last, in that order: no id of the run is
-- left out, and none stands twice.
pub build_node_results_from_outputs_lem :
    (outputs : Option (Assoc Value)) (order : Option (List Text))
    → (let ids = ids_of_run (outputs_or_empty outputs) order in
        (build_node_results_from_outputs outputs order
          ≡ map (output_result (outputs_or_empty outputs)) (latest ids))
        × NoRepeat (latest ids)
        × ((k : Text) → mem k (latest ids) ≡ mem k ids))
unfolding build_node_results_from_outputs
build_node_results_from_outputs_lem outputs order =
    let ids = ids_of_run (outputs_or_empty outputs) order in
    (
      ap (λ ks. map (output_result (outputs_or_empty outputs)) (reverse ks)) (collect-reverse ids)
          ∙ ap (map (output_result (outputs_or_empty outputs))) (reverse-reverse (latest ids)),
      latest-NoRepeat ids,
      λ k. mem-latest k ids,
    )
