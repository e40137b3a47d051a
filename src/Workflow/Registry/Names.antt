-- ===== src/Workflow/Registry/Names.antt =====
-- internal/workflow/definition.go: the names in the registry that `Prepare` builds.
use remote_code.Prelude.{
  ◌≤◌, ◌≡◌, refl, sym, ap, subst, ◌∙◌, Option, some, String, List, [], ◌∷◌, ◌++◌, if◌then◌else◌,
  length, map, lookup, keys, str_eq, has, has-sort_strings, IsDistinct, IsDistinct-keys-insert,
  lookup-insert, lookup-has, map-sort_by, length-sort_by, sort_strings, IsAscending,
  sort_strings-IsAscending, sort_strings-IsDistinct, accept, Accepts, Accepts-accept,
  Accepts-reject_if, Accepts-and_then, Accepts-or_reject, Accepts-reject_as, Accepts-self,
  Accepts-at, arith, insert_fresh, keys-append, length-append, Bool-cases, inl, inr, str_eq→eq,
}
use remote_code.Workflow.Definition.{CompiledDefinition}
use remote_code.Workflow.Sources.{Compilers, DefinitionSource}
use remote_code.Workflow.Compile.{compile_definition}
use remote_code.Workflow.Compile.Definitions.{IsCompiled, compile_definition-IsCompiled}
use remote_code.Workflow.Registry.{
  Document, Registry, add_definition, add_workflows, add_documents, name_of, no_definitions,
  prepare, max_definitions, definition_named, definition_count,
}

abbrev pub names_of : List CompiledDefinition → List String
names_of definitions = map name_of definitions

-- Every definition that is found by a name has that name and was compiled.
abbrev pub AllCompiled : Registry → Type 0
AllCompiled registry =
    (name : String) (r : CompiledDefinition)
    → definition_named registry name ≡ some r
    → (r.name ≡ name) × ((d : DefinitionSource) × IsCompiled d r)

-- Before the definitions are sorted.
record IsGrowing (registry : Registry) : Type 0 where
  names : names_of registry.ordered ≡ keys registry.by_name
  distinct : IsDistinct (keys registry.by_name)
  counted : length registry.ordered ≤ max_definitions
  compiled : AllCompiled registry

names_of-append :
    (xs ys : List CompiledDefinition) → names_of (xs ++ ys) ≡ names_of xs ++ names_of ys
names_of-append [] ys = refl
names_of-append (x ∷ xs) ys = ap (λ l. name_of x ∷ l) (names_of-append xs ys)

-- What the service reads.
pub record IsPrepared (registry : Registry) : Type 0 where
  pub listed :
      (name : String) → has name (names_of registry.ordered) ≡ has name (keys registry.by_name)
  pub once : IsDistinct (names_of registry.ordered)
  pub ascending : IsAscending (names_of registry.ordered)
  pub few : definition_count registry ≤ 256
  pub all_compiled : AllCompiled registry

no_definitions-IsGrowing : IsGrowing no_definitions
unfolding lookup
no_definitions-IsGrowing = record {
  names = refl;
  distinct = tt;
  counted = omega arith;
  compiled = λ name r found. cc;
}

module _ (c : Compilers) where
  add_definition-IsGrowing :
      (d : DefinitionSource) (r : CompiledDefinition) (registry : Registry)
      → IsCompiled d r
      → IsGrowing registry
      → Accepts IsGrowing (add_definition d r registry)
  unfolding add_definition if◌then◌else◌
  add_definition-IsGrowing d r registry good g = Accepts-reject_if IsGrowing _ _ _ λ new.
      let unused = sym (lookup-has d.source_name registry.by_name) ∙ new in
      Accepts-reject_if IsGrowing _ _ _ λ room. Accepts-accept _ IsGrowing _ (record {
        names =
            names_of-append registry.ordered (r ∷ [])
            ∙ ap (λ l. l ++ r.name ∷ []) g.names
            ∙ ap (λ n. keys registry.by_name ++ n ∷ []) good.same_name
            ∙ sym (
                ap keys (insert_fresh d.source_name r registry.by_name unused)
                ∙ keys-append registry.by_name ((d.source_name, r) ∷ []));
        distinct = IsDistinct-keys-insert d.source_name r registry.by_name g.distinct;
        counted = ground (arith, room, length-append registry.ordered (r ∷ []));
        compiled = λ name r' found.
            let step = sym (lookup-insert d.source_name name r registry.by_name) ∙ found in
            elim (Bool-cases (str_eq d.source_name name)) [
              | inl same ↦
                  let e : r ≡ r' = cc (rw same at step) in
                  (
                    ap name_of (sym e) ∙ good.same_name ∙ str_eq→eq d.source_name name same,
                    (d, subst (IsCompiled d) e good),
                  )
              | inr other ↦ g.compiled name r' (rw other at step)
            ];
      })

  add_workflows-IsGrowing :
      (path : String) (workflows : List (Option DefinitionSource)) (registry : Registry)
      → IsGrowing registry
      → Accepts IsGrowing (add_workflows c path workflows registry)
  unfolding add_workflows
  add_workflows-IsGrowing path [] registry g = Accepts-accept _ IsGrowing _ g
  add_workflows-IsGrowing path (workflow ∷ workflows) registry g =
      Accepts-and_then (λ d. Unit {0}) IsGrowing _ _ (Accepts-or_reject _ workflow _ λ d e. tt)
        λ d u.
          Accepts-and_then (IsCompiled d) IsGrowing _ _
            (Accepts-reject_as _ _ _ (
              Accepts-self (IsCompiled d) (compile_definition c d)
                (compile_definition-IsCompiled c d)))
            λ r good.
              Accepts-and_then IsGrowing IsGrowing _ _
                (add_definition-IsGrowing d r registry good g)
                (add_workflows-IsGrowing path workflows)

  add_documents-IsGrowing :
      (documents : List Document) (registry : Registry)
      → IsGrowing registry
      → Accepts IsGrowing (add_documents c documents registry)
  unfolding add_documents
  add_documents-IsGrowing [] registry g = Accepts-accept _ IsGrowing _ g
  add_documents-IsGrowing (document ∷ documents) registry g =
      Accepts-reject_if IsGrowing _ _ _ λ versioned. Accepts-reject_if IsGrowing _ _ _ λ spoken.
        Accepts-reject_if IsGrowing _ _ _ λ counted.
          Accepts-and_then IsGrowing IsGrowing _ _
            (add_workflows-IsGrowing document.path document.workflows registry g)
            (add_documents-IsGrowing documents)

  -- In the registry that is built, the list has the names that can be found, at most 256, each once and
  -- in ascending order, and a definition that is found has the name and is compiled.
  pub prepare-IsPrepared :
      (documents : List Document) (registry : Registry)
      → prepare c documents ≡ accept registry
      → IsPrepared registry
  unfolding prepare
  prepare-IsPrepared documents registry e =
      Accepts-at IsPrepared (prepare c documents) registry
        (Accepts-and_then IsGrowing IsPrepared _ _
          (add_documents-IsGrowing documents no_definitions no_definitions-IsGrowing)
          λ grown g.
            let sorted = map-sort_by name_of grown.ordered ∙ ap sort_strings g.names in
            Accepts-accept _ IsPrepared _ (record {
              listed =
                  λ name. ap (λ l. has name l) sorted ∙ has-sort_strings name (keys grown.by_name);
              once =
                  subst IsDistinct (sym sorted)
                    (sort_strings-IsDistinct (keys grown.by_name) g.distinct);
              ascending =
                  subst IsAscending (sym sorted) (sort_strings-IsAscending (keys grown.by_name));
              few = omega (arith, length-sort_by name_of grown.ordered, g.counted);
              all_compiled = g.compiled;
            }))
        e
