-- ===== src/Workflow/Compile/Definitions.antt =====
-- internal/workflow/definition.go: what `compileDefinition` promises of a definition that it accepts.
use remote_code.Prelude.{
  ℕ, ◌≤◌, ◌≡◌, ◌⊎◌, suc, [], ◌∷◌, subst, refl, sym, ap, ◌∙◌, Bool, true, false, String, List, ◌||◌,
  ◌==◌, ltb, length, Map, keys, str_eq, has, IsDistinct, lookup-has, not-false, int_or, in_range,
  in_range-to_nat, ℤ, pos, negsuc, to_nat, accept, Accepts, Accepts-accept, Accepts-reject_if,
  Accepts-and_then, Accepts-or_reject, Accepts-reject_as, Accepts-at, Accepts-self, arith,
}
use remote_code.Workflow.Model.{Json}
use remote_code.Workflow.Definition.{identifier_pattern, CompiledDefinition, CompiledNode}
use remote_code.Workflow.Graph.{is_node, CompiledGraph, compile_graph}
use remote_code.Workflow.Graph.Orders.{IsOrdered, compile_graph-IsOrdered}
use remote_code.Workflow.Writes.{writes_of, validate_context_write_ordering}
use remote_code.Workflow.Writes.Precedes.{
  AlwaysBefore, validate_context_write_ordering-AlwaysBefore,
}
use remote_code.Workflow.Sources.{Compilers, DefinitionSource, NodeSource}
use remote_code.Workflow.Compile.{finish_definition, compile_definition, has_revision}
use remote_code.Workflow.Compile.Nodes.{
  IsCompiledFrom, terminal_count, IsLoop, compile_nodes-IsLoop,
}

-- Two nodes that may write one key of the context are in the same order in every run.
abbrev pub WritesInOrder : Map CompiledNode → CompiledGraph → Type 0
WritesInOrder nodes graph =
    (key a b : String)
    → str_eq a b ≡ false
    → has a graph.graph_order ≡ true
    → has b graph.graph_order ≡ true
    → has key (writes_of nodes a) ≡ true
    → has key (writes_of nodes b) ≡ true
    → AlwaysBefore nodes graph.graph_incoming a b ⊎ AlwaysBefore nodes graph.graph_incoming b a

abbrev graph_of : CompiledDefinition → CompiledGraph
graph_of r = record { graph_order = r.order; graph_incoming = r.incoming }

-- A definition that the service can run.
pub record IsCompiled (d : DefinitionSource) (r : CompiledDefinition) : Type 0 where
  pub same_name : r.name ≡ d.source_name
  pub name_identified : identifier_pattern r.name ≡ true
  pub same_revision : d.revision ≡ pos r.definition_revision
  pub positive_revision : 1 ≤ r.definition_revision
  pub parallelism_least : 1 ≤ r.max_parallelism
  pub parallelism_most : r.max_parallelism ≤ 64
  pub nodes_most : length r.compiled_nodes ≤ 256
  pub nodes_sound : IsCompiledFrom d.source_nodes r.compiled_nodes
  pub distinct_ids : IsDistinct (keys r.compiled_nodes)
  pub some_terminal : 1 ≤ terminal_count d.source_nodes
  pub same_entry : r.entry ≡ d.source_entry
  pub has_entry : has r.entry (keys r.compiled_nodes) ≡ true
  pub ordered : IsOrdered r.compiled_nodes (graph_of r)
  pub writes_in_order : WritesInOrder r.compiled_nodes (graph_of r)

length-compiled :
    (ss : List NodeSource) (nodes : Map CompiledNode)
    → IsCompiledFrom ss nodes
    → length nodes ≡ length ss
length-compiled [] [] h = refl
length-compiled [] (e ∷ nodes) h = absurd h
length-compiled (s ∷ ss) [] h = absurd h
length-compiled (s ∷ ss) (e ∷ nodes) h = ap suc (length-compiled ss nodes h.2)

has_revision-positive : (z : ℤ) → has_revision z ≡ true → (z ≡ pos (to_nat z)) × (1 ≤ to_nat z)
has_revision-positive (pos n) h = (refl, ground (arith, h))
has_revision-positive (negsuc n) h = cc

-- What the checks before the loop over the nodes establish.
record IsChecked (d : DefinitionSource) : Type 0 where
  named : identifier_pattern d.source_name ≡ true
  revised : has_revision d.revision ≡ true
  parallel : in_range 1 64 (int_or 1 d.source_parallelism) ≡ true
  few : length d.source_nodes ≤ 256

module _ (c : Compilers) (d : DefinitionSource) where
  finish_definition-IsCompiled :
      (schema : Json × (Json → Bool)) (r : Map CompiledNode × ℕ)
      → IsChecked d
      → IsLoop d.source_nodes [] 0 r
      → Accepts
          (IsCompiled d)
          (finish_definition c d (to_nat (int_or 1 d.source_parallelism)) schema r)
  unfolding finish_definition
  finish_definition-IsCompiled schema r checked loop =
      let P = IsCompiled d in
      let revision = has_revision-positive d.revision checked.revised in
      let parallelism = in_range-to_nat 1 64 (int_or 1 d.source_parallelism) checked.parallel in
      let nodes = r.0 in
      let compiled = subst (IsCompiledFrom d.source_nodes) (sym loop.in_order) loop.compiled_from in
      Accepts-reject_if P _ _ _ λ some_terminal. Accepts-reject_if P _ _ _ λ known.
        let there =
          sym (lookup-has d.source_entry nodes) ∙ not-false (is_node nodes d.source_entry) known in
        Accepts-and_then (λ graph. IsOrdered nodes graph) P _ _
          (Accepts-reject_as _ _ _ (
            Accepts-self (IsOrdered nodes) (compile_graph d.source_entry nodes)
              λ graph e. compile_graph-IsOrdered d.source_entry nodes graph there e))
          λ graph ordered.
            let accepted =
              validate_context_write_ordering nodes graph.graph_incoming graph.graph_order in
            Accepts-and_then (λ u. WritesInOrder nodes graph) P _ _
              (Accepts-reject_as _ _ _ (
                Accepts-self (λ u. WritesInOrder nodes graph) accepted
                  λ u e key a b.
                    validate_context_write_ordering-AlwaysBefore nodes graph.graph_incoming
                      graph.graph_order key a b e))
              λ u in_order. Accepts-accept _ P _ (record {
                same_name = refl;
                name_identified = checked.named;
                same_revision = revision.0;
                positive_revision = revision.1;
                parallelism_least = parallelism.0;
                parallelism_most = parallelism.1;
                nodes_most =
                    omega (arith, length-compiled d.source_nodes nodes compiled, checked.few);
                nodes_sound = compiled;
                distinct_ids = loop.distinct;
                some_terminal = ground (arith, some_terminal, loop.counted);
                same_entry = refl;
                has_entry = there;
                ordered = ordered;
                writes_in_order = in_order;
              })

  compile_definition-Accepts : Accepts (IsCompiled d) (compile_definition c d)
  unfolding compile_definition
  compile_definition-Accepts =
      let P = IsCompiled d in
      Accepts-reject_if P _ _ _ λ named. Accepts-reject_if P _ _ _ λ revised.
        Accepts-reject_if P _ _ _ λ described. Accepts-reject_if P _ _ _ λ parallel.
          Accepts-reject_if P _ _ _ λ counted.
            Accepts-and_then (λ schema. Unit {0}) P _ _ (Accepts-or_reject _ _ _ λ schema e. tt)
              λ schema u.
                Accepts-and_then (IsLoop d.source_nodes [] 0) P _ _
                  (compile_nodes-IsLoop c 0 d.source_nodes [] 0 tt)
                  λ r loop.
                    finish_definition-IsCompiled schema r
                      (record {
                        named = not-false (identifier_pattern d.source_name) named;
                        revised = not-false (has_revision d.revision) revised;
                        parallel =
                            not-false (in_range 1 64 (int_or 1 d.source_parallelism)) parallel;
                        few = few_nodes (length d.source_nodes) counted;
                      })
                      loop
    where
      few_nodes : (n : ℕ) → (n == 0 || ltb 256 n) ≡ false → n ≤ 256
      few_nodes n h = ground (arith, h)

-- A definition that is accepted keeps its name, revision and entry; its nodes are those of the source,
-- within the limits, with distinct names; its order has each node once, after its sources; and the
-- writes of two nodes to one key of the context are in the same order in every run.
pub compile_definition-IsCompiled :
    (c : Compilers) (d : DefinitionSource) (r : CompiledDefinition)
    → compile_definition c d ≡ accept r
    → IsCompiled d r
compile_definition-IsCompiled c d r e =
    Accepts-at (IsCompiled d) (compile_definition c d) r (compile_definition-Accepts c d) e
