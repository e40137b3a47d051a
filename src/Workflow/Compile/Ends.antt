-- ===== src/Workflow/Compile/Ends.antt =====
-- internal/workflow/definition.go: `compileDefinition` ends.
use remote_code.Prelude.{
  ℕ, suc, ◌≢◌, refl, sym, ◌∙◌, List, [], ◌∷◌, Map, lookup-has, not-false, if◌then◌else◌, insert,
  reject, Bool-cases, inl, inr, Rejects, Rejects-accept, Rejects-reject_if, Rejects-and_then,
  Rejects-or_reject, Rejects-reject_as, Rejects-self, Rejects-at,
}
use remote_code.Workflow.Definition.{CompiledNode, NodeDefinition}
use remote_code.Workflow.Graph.{out_of_fuel, is_node, compile_graph}
use remote_code.Workflow.Graph.Complete.{compile_graph-terminates}
use remote_code.Workflow.Sources.{
  Compilers, NodeSource, DefinitionSource, DefinitionError, bad_graph,
}
use remote_code.Workflow.Compile.{
  compile_terminal, compile_executable, compile_body, compile_limits, compile_node, compile_nodes,
  finish_definition, compile_definition, is_terminal,
}

abbrev Ends : DefinitionError → Type 0
Ends e = e ≢ bad_graph out_of_fuel

module _ (c : Compilers) where
  compile_body-Ends :
      (source : NodeSource) (node : NodeDefinition) → Rejects Ends (compile_body c source node)
  unfolding compile_body compile_terminal compile_executable if◌then◌else◌
  compile_body-Ends source node = elim (Bool-cases (is_terminal source)) [
    | inl e ↦ rw e (
        Rejects-and_then Ends _ _ (Rejects-or_reject Ends _ _ λ p. cc)
          λ outcome o. Rejects-reject_if Ends _ _ _ (λ h p. cc) λ h. Rejects-accept _ Ends _)
    | inr e ↦ rw e (
        Rejects-reject_if Ends _ _ _ (λ h p. cc)
          λ filled.
            Rejects-reject_if Ends _ _ _ (λ h p. cc)
              λ few.
                Rejects-and_then Ends _ _ (Rejects-or_reject Ends _ _ λ p. cc)
                  λ s o. Rejects-accept _ Ends _)
  ]

  compile_node-Ends :
      (index : ℕ) (nodes : Map CompiledNode) (source : NodeSource)
      → Rejects Ends (compile_node c index nodes source)
  unfolding compile_node compile_limits
  compile_node-Ends index nodes source =
      Rejects-reject_if Ends _ _ _ (λ h p. cc)
        λ identified.
          Rejects-reject_if Ends _ _ _ (λ h p. cc)
            λ new. Rejects-and_then Ends _ _ (Rejects-or_reject Ends _ _ λ p. cc) λ join o.
              Rejects-reject_if Ends _ _ _ (λ h p. cc)
                λ timed.
                  Rejects-reject_if Ends _ _ _ (λ h p. cc)
                    λ tried.
                      Rejects-and_then Ends _ _
                        (Rejects-reject_as Ends _ _ (Rejects-self _ _ λ e r p. cc))
                        λ resources r. compile_body-Ends source _

  compile_nodes-Ends :
      (index : ℕ) (sources : List NodeSource) (nodes : Map CompiledNode) (terminals : ℕ)
      → Rejects Ends (compile_nodes c index sources nodes terminals)
  unfolding compile_nodes
  compile_nodes-Ends index [] nodes terminals = Rejects-accept _ Ends _
  compile_nodes-Ends index (source ∷ sources) nodes terminals =
      Rejects-and_then Ends _ _ (compile_node-Ends index nodes source) λ node e.
        compile_nodes-Ends (suc index) sources (insert source.source_id node nodes)
          (if is_terminal source then suc terminals else terminals)

  -- The loops of the compilation end: no definition is refused because its fuel ran out.
  pub compile_definition-terminates :
      (d : DefinitionSource) → compile_definition c d ≢ reject (bad_graph out_of_fuel)
  unfolding compile_definition finish_definition
  compile_definition-terminates d refused =
      Rejects-at Ends (compile_definition c d) (bad_graph out_of_fuel)
        (Rejects-reject_if Ends _ _ _ (λ h p. cc)
          λ named.
            Rejects-reject_if Ends _ _ _ (λ h p. cc)
              λ revised.
                Rejects-reject_if Ends _ _ _ (λ h p. cc)
                  λ described.
                    Rejects-reject_if Ends _ _ _ (λ h p. cc)
                      λ parallel.
                        Rejects-reject_if Ends _ _ _ (λ h p. cc)
                          λ counted.
                            Rejects-and_then Ends _ _ (Rejects-or_reject Ends _ _ λ p. cc)
                              λ schema o.
                                Rejects-and_then Ends _ _ (compile_nodes-Ends 0 d.source_nodes [] 0)
                                  λ r e.
                                    Rejects-reject_if Ends _ _ _ (λ h p. cc)
                                      λ some_terminal.
                                        Rejects-reject_if Ends _ _ _ (λ h p. cc)
                                          λ known.
                                            Rejects-and_then Ends _ _
                                              (Rejects-reject_as Ends _ _ (
                                                Rejects-self _ (compile_graph d.source_entry r.0)
                                                  λ x e' p.
                                                    compile_graph-terminates d.source_entry r.0
                                                      (sym (lookup-has d.source_entry r.0)
                                                        ∙ not-false (is_node r.0 d.source_entry)
                                                            known)
                                                      cc))
                                              λ graph e'.
                                                Rejects-and_then Ends _ _
                                                  (Rejects-reject_as Ends _ _
                                                    (Rejects-self _ _ λ x e'' p. cc))
                                                  λ u e''. Rejects-accept _ Ends _)
        refused refl
