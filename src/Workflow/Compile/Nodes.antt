-- ===== src/Workflow/Compile/Nodes.antt =====
-- internal/workflow/definition.go: the nodes that the loop of `compileDefinition` compiles.
use mathlib.Core.List.{append_assoc, append-nil}
use remote_code.Prelude.{
  ℕ, suc, ◌+◌, ◌*◌, ◌≤◌, ◌≡◌, ◌≢◌, inl, inr, refl, sym, ap, ◌∙◌, Bool, true, false, not, some,
  String, List, [], ◌∷◌, ◌++◌, ◌||◌, ◌==◌, if◌then◌else◌, length, Map, insert, keys, has,
  IsDistinct, IsDistinct-keys-insert, insert_fresh, lookup-has, ℤ, in_range, in_range-to_nat,
  Accepts, Accepts-accept, Accepts-reject_if, Accepts-and_then, Accepts-or_reject,
  Accepts-reject_as, Accepts-imp, arith, not-false, is_blank, Bool-cases, ltb,
}
use remote_code.Workflow.Model.{TerminalOutcome, terminal_none, JoinPolicy}
use remote_code.Workflow.Definition.{identifier_pattern, NodeDefinition, CompiledNode}
use remote_code.Workflow.Sources.{NodeSource, Compilers, second, hour}
use remote_code.Workflow.Compile.{
  compile_terminal, compile_executable, compile_body, compile_limits, compile_node, compile_nodes,
  is_terminal, read_terminal,
}
use remote_code.Workflow.Compile.Resources.{IsNormal, normalize_resources-IsNormal}

-- A terminal node has an outcome and no routes; another node has 1 to 64 routes and no outcome.
abbrev pub IsShaped : Bool → NodeDefinition → Type 0
IsShaped true node = (node.terminal ≢ terminal_none) × (length node.routes ≡ 0)
IsShaped false node =
    (node.terminal ≡ terminal_none) × (1 ≤ length node.routes) × (length node.routes ≤ 64)

-- A compiled node within the limits, with the name, the routes and the resources of its source.
pub record IsSound (source : NodeSource) (node : NodeDefinition) : Type 0 where
  pub identified : identifier_pattern source.source_id ≡ true
  pub same_id : node.definition_id ≡ source.source_id
  pub same_routes : node.routes ≡ source.source_routes
  pub normal : IsNormal source.source_resources node.resources
  pub attempts_least : 1 ≤ node.max_attempts
  pub attempts_most : node.max_attempts ≤ 100
  pub timeout_least : second ≤ node.timeout
  pub timeout_most : node.timeout ≤ 720 * hour
  pub shaped : IsShaped (is_terminal source) node

-- One entry for each source, in their order.
abbrev pub IsCompiledFrom : List NodeSource → Map CompiledNode → Type 0
IsCompiledFrom [] [] = Unit
IsCompiledFrom [] (entry ∷ nodes) = ⊥
IsCompiledFrom (source ∷ sources) [] = ⊥
IsCompiledFrom (source ∷ sources) (entry ∷ nodes) =
    (entry.0 ≡ source.source_id)
    × IsSound source entry.1.node_definition
    × IsCompiledFrom sources nodes

read_terminal-some :
    (s : String) (outcome : TerminalOutcome)
    → read_terminal s ≡ some outcome
    → outcome ≢ terminal_none
unfolding if◌then◌else◌
read_terminal-some s outcome h e = ground (arith, h, e)

module _ (source : NodeSource) (node : NodeDefinition) (P : NodeDefinition → Type 0) where
  compile_terminal-Accepts :
      ((outcome : TerminalOutcome)
        → outcome ≢ terminal_none
        → length source.source_routes ≡ 0
        → P (record node { terminal = outcome }))
      → Accepts (λ (n : CompiledNode). P n.node_definition) (compile_terminal source node)
  unfolding compile_terminal
  compile_terminal-Accepts k =
      let Q = λ (n : CompiledNode). P n.node_definition in
      Accepts-and_then (λ outcome. outcome ≢ terminal_none) Q _ _
        (Accepts-or_reject _ _ _ λ outcome e. read_terminal-some source.source_terminal outcome e)
        λ outcome some_outcome. Accepts-reject_if Q _ _ _ λ empty. Accepts-accept _ Q _ (
          k outcome some_outcome
            (no_routes (not (is_blank source.script)) (length source.source_routes) empty))
    where
      no_routes : (b : Bool) (n : ℕ) → (b || not (n == 0)) ≡ false → n ≡ 0
      no_routes b n h = ground (arith, h)

  compile_executable-Accepts :
      (c : Compilers)
      → (1 ≤ length source.source_routes → length source.source_routes ≤ 64 → P node)
      → Accepts (λ (n : CompiledNode). P n.node_definition) (compile_executable c source node)
  unfolding compile_executable
  compile_executable-Accepts c k =
      let Q = λ (n : CompiledNode). P n.node_definition in
      Accepts-reject_if Q _ _ _ λ filled. Accepts-reject_if Q _ _ _ λ few.
        Accepts-and_then (λ compiled. Unit {0}) Q _ _ (Accepts-or_reject _ _ _ λ compiled e. tt)
          λ compiled u. Accepts-accept _ Q _ (
            k (some_routes (is_blank source.script) (length source.source_routes) filled)
              (few_routes (length source.source_routes) few))
    where
      some_routes : (b : Bool) (n : ℕ) → (b || n == 0) ≡ false → 1 ≤ n
      some_routes b n h = ground (arith, h)

      few_routes : (n : ℕ) → ltb 64 n ≡ false → n ≤ 64
      few_routes n h = ground (arith, h)

-- The round of the loop at one node.
module _ (c : Compilers) (source : NodeSource) where
  compile_limits-IsSound :
      (join : JoinPolicy) (timeout attempts : ℤ)
      → identifier_pattern source.source_id ≡ true
      → Accepts
          (λ (n : CompiledNode). IsSound source n.node_definition)
          (compile_limits c source join timeout attempts)
  unfolding compile_limits compile_body if◌then◌else◌
  compile_limits-IsSound join timeout attempts identified =
      let Q = λ (n : CompiledNode). IsSound source n.node_definition in
      Accepts-reject_if Q _ _ _ λ long. Accepts-reject_if Q _ _ _ λ tried.
        Accepts-and_then (IsNormal source.source_resources) Q _ _
          (Accepts-reject_as _ _ _ (normalize_resources-IsNormal source.source_resources))
          λ resources normal.
            let t =
              in_range-to_nat second (720 * hour) timeout
                (not-false (in_range second (720 * hour) timeout) long) in
            let a = in_range-to_nat 1 100 attempts (not-false (in_range 1 100 attempts) tried) in
            elim (Bool-cases (is_terminal source)) [
              | inl e ↦ rw e (
                  compile_terminal-Accepts source _ (IsSound source)
                    λ outcome some_outcome none_routes. record {
                      identified = identified;
                      same_id = refl;
                      same_routes = refl;
                      normal = normal;
                      attempts_least = a.0;
                      attempts_most = a.1;
                      timeout_least = t.0;
                      timeout_most = t.1;
                      shaped = rw e (some_outcome, none_routes);
                    })
              | inr e ↦ rw e (
                  compile_executable-Accepts source _ (IsSound source) c λ some_routes few_routes.
                    record {
                      identified = identified;
                      same_id = refl;
                      same_routes = refl;
                      normal = normal;
                      attempts_least = a.0;
                      attempts_most = a.1;
                      timeout_least = t.0;
                      timeout_most = t.1;
                      shaped = rw e (refl, some_routes, few_routes);
                    })
            ]

  record IsNew (nodes : Map CompiledNode) (node : CompiledNode) : Type 0 where
    sound : IsSound source node.node_definition
    fresh : has source.source_id (keys nodes) ≡ false

  compile_node-IsNew :
      (index : ℕ) (nodes : Map CompiledNode)
      → Accepts (IsNew nodes) (compile_node c index nodes source)
  unfolding compile_node
  compile_node-IsNew index nodes = Accepts-reject_if (IsNew nodes) _ _ _ λ identified.
      Accepts-reject_if (IsNew nodes) _ _ _ λ new.
        Accepts-and_then (λ join. Unit {0}) (IsNew nodes) _ _ (Accepts-or_reject _ _ _ λ join e. tt)
          λ join u.
            Accepts-imp _ (IsNew nodes) _
              (compile_limits-IsSound join _ _
                (not-false (identifier_pattern source.source_id) identified))
              λ node sound. record {
                sound = sound;
                fresh = sym (lookup-has source.source_id nodes) ∙ new;
              }

-- How many of the sources are terminal.
pub terminal_count : List NodeSource → ℕ
terminal_count [] = 0
terminal_count (source ∷ sources) =
    if is_terminal source then suc (terminal_count sources) else terminal_count sources

pub record IsLoop (sources : List NodeSource) (nodes : Map CompiledNode) (terminals : ℕ)
    (r : Map CompiledNode × ℕ) : Type 0 where
  pub added : Map CompiledNode
  pub in_order : r.0 ≡ nodes ++ added
  pub compiled_from : IsCompiledFrom sources added
  pub distinct : IsDistinct (keys r.0)
  pub counted : r.1 ≡ terminals + terminal_count sources

pub compile_nodes-IsLoop :
    (c : Compilers) (index : ℕ) (sources : List NodeSource) (nodes : Map CompiledNode)
    (terminals : ℕ)
    → IsDistinct (keys nodes)
    → Accepts (IsLoop sources nodes terminals) (compile_nodes c index sources nodes terminals)
unfolding compile_nodes terminal_count if◌then◌else◌
compile_nodes-IsLoop c index [] nodes terminals d =
    Accepts-accept _ (IsLoop [] nodes terminals) _ (record {
      added = [];
      in_order = sym (append-nil nodes);
      compiled_from = tt;
      distinct = d;
      counted = omega arith;
    })
compile_nodes-IsLoop c index (source ∷ sources) nodes terminals d =
    let P = IsLoop (source ∷ sources) nodes terminals in
    Accepts-and_then (IsNew c source nodes) P (compile_node c index nodes source) _
      (compile_node-IsNew c source index nodes)
      λ node new.
        Accepts-imp _ P _
          (compile_nodes-IsLoop c (suc index) sources (insert source.source_id node nodes)
            (if is_terminal source then suc terminals else terminals)
            (IsDistinct-keys-insert source.source_id node nodes d))
          λ r later. record {
            added = (source.source_id, node) ∷ later.added;
            in_order =
                later.in_order
                ∙ ap (λ l. l ++ later.added) (insert_fresh source.source_id node nodes new.fresh)
                ∙ append_assoc nodes ((source.source_id, node) ∷ []) later.added;
            compiled_from = (refl, new.sound, later.compiled_from);
            distinct = later.distinct;
            counted = later.counted ∙ ground arith;
          }
