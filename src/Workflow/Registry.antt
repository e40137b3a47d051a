-- ===== src/Workflow/Registry.antt =====
-- internal/workflow/definition.go: the registry that `Prepare` builds from the documents of the
-- definition files, and what it is asked for. Reading the files, and reading the workflows of a
-- document into definitions, come before and are not modelled: a workflow of a document is the
-- definition that `normalizeDefinition` makes of it, or nothing.
pub mod Names
mod Tests
use remote_code.Prelude.{
  ℕ, suc, ◌==◌, Bool, true, false, not, Option, none, some, String, List, [], ◌∷◌, ◌++◌, ◌||◌, ltb,
  length, Map, lookup, insert, str_eq, is_present, Checked, accept, reject, ◌and_then◌, reject_if,
  or_reject, reject_as, sort_by, ℤ, pos,
}
use remote_code.Workflow.Definition.{CompiledDefinition}
use remote_code.Workflow.Sources.{Compilers, DefinitionSource, DefinitionError}
use remote_code.Workflow.Compile.{compile_definition, compile_code}

pub record Document : Type 0 where
  pub path : String
  pub version : ℤ
  pub language : String
  pub workflows : List (Option DefinitionSource)

pub record Registry : Type 0 where
  pub by_name : Map CompiledDefinition
  pub ordered : List CompiledDefinition

pub data RegistryError : Type 0 where
  bad_version bad_language bad_workflow_count bad_workflow duplicate_name : String → RegistryError
  bad_definition : String → DefinitionError → RegistryError
  too_many_definitions : RegistryError

abbrev pub max_workflows_per_file : ℕ
max_workflows_per_file = 128

abbrev pub max_definitions : ℕ
max_definitions = 256

pub add_definition :
    DefinitionSource → CompiledDefinition → Registry → Checked RegistryError Registry
add_definition d compiled registry =
    reject_if (is_present (lookup d.source_name registry.by_name)) (duplicate_name d.source_name) (
      reject_if (ltb max_definitions (suc (length registry.ordered))) too_many_definitions (
        accept (record {
          by_name = insert d.source_name compiled registry.by_name;
          ordered = registry.ordered ++ compiled ∷ [];
        })))

-- The loop over the workflows of a document.
pub add_workflows :
    Compilers → String → List (Option DefinitionSource) → Registry → Checked RegistryError Registry
add_workflows c path [] registry = accept registry
add_workflows c path (workflow ∷ workflows) registry =
    or_reject workflow (bad_workflow path) and_then λ d.
    reject_as (bad_definition d.source_name) (compile_definition c d) and_then λ compiled.
    add_definition d compiled registry and_then λ grown. add_workflows c path workflows grown

abbrev pub is_version : ℤ → Bool
is_version (pos n) = n == 1
is_version other = false

pub add_documents : Compilers → List Document → Registry → Checked RegistryError Registry
add_documents c [] registry = accept registry
add_documents c (document ∷ documents) registry =
    reject_if (not (is_version document.version)) (bad_version document.path) (
      reject_if (not (str_eq document.language "expr")) (bad_language document.path) (
        reject_if
          (length document.workflows == 0 || ltb max_workflows_per_file (length document.workflows))
          (bad_workflow_count document.path)
          (add_workflows c document.path document.workflows registry and_then λ grown.
            add_documents c documents grown)))

abbrev pub name_of : CompiledDefinition → String
name_of compiled = compiled.name

abbrev pub no_definitions : Registry
no_definitions = record { by_name = []; ordered = [] }

pub prepare : Compilers → List Document → Checked RegistryError Registry
prepare c documents = add_documents c documents no_definitions and_then λ registry.
    accept (record registry { ordered = sort_by name_of registry.ordered })

abbrev pub definition_named : Registry → String → Option CompiledDefinition
definition_named registry name = lookup name registry.by_name

abbrev pub definition_count : Registry → ℕ
definition_count registry = length registry.ordered

-- Everything that a run of this part computes with.
unfoldable pub registry_code : Unit {0}
unfolding compile_code add_definition add_workflows add_documents prepare
registry_code = tt
