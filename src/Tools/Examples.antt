-- ===== src/Tools/Examples.antt =====
-- Tests and examples of the tool registry.
use halengine.Prelude.{
  Text, text, Bool, true, false, ◌≡◌, refl, none, some, List, [], ◌∷◌, ◌++◌, Fields, empty, field,
  str, object,
}
use halengine.Session.{named}
use halengine.Ai.{ToolDefinition, other_error}
use halengine.Tools.{
  ToolResponse, ToolContext, Executed, answered_text, rejected, static, StoredTool, ToolRegistry,
  SchemaError, ok, threw, find_tool, has_tool, resolve_definition, plain_response,
  normalize_tool_response, join, missing_tool, crashed, static_compiles, register, run_tool,
  execute,
}
use halengine.Tools.Registry.{
  HasDistinctNames, CameFrom, register_lem, register_duplicate, execute-CameFrom, execute_total,
}

-- A validator that wants a value for the one field that a schema names.
abbrev any_schema : Fields → Bool
any_schema schema = true

abbrev wants_fields : Fields → Fields → List SchemaError
wants_fields schema empty =
    record { instance_path = []; message = text "must have required property" } ∷ []
wants_fields schema (field name value rest) = []

abbrev named_tool : Text → ToolDefinition
named_tool name = record {
  name = name;
  description = text "Looks an order up.";
  input_schema = empty;
  prompt_instructions = none;
  example_prompts = none;
}

abbrev shipped : Fields → ToolContext → Executed
shipped input context = answered_text (text "It ships today.")

abbrev fails : Fields → ToolContext → Executed
fails input context = rejected (other_error (text "no route to host"))

abbrev lookup : StoredTool
lookup = record { definition_source = static (named_tool (text "lookup")); execute = shipped }

abbrev refund : StoredTool
refund = record { definition_source = static (named_tool (text "refund")); execute = fails }

abbrev one_tool : ToolRegistry
one_tool = (text "lookup", lookup) ∷ []

abbrev two_tools : ToolRegistry
two_tools = one_tool ++ (text "refund", refund) ∷ []

abbrev order : Fields
order = field (text "order") (str (text "17")) empty

abbrev caller : ToolContext
caller = record {
  user_id = named (text "u1");
  session_id = text "s1";
  workspace_id = none;
  auth_headers = none;
  user = none;
  aborted = false;
}

register_test :
    register any_schema wants_fields 0 one_tool (static (named_tool (text "refund"))) fails
    ≡ ok two_tools
unfolding register has_tool find_tool resolve_definition static_compiles
register_test = refl

crash_test :
    execute any_schema wants_fields two_tools 0 (text "refund") (object order) caller
    ≡ ok (crashed (text "refund"))
unfolding execute find_tool run_tool resolve_definition normalize_tool_response
crash_test = refl

missing_test :
    missing_tool (text "loookup") (text "lookup" ∷ text "refund" ∷ [])
    ≡ plain_response
        (text "There is no tool named 'loookup'. The available tools are: lookup, refund.")
        true
unfolding missing_tool join plain_response
missing_test = refl

execute_test :
    execute any_schema wants_fields two_tools 0 (text "lookup") (object order) caller
    ≡ ok (plain_response (text "It ships today.") false)
unfolding execute find_tool run_tool resolve_definition normalize_tool_response
execute_test = refl

register_lem_example :
    HasDistinctNames two_tools × (find_tool (text "refund") two_tools ≡ some refund)
unfolding find_tool resolve_definition
register_lem_example =
    register_lem any_schema wants_fields 0 one_tool two_tools (static (named_tool (text "refund")))
      fails (text "refund") (tt, tt) register_test

register_twice_test :
    register any_schema wants_fields 0 one_tool (static (named_tool (text "lookup"))) fails
    ≡ threw (other_error (text "Duplicate tool name: lookup"))
unfolding find_tool resolve_definition
register_twice_test =
    register_duplicate any_schema wants_fields 0 one_tool (static (named_tool (text "lookup")))
      fails lookup refl

execute-CameFrom_example :
    CameFrom any_schema wants_fields two_tools 0
      (text "lookup")
      order
      caller
      (plain_response (text "It ships today.") false)
unfolding plain_response
execute-CameFrom_example =
    execute-CameFrom any_schema wants_fields two_tools 0 (text "lookup") order caller
      (plain_response (text "It ships today.") false) execute_test refl

execute_total_example :
    (r : ToolResponse) × (execute any_schema wants_fields two_tools 0
        (text "refund")
        (object order)
        caller
      ≡ ok r)
execute_total_example =
    execute_total any_schema wants_fields (λ schema. refl) two_tools 0 (text "refund") order caller
