-- ===== src/Tools.antt =====
-- orchestration/tools/registry.ts: the tool registry. Ajv is a parameter: whether it compiles a
-- schema, and the errors of an input under a schema. A definition source that is a function is read
-- anew at each use, so it takes the moment of the read.
pub mod Registry
pub mod Examples
use halengine.Prelude.{
  ℕ, Text, text, text_eq, Bool, true, false, ◌||◌, Option, none, some, List, [], ◌∷◌, ◌++◌, map,
  length, take, if◌then◌else◌, ltb, Json, undefined, null, boolean, number, str, array, object,
  Fields,
}
use mathlib.Core.Option
use halengine.Session.{UserId, AuthHeaders, AuthenticatedUser}
use halengine.Messages.{OutgoingMessage}
use halengine.Ai.{ToolDefinition, Thrown, other_error}

pub record ToolResponse : Type 0 where
  pub result : Text
  pub client_messages : List OutgoingMessage
  pub suppress_assistant_response : Bool
  pub is_error : Bool

pub record ToolContext : Type 0 where
  pub user_id : UserId
  pub session_id : Text
  pub workspace_id : Option UserId
  pub auth_headers : Option AuthHeaders
  pub user : Option AuthenticatedUser
  pub aborted : Bool

-- What an executor settles with: a string, a response, or a rejection.
pub data Executed : Type 0 where
  answered_text : Text → Executed
  answered : ToolResponse → Executed
  rejected : Thrown → Executed

pub data ToolDefinitionSource : Type 0 where
  static : ToolDefinition → ToolDefinitionSource
  dynamic : (ℕ → ToolDefinition) → ToolDefinitionSource

pub record StoredTool : Type 0 where
  pub definition_source : ToolDefinitionSource
  pub execute : Fields → ToolContext → Executed

-- The `tools` map, in the order of registration.
abbrev pub ToolRegistry : Type 0
ToolRegistry = List (Text × StoredTool)

unfoldable pub find_tool : Text → ToolRegistry → Option StoredTool
find_tool name [] = none
find_tool name ((key, tool) ∷ tools) = if text_eq key name then some tool else find_tool name tools

unfoldable pub has_tool : ToolRegistry → Text → Bool
unfolding find_tool
has_tool registry name = elim (find_tool name registry) [ none ↦ false | some _ ↦ true ]

unfoldable pub resolve_definition : ℕ → ToolDefinitionSource → ToolDefinition
resolve_definition now (static definition) = definition
resolve_definition now (dynamic source) = source now

unfoldable pub get_definitions : ℕ → ToolRegistry → List ToolDefinition
unfolding resolve_definition
get_definitions now registry = map (λ t. resolve_definition now t.1.definition_source) registry

unfoldable pub plain_response : Text → Bool → ToolResponse
plain_response result is_error = record {
  result = result;
  client_messages = [];
  suppress_assistant_response = false;
  is_error = is_error;
}

unfoldable pub normalize_tool_response : Executed → Option ToolResponse
unfolding plain_response
normalize_tool_response (answered_text result) = some (plain_response result false)
normalize_tool_response (answered response) = some response
normalize_tool_response (rejected _) = none

-- s.join(separator)
unfoldable pub join : Text → List Text → Text
join separator [] = []
join separator (s ∷ []) = s
join separator (s ∷ t ∷ rest) = s ++ separator ++ join separator (t ∷ rest)

unfoldable pub missing_tool : Text → List Text → ToolResponse
unfolding plain_response join
missing_tool name [] =
    plain_response
      (text "There is no tool named '" ++ take 64 name ++ text "', and no tools are registered.")
      true
missing_tool name registered =
    plain_response
      (text "There is no tool named '"
        ++ take 64 name
        ++ text "'. The available tools are: "
        ++ join (text ", ") registered
        ++ text ".")
      true

-- One Ajv error: the path of the value, and what is wrong with it.
pub record SchemaError : Type 0 where
  pub instance_path : Text
  pub message : Text

unfoldable pub describe_error : SchemaError → Text
describe_error e =
    (if ltb 0 (length e.instance_path) then e.instance_path else text "(root)")
    ++ text " "
    ++ e.message

unfoldable pub invalid_input : Text → List SchemaError → ToolResponse
unfolding plain_response join describe_error
invalid_input name errors =
    plain_response
      (text "Tool '"
        ++ name
        ++ text "' input invalid: "
        ++ join (text "; ") (map describe_error errors))
      true

unfoldable pub crashed : Text → ToolResponse
unfolding plain_response
crashed name =
    plain_response (text "The " ++ name ++ text " tool failed and returned no result.") true

-- kindOf, for a value that is no object.
unfoldable pub kind_of : Json → Text
kind_of undefined = text "undefined"
kind_of null = text "null"
kind_of (array _) = text "an array"
kind_of (object _) = text "an object"
kind_of (boolean _) = text "boolean"
kind_of (number _) = text "number"
kind_of (str _) = text "string"

unfoldable pub malformed_input : Text → Text → Thrown
malformed_input name kind =
    other_error
      (text "Tool '" ++ take 64 name ++ text "' needs an object as input, and got " ++ kind)

-- Either a value, or what was thrown.
pub data Result {ℓ} (A : Type ℓ) : Type ℓ where
  ok : A → Result A
  threw : Thrown → Result A

module _ (compiles : Fields → Bool) (errors_of : Fields → Fields → List SchemaError) where
  -- The validator is compiled at once for a definition that is no function.
  unfoldable pub static_compiles : ToolDefinitionSource → Bool
  static_compiles (static definition) = compiles definition.input_schema
  static_compiles (dynamic _) = true

  unfoldable pub register :
      ℕ
      → ToolRegistry
      → ToolDefinitionSource
      → (Fields → ToolContext → Executed)
      → Result ToolRegistry
  unfolding has_tool resolve_definition static_compiles
  register now registry source execute =
      let name = (resolve_definition now source).name in
      if has_tool registry name
      then threw (other_error (text "Duplicate tool name: " ++ name))
      else if static_compiles source
      then ok (registry ++ (name, record { definition_source = source; execute = execute }) ∷ [])
      else threw (other_error (text "Tool '" ++ name ++ text "' has an uncompilable inputSchema"))

  -- A registered tool, its input checked, run; a throw of its executor is answered, never raised.
  unfoldable pub run_tool : Text → StoredTool → ℕ → Fields → ToolContext → Result ToolResponse
  unfolding resolve_definition normalize_tool_response invalid_input crashed
  run_tool name tool now input context =
      let schema = (resolve_definition now tool.definition_source).input_schema in
      if compiles schema
      then elim (errors_of schema input) [
        | [] ↦
            ok (Option.get_or (normalize_tool_response (tool.execute input context)) (crashed name))
        | e ∷ es ↦ ok (invalid_input name (e ∷ es))
      ]
      else threw (other_error (text "Tool '" ++ name ++ text "' has an uncompilable inputSchema"))

  unfoldable pub execute : ToolRegistry → ℕ → Text → Json → ToolContext → Result ToolResponse
  unfolding find_tool kind_of malformed_input missing_tool run_tool
  execute registry now name (object input) context = elim (find_tool name registry) [
    | none ↦ ok (missing_tool name (map (λ t. t.0) registry))
    | some tool ↦ run_tool name tool now input context
  ]
  execute registry now name input context = threw (malformed_input name (kind_of input))

-- promptInstructionsOf: an absent and an empty text are both skipped.
unfoldable pub instruction_of : ToolDefinition → List Text
instruction_of d = elim d.prompt_instructions [
  | none ↦ []
  | some instructions ↦
      if ltb 0 (length instructions) then (d.name ++ text ": " ++ instructions) ∷ [] else []
]

unfoldable pub prompt_instructions_of : List ToolDefinition → List Text
unfolding instruction_of
prompt_instructions_of [] = []
prompt_instructions_of (d ∷ definitions) = instruction_of d ++ prompt_instructions_of definitions
