-- ===== src/Tools/Registry.antt =====
-- What the registry promises of its names and of the calls that a model authors.
use halengine.Prelude.{
  ℕ, Text, text, text_eq, text_eq→eq, text_eq_refl, Bool, true, false, ◌≡◌, refl, ap, ◌∙◌,
  List-cases, inl, inr, none, some, List, [], ◌∷◌, ◌++◌, map, All, All-append, arith, Bool-cases,
  Option-cases, if◌then◌else◌, Fields, object,
}
use mathlib.Core.Option
use halengine.Ai.{other_error}
use halengine.Tools.{
  ToolResponse, ToolContext, Executed, ToolDefinitionSource, StoredTool, ToolRegistry, SchemaError,
  ok, threw, find_tool, has_tool, resolve_definition, register, run_tool, execute, missing_tool,
  invalid_input, crashed, normalize_tool_response,
}

-- No two tools of the map have one name.
abbrev pub IsFresh : Text → ToolRegistry → Type 0
IsFresh name registry = All (λ t. text_eq t.0 name ≡ false) registry

abbrev pub HasDistinctNames : ToolRegistry → Type 0
HasDistinctNames [] = Unit
HasDistinctNames ((name, tool) ∷ registry) = IsFresh name registry × HasDistinctNames registry

has_tool-IsFresh :
    (name : Text) (registry : ToolRegistry) → has_tool registry name ≡ false → IsFresh name registry
unfolding has_tool find_tool
has_tool-IsFresh name [] h = tt
has_tool-IsFresh name ((key, tool) ∷ registry) h = elim (Bool-cases (text_eq key name)) [
  | inl e ↦ absurd (hit e)
  | inr e ↦ (e, has_tool-IsFresh name registry (ground arith))
]
  where
    hit : text_eq key name ≡ true → ⊥
    hit e = ground arith

find_tool-append :
    (name new : Text) (tool : StoredTool) (registry : ToolRegistry)
    → IsFresh new registry
    → find_tool name (registry ++ (new, tool) ∷ [])
      ≡ (if text_eq new name then some tool else find_tool name registry)
unfolding find_tool
find_tool-append name new tool [] h = refl
find_tool-append name new tool ((key, t) ∷ registry) (h, hs) = ground (
  arith,
  find_tool-append name new tool registry hs,
  text_eq→eq new name,
  text_eq→eq key name,
  text_eq_refl new,
  text_eq_refl key,
)

HasDistinctNames-append :
    (new : Text) (tool : StoredTool) (registry : ToolRegistry)
    → IsFresh new registry
    → HasDistinctNames registry
    → HasDistinctNames (registry ++ (new, tool) ∷ [])
HasDistinctNames-append new tool [] f d = (tt, tt)
HasDistinctNames-append new tool ((key, t) ∷ registry) (f, fs) (g, d) =
    (All-append _ registry _ g (flip f, tt), HasDistinctNames-append new tool registry fs d)
  where
    flip : text_eq key new ≡ false → text_eq new key ≡ false
    flip h = ground (arith, text_eq→eq new key, text_eq_refl key)

missing_is_error : (name : Text) (names : List Text) → (missing_tool name names).is_error ≡ true
unfolding missing_tool
missing_is_error name [] = refl
missing_is_error name (n ∷ names) = refl

module _ (compiles : Fields → Bool) (errors_of : Fields → Fields → List SchemaError) where
  -- A successful registration keeps the names distinct, finds the new tool under the name that its
  -- definition resolved to, and changes what no other name finds.
  pub register_lem :
      (now : ℕ) (registry after : ToolRegistry) (source : ToolDefinitionSource)
      (run : Fields → ToolContext → Executed) (name : Text)
      → HasDistinctNames registry
      → register compiles errors_of now registry source run ≡ ok after
      → HasDistinctNames after
        × (find_tool name after ≡ (
            if text_eq (resolve_definition now source).name name
            then some (record { definition_source = source; execute = run })
            else find_tool name registry))
  unfolding register
  register_lem now registry after source run name d e =
      let new = (resolve_definition now source).name in
      elim (Bool-cases (has_tool registry new)) [
        | inl h ↦ ground arith
        | inr h ↦
            let fresh = has_tool-IsFresh new registry h in
            let same : after
                ≡ registry ++ (new, record { definition_source = source; execute = run }) ∷ [] =
              ground arith in
            rw same (
              HasDistinctNames-append new _ registry fresh d,
              find_tool-append name new _ registry fresh,
            )
      ]

  -- A name that is taken is refused, whatever the new definition and its schema.
  pub register_duplicate :
      (now : ℕ) (registry : ToolRegistry) (source : ToolDefinitionSource)
      (run : Fields → ToolContext → Executed) (tool : StoredTool)
      → find_tool (resolve_definition now source).name registry ≡ some tool
      → register compiles errors_of now registry source run
        ≡ threw (other_error (text "Duplicate tool name: " ++ (resolve_definition now source).name))
  unfolding register
  register_duplicate now registry source run tool e = rw (taken, register)
    where
      taken : has_tool registry (resolve_definition now source).name ≡ true
      taken = unfold has_tool in rw (e, has_tool)

  -- Where the answer of a call that succeeded came from: the executor registered under that name,
  -- run on an input that its schema accepts.
  pub record CameFrom (registry : ToolRegistry) (now : ℕ) (name : Text) (input : Fields)
      (context : ToolContext) (r : ToolResponse) : Type 0 where
    pub tool : StoredTool
    pub found : find_tool name registry ≡ some tool
    pub accepted : errors_of (resolve_definition now tool.definition_source).input_schema input ≡ []
    pub answer : normalize_tool_response (tool.execute input context) ≡ some r

  run_tool-CameFrom :
      (registry : ToolRegistry) (now : ℕ) (name : Text) (input : Fields) (context : ToolContext)
      (tool : StoredTool) (r : ToolResponse)
      → find_tool name registry ≡ some tool
      → run_tool compiles errors_of name tool now input context ≡ ok r
      → r.is_error ≡ false
      → CameFrom registry now name input context r
  unfolding run_tool
  run_tool-CameFrom registry now name input context tool r found e fine =
      elim (List-cases
        (errors_of (resolve_definition now tool.definition_source).input_schema input)) [
          | inl clean ↦ elim (Option-cases (normalize_tool_response (tool.execute input context))) [
            | inl n ↦ absurd (failed clean n)
            | inr (s, a) ↦ record {
              tool = tool;
              found = found;
              accepted = clean;
              answer = a ∙ ap some (answers clean s a);
            }
          ]
          | inr (x, xs, dirty) ↦ absurd (refused x xs dirty)
        ]
    where
      schema : Fields
      schema = (resolve_definition now tool.definition_source).input_schema

      refused : (x : SchemaError) (xs : List SchemaError) → errors_of schema input ≡ x ∷ xs → ⊥
      refused x xs d = ground (arith, d)

      failed :
          errors_of schema input ≡ []
          → normalize_tool_response (tool.execute input context) ≡ none
          → ⊥
      failed c n = ground (arith, c, n)

      answers :
          errors_of schema input ≡ []
          → (s : ToolResponse) → normalize_tool_response (tool.execute input context) ≡ some s
          → s ≡ r
      answers c s a = ground (arith, c, a)

  -- A response that is no error is the registered executor's own, on an input that its schema
  -- accepts: an unknown tool, an invalid input and a throwing executor are all answered as errors.
  pub execute-CameFrom :
      (registry : ToolRegistry) (now : ℕ) (name : Text) (input : Fields) (context : ToolContext)
      (r : ToolResponse)
      → execute compiles errors_of registry now name (object input) context ≡ ok r
      → r.is_error ≡ false
      → CameFrom registry now name input context r
  unfolding execute
  execute-CameFrom registry now name input context r e fine =
      elim (Option-cases (find_tool name registry)) [
        | inl n ↦ absurd (unknown n)
        | inr (tool, f) ↦
            run_tool-CameFrom registry now name input context tool r f (rw (f, execute) at e) fine
      ]
    where
      unknown : find_tool name registry ≡ none → ⊥
      unknown n = ground (arith, n, missing_is_error name (map (λ t. t.0) registry))

  -- Every call on an object is answered, if every schema compiles: the promise resolves, whatever
  -- the name, the input and the executor.
  pub execute_total :
      ((schema : Fields) → compiles schema ≡ true)
      → (registry : ToolRegistry) (now : ℕ) (name : Text) (input : Fields) (context : ToolContext)
      → (r : ToolResponse) × (execute compiles errors_of registry now name (object input) context
          ≡ ok r)
  unfolding execute run_tool
  execute_total c registry now name input context = elim (Option-cases (find_tool name registry)) [
    | inl n ↦ (missing_tool name (map (λ t. t.0) registry), rw (n, execute))
    | inr (tool, f) ↦ let (r, e) = total_run tool in (r, rw (f, execute) e)
  ]
    where
      total_run :
          (tool : StoredTool)
          → (r : ToolResponse) × (run_tool compiles errors_of name tool now input context ≡ ok r)
      total_run tool =
          let schema = (resolve_definition now tool.definition_source).input_schema in
          elim (List-cases (errors_of schema input)) [
            | inl e ↦ (
              Option.get_or (normalize_tool_response (tool.execute input context)) (crashed name),
              rw (c schema, e, run_tool),
            )
            | inr (x, xs, e) ↦ (invalid_input name (x ∷ xs), rw (c schema, e, run_tool))
          ]
