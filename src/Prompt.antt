-- ===== src/Prompt.antt =====
-- infrastructure/builders/promptBuilder.ts: the system prompt. An absent option and an empty text are
-- both skipped.
use halengine.Prelude.{
  ℕ, ◌+◌, Text, text, decimal, Option, none, some, List, [], ◌∷◌, ◌++◌, length, if◌then◌else◌, ltb,
}
use mathlib.Core.Option
use halengine.Tools.{join}

pub record PromptBuilderConfig : Type 0 where
  pub identity : Text
  pub domain_context : Option Text
  pub response_guidelines : Option Text
  pub tool_preamble : Option Text

abbrev newline : Text
newline = 10 ∷ []

abbrev blank_line : Text
blank_line = 10 ∷ 10 ∷ []

abbrev pub default_tool_preamble : Text
default_tool_preamble = join newline (
    text
      "When users ask questions that relate to available tools, USE THE PROVIDED TOOLS to get accurate, real-time information."
    ∷ []
    ∷ text "IMPORTANT:"
    ∷ text "- Always use tools for specific data rather than guessing."
    ∷ text "- If a tool call fails, explain the error and offer alternatives."
    ∷ text "- Combine tool results with your knowledge to provide comprehensive answers."
    ∷ []
    ∷ text
        "CLARIFICATION RULE: If you are unsure which filter to apply or how to interpret the user's request, ASK the user for clarification BEFORE calling the tool."
    ∷ text "When a question is clear and maps directly to known filters, proceed without asking."
    ∷ [])

-- One optional part of the prompt, behind its heading.
unfoldable pub part : Text → Option Text → List Text
part heading none = []
part heading (some content) = if ltb 0 (length content) then (heading ++ content) ∷ [] else []

unfoldable pub numbered_from : ℕ → List Text → List Text
numbered_from i [] = []
numbered_from i (instruction ∷ rest) =
    (decimal (i + 1) ++ text ". " ++ instruction) ∷ numbered_from (i + 1) rest

unfoldable pub tool_part : Option Text → List Text → List Text
unfolding numbered_from join
tool_part preamble [] = []
tool_part preamble (i ∷ instructions) =
    (Option.get_or preamble default_tool_preamble
      ++ blank_line
      ++ join blank_line (numbered_from 0 (i ∷ instructions)))
    ∷ []

unfoldable pub build_prompt : PromptBuilderConfig → List Text → Option Text → Text
unfolding part tool_part join
build_prompt config tool_instructions additional_context = join blank_line (
    config.identity ∷ part [] config.domain_context
    ++ (tool_part config.tool_preamble tool_instructions
        ++ (part (text "Response Guidelines:" ++ newline) config.response_guidelines
            ++ part (text "Additional Context:" ++ newline) additional_context)))
