-- ===== src/Orchestrator/Process.antt =====
-- chatOrchestrator.ts: processMessageStream and processMessage.
use halengine.Prelude.{
  suc, Text, text_eq, Bool, true, false, Option, none, some, List, [], ◌∷◌, ◌++◌, length,
  if◌then◌else◌, ltb,
}
use halengine.Session.{ChatSession, SessionEntry, user}
use halengine.Entries.{close_turn}
use halengine.Context.{to_messages}
use halengine.Ai.{MessageChunk, text_chunk, ToolDefinition, Thrown}
use halengine.Tools.{get_definitions, prompt_instructions_of}
use halengine.Prompt.{build_prompt}
use halengine.Orchestrator.{Engine, is_aborted, in_catch}
use halengine.Orchestrator.Turn.{
  Turn, Outcome, done, abandoned, threw, unfinished, Run, raise, ◌>>=◌, ◌>>◌, settle, call_hook,
}
use halengine.Orchestrator.Loop.{Gathered, tool_loop}

abbrev pub user_content : SessionEntry → Option Text
user_content (user e) = some e.content
user_content _ = none

-- The last user entry's content, of entries that come newest last; the empty text if there is none.
unfoldable pub last_user_content : List SessionEntry → Option Text
last_user_content [] = none
last_user_content (e ∷ entries) = elim (last_user_content entries) [
  | some found ↦ some found
  | none ↦ user_content e
]

-- updateLastUserContent
abbrev pub has_user : List SessionEntry → Bool
has_user [] = false
has_user (user e ∷ entries) = true
has_user (_ ∷ entries) = has_user entries

abbrev pub with_user_content : Text → SessionEntry → SessionEntry
with_user_content content (user e) = user (record e { content = content })
with_user_content content e = e

unfoldable pub update_last_user_content : Text → List SessionEntry → List SessionEntry
update_last_user_content content [] = []
update_last_user_content content (e ∷ entries) =
    if has_user entries
    then e ∷ update_last_user_content content entries
    else with_user_content content e ∷ entries

-- rewriteUserMessage, behind the test that the hook is set.
unfoldable pub rewrite_user_message : Engine → Text → Run Text
unfolding update_last_user_content
rewrite_user_message engine user_message t = elim engine.hooks.before_user_input [
  | none ↦ (done user_message, t)
  | some hook ↦
      (settle (hook t.session user_message) >>= λ modified t'.
      if text_eq modified user_message then (done user_message, t') else (
        done modified,
        record t' {
          session = record t'.session {
            entries = update_last_user_content modified t'.session.entries;
          };
        },
      ))
        t
]

unfoldable pub definitions_of : Engine → List ToolDefinition
definitions_of engine = elim engine.registry [
  | none ↦ []
  | some registry ↦ get_definitions engine.now registry
]

-- turnTools: the prompt and the tools of one turn, from one read of the registry.
unfoldable pub turn_tools : Engine → Text × Option (List ToolDefinition)
unfolding definitions_of
turn_tools engine =
    let definitions = definitions_of engine in
    (
      build_prompt engine.prompt (prompt_instructions_of definitions) engine.additional_context,
      if ltb 0 (length definitions) then some definitions else none,
    )

unfoldable pub before_model : Engine → Text → Run Text
before_model engine base_prompt t = elim engine.hooks.before_model_response [
  | none ↦ (done base_prompt, t)
  | some hook ↦ settle (hook t.session base_prompt) t
]

unfoldable pub after_user : Engine → Text → Run (Unit {0})
after_user engine user_message t = elim engine.hooks.after_user_input [
  | none ↦ (done tt, t)
  | some hook ↦ settle (hook t.session user_message) t
]

unfoldable pub after_model : Engine → Gathered → Run (Unit {0})
after_model engine g t = elim engine.hooks.after_model_response [
  | none ↦ (done tt, t)
  | some hook ↦ settle (hook t.session g.response_text g.total_usage) t
]

-- What the loop starts from: the window on the conversation, read after the hooks before it.
unfoldable pub start_loop : Engine → Text → Option (List ToolDefinition) → Run Gathered
start_loop engine system_prompt tools t =
    tool_loop engine system_prompt tools (suc engine.max_tool_rounds) 0
      (record {
        messages = to_messages engine.json_length t.session.entries engine.context_config;
        response_text = [];
        total_usage = none;
      })
      t

abbrev pub content_or_empty : Option Text → Text
content_or_empty none = []
content_or_empty (some content) = content

unfoldable pub start_input : Engine → Run Text
unfolding last_user_content rewrite_user_message
start_input engine t =
    rewrite_user_message engine (content_or_empty (last_user_content t.session.entries)) t

-- The `try` block.
unfoldable pub try_turn : Engine → Run (Unit {0})
unfolding start_input after_user turn_tools before_model start_loop after_model
try_turn engine = do
  call_hook engine.hooks.before_session
  user_message ← start_input engine
  after_user engine user_message
  system_prompt ← before_model engine (turn_tools engine).0
  g ← start_loop engine system_prompt (turn_tools engine).1
  after_model engine g

unfoldable pub report_error : Engine → Thrown → Run (Unit {0})
report_error engine e t = elim engine.hooks.on_error [
  | none ↦ (done tt, t)
  | some hook ↦ settle (hook t.session e) t
]

-- The `catch` block: an abandoned turn ends without an error; any other throw is reported and goes on.
unfoldable pub catch_turn : Engine → Outcome (Unit {0}) → Run (Unit {0})
unfolding report_error is_aborted
catch_turn engine (done x) t = (done tt, t)
catch_turn engine abandoned t = (abandoned, t)
catch_turn engine unfinished t = (unfinished, t)
catch_turn engine (threw e) t =
    if is_aborted engine in_catch then (abandoned, t) else (report_error engine e >> raise e) t

-- What a `finally` block leaves: its own throw if it throws, else what came before.
abbrev pub after_finally : Outcome (Unit {0}) → Outcome (Unit {0}) → Outcome (Unit {0})
after_finally before (done x) = before
after_finally before (threw e) = threw e
after_finally before abandoned = abandoned
after_finally before unfinished = unfinished

-- saveSession: what the store's `save` throws is swallowed.
unfoldable pub save_session : Engine → Turn → Turn
save_session engine t = if engine.saves then record t { saved = t.saved ++ t.session ∷ [] } else t

-- The `finally` block: the entries are closed, then the hook, and the session is saved whatever the
-- hook does.
unfoldable pub end_turn : Engine → Outcome (Unit {0}) → Run (Unit {0})
unfolding save_session
end_turn engine before t =
    let closed = record t {
      session = record t.session { entries = close_turn engine.writer t.session.entries };
    } in
    let (after, t') = call_hook engine.hooks.after_session closed in
    (after_finally before after, save_session engine t')

unfoldable pub process_message_stream : Engine → Run (Unit {0})
unfolding try_turn catch_turn end_turn
process_message_stream engine t =
    let (tried, t') = try_turn engine t in
    let (caught, t'') = catch_turn engine tried t' in end_turn engine caught t''

-- collectText, and processMessage: the text of every text chunk; a throw of the stream goes on.
unfoldable pub collect_text : List MessageChunk → Text
collect_text [] = []
collect_text (text_chunk s ∷ chunks) = s ++ collect_text chunks
collect_text (_ ∷ chunks) = collect_text chunks

abbrev pub as_text : Outcome (Unit {0}) → List MessageChunk → Outcome Text
as_text (done x) chunks = done (collect_text chunks)
as_text abandoned chunks = done (collect_text chunks)
as_text (threw e) chunks = threw e
as_text unfinished chunks = unfinished

abbrev pub new_turn : ChatSession → Turn
new_turn session = record {
  session = session;
  yielded = [];
  provider_calls = 0;
  executed = [];
  saved = [];
}

unfoldable pub process_message : Engine → ChatSession → Outcome Text × Turn
unfolding process_message_stream collect_text
process_message engine session =
    let (ended, t) = process_message_stream engine (new_turn session) in
    (as_text ended t.yielded, t)
