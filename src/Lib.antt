-- ===== src/Lib.antt =====
-- HAL Engine: the chat engine's core, from a model's stream of text to the entries of a conversation.
--
-- A client talks to the engine over a WebSocket; a turn is one user message and all that the engine does
-- to answer it. The orchestrator sends the conversation's window to a provider, hands its chunks on,
-- runs the tools that the model asks for, and goes on until the model stops or the tool budget is
-- spent. The transport splits the text that it is handed into answer and thinking and writes both to
-- the session's entries, through one entry writer that applies the entry policy. Each part is a module:
--
--   Prelude       shared names: tests on native numbers, lists, Option, text as UTF-16 code units, JSON.
--   Thinking      src/infrastructure/parsers/thinkingTagParser.ts: push, flush, drain, emit and
--                 partialMatchLength, with the loop of drain on fuel. Reference and Scan give one scan
--                 of a whole text, with which Stream compares the parser.
--   Session       src/types/session.ts and entryPolicy.ts: entries, sessions, the policy.
--   Entries       src/orchestration/entryMutations.ts and entryFactories.ts: the five writes of the entry
--                 writer, closeTurn among them. Roles and Closing are their laws.
--   Messages, Ai  src/types/messages.ts and ai.ts: what the wire and the providers carry.
--   Context       src/orchestration/conversationContext.ts: toMessages and its window.
--   Tools         src/orchestration/tools/registry.ts: register, execute and the answers of a failed call.
--   Prompt        src/infrastructure/builders/promptBuilder.ts: build.
--   Orchestrator  src/orchestration/chatOrchestrator.ts and orchestratorHelpers.ts. Turn is the state of a
--                 turn and the monad of runs over it; Tooling is executeToolCalls with the deadline and
--                 the policy hook; Loop is the round loop; Process is processMessageStream, its catch
--                 and its finally. Counts, Rounds, Budget, Hooks and Ending count a turn; Answers, Spoken
--                 and Heard follow what it sends.
--   Providers     src/providers/withRetry.ts and withFallback.ts: one stream over several attempts, and over
--                 several providers. Retry and Fallback say what the stream is.
--   RateLimit     src/transport/rateLimit.ts: the token bucket. Pruning and Rate are its laws, Refill and Waiting the
--                 lemmas under them.
--   Handler       src/transport/ws/messageHandler.ts and sender.ts: how the chunks of a turn become entries and
--                 frames. Words replays the frames as a client does; Tracking, Suppression, Retraction and
--                 Hiding follow one entry through a turn; Valid, Total and Ends follow the
--                 indices that it writes at.
--   Lock          src/shared/perSessionLock.ts: a queue of callbacks per key, whose promises settle in any order.
--                 Order is its invariant, Liveness what becomes of every callback.
--   Frames        src/transport/ws/validation.ts: what a client's frame must be. Accepted is what passes, Roundtrip
--                 writes it back.
--   Preview       src/infrastructure/stores/sessionPreview.ts: labels. Cut is about code points, Tidy about white
--                 space, Label about both.
--   Stores        src/infrastructure/stores/inMemorySessionStore.ts (Memory) and sessionListWindow.ts. Order, Paging,
--                 Keys and Owned are their laws.
--   Listing       src/transport/ws/conversationList.ts: the answer to a list frame. Own is its law over the store.
--   Resume        src/transport/ws/sessionResume.ts: which session a connection rejoins (Owner) and what its client is
--                 shown of it (Replay).
--   Turns         src/transport/ws/messageHandler.ts around a turn, and src/transport/errorMapping.ts: queueing, refusal,
--                 errors and the end of a turn (Ending), and the limiter's bound on turns (Limits).
--   Connections   src/transport/ws/connectionHandler.ts: the sockets that are open on the sessions, each await a
--                 step. Lending is whose credentials a session carries, Alike and Closing what a step does to its
--                 own and to other sockets, Safety the invariant of the open sockets, Told and Hooks what the
--                 consumer hears.
--   Upgrade       src/transport/ws/connectionHandler.ts (createUpgradeHandler), helpers.ts, credential.ts and
--                 subprotocol.ts beside it, and src/transport/authHeaders.ts: from a request to a socket. Capture is
--                 what a socket keeps, Admission who is let in.
--
-- A run of a turn is a function of its state (session, chunks yielded, provider calls, tool rounds,
-- sessions saved) that is done, abandoned by a `return` on an aborted signal, or threw. What the code
-- leaves to others is a parameter, a field of Engine: what the provider yields at each call and whether
-- it then throws, the answer of each hook with the session as the hook leaves it, how the race of a call
-- against its deadline and its run's signal came out, what the abort signal says at each place where it
-- is read, the clock's texts, the length of a JSON text, and the text of a number. In Tools, Ajv is two
-- functions: whether a schema compiles, and the errors of an input under it.
--
-- Text is a list of UTF-16 code units, as in JavaScript, so lengths and slices are in code units. A
-- number of the options is a whole number, one strictly between two whole numbers, or not finite; no
-- property tells two fractions in one gap apart.
--
-- Fuel: the parser's loop takes the length of its buffer and one more, and each of its rounds but the
-- last removes a tag; the tool loop takes the rounds of its budget and one more, and each of its rounds
-- but the last spends one. The decimal digits of a number take the number and one more.
--
-- The rate limiter's fractions are kept exact, by counting tokens in milliseconds of the window; a double
-- rounds them, and a clock that runs backwards is left out.
--
-- The window of a conversation is a whole number of messages; maxMessages is not checked by the code, and a
-- fraction, a negative number or NaN is left out.
--
-- Not modelled: the logger and the log lines (no result reads them), a consumer that stops reading the
-- stream before its end (it is a `return` at a yield), tool definition sources that throw, a
-- call of a provider, a tool, a hook, a source or a policy that never settles, edits that a hook makes to a message it does not own, the frames and the pausing of a
-- handshake, the prompt mask, generateStructured of the retry and of the fallback, the HTTP routes and
-- their limiter, the prompt, usage and Mongo stores, and the parts of the repository that only move data
-- to a vendor's SDK or a driver.
pub mod Prelude
pub mod Thinking
pub mod Session
pub mod Entries
pub mod Messages
pub mod Ai
pub mod Context
pub mod Tools
pub mod Prompt
pub mod Orchestrator
pub mod Providers
pub mod RateLimit
pub mod Handler
pub mod Lock
pub mod Frames
pub mod Preview
pub mod Stores
pub mod Listing
pub mod Resume
pub mod Turns
pub mod Connections
pub mod Upgrade
