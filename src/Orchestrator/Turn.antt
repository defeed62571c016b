-- ===== src/Orchestrator/Turn.antt =====
-- The state of a turn, and runs over it.
use halengine.Prelude.{ℕ, List, [], ◌∷◌, ◌++◌, Option, none, some}
use halengine.Session.{ChatSession}
use halengine.Ai.{MessageChunk, ToolCall, Thrown}
use halengine.Orchestrator.{Answer, answers, throws}

-- `yielded` is what the consumer has been given; `provider_calls`, `executed` and `saved` record
-- the calls of the provider, the tool rounds run, and the sessions handed to the store.
pub record Turn : Type 0 where
  pub session : ChatSession
  pub yielded : List MessageChunk
  pub provider_calls : ℕ
  pub executed : List (List ToolCall)
  pub saved : List ChatSession

-- `unfinished` is the loop out of fuel; no run of a turn ends so.
pub data Outcome {ℓ} (A : Type ℓ) : Type ℓ where
  done : A → Outcome A
  abandoned : Outcome A
  threw : Thrown → Outcome A
  unfinished : Outcome A

abbrev pub Run {ℓ} : Type ℓ → Type ℓ
Run A = Turn → Outcome A × Turn

abbrev pub pure {ℓ} : {A : Type ℓ} → A → Run A
pure a t = (done a, t)

abbrev pub abandon {ℓ} : {A : Type ℓ} → Run A
abandon t = (abandoned, t)

abbrev pub raise {ℓ} : {A : Type ℓ} → Thrown → Run A
raise e t = (threw e, t)

abbrev pub continue {ℓ κ} : {A : Type ℓ} {B : Type κ} → Outcome A → (A → Run B) → Run B
continue (done a) f t = f a t
continue abandoned f t = (abandoned, t)
continue (threw e) f t = (threw e, t)
continue unfinished f t = (unfinished, t)

infixl 5 ◌>>=◌ ◌>>◌
abbrev pub ◌>>=◌ {ℓ κ} : {A : Type ℓ} {B : Type κ} → Run A → (A → Run B) → Run B
◌>>=◌ m f t = continue (m t).0 f (m t).1

abbrev pub ◌>>◌ {ℓ κ} : {A : Type ℓ} {B : Type κ} → Run A → Run B → Run B
m >> k = m >>= λ _. k

abbrev pub yield : MessageChunk → Run (Unit {0})
yield chunk t = (done tt, record t { yielded = t.yielded ++ chunk ∷ [] })

-- A hook's answer, with the session as the hook leaves it.
abbrev pub settle : {A : Type 0} → Answer A → Run A
settle (answers a session) t = (done a, record t { session = session })
settle (throws e session) t = (threw e, record t { session = session })

-- A hook that may not be set.
abbrev pub call_hook : Option (ChatSession → Answer (Unit {0})) → Run (Unit {0})
call_hook none t = (done tt, t)
call_hook (some hook) t = settle (hook t.session) t
