-- ===== src/Session.antt =====
-- types/session.ts and types/entryPolicy.ts: a chat session and its entries. A flag of type
-- `true | undefined` is a Boolean. `other` holds an entry of a role outside the four that the engine
-- knows, which a tool can store.
use halengine.Prelude.{Text, text_eq, Bool, true, false, Option, List, Number, Fields}

pub record UserEntry : Type 0 where
  pub content : Text
  pub timestamp : Text
  pub cleared : Bool

pub record AssistantEntry : Type 0 where
  pub content : Text
  pub timestamp : Text
  pub is_streaming : Bool
  pub cleared : Bool
  pub truncated : Bool
  pub suppressed : Bool
  pub persona : Option Text

pub record ThinkingEntry : Type 0 where
  pub content : Text
  pub timestamp : Option Text
  pub is_streaming : Bool
  pub cleared : Bool
  pub truncated : Bool
  pub suppressed : Bool

pub record ToolEntry : Type 0 where
  pub tool_name : Text
  pub tool_input : Fields
  pub timestamp : Text
  pub cleared : Bool

-- `content` is there only if the entry has a `content` that is a string; `fields` is all else.
pub record OtherEntry : Type 0 where
  pub role : Text
  pub timestamp : Option Text
  pub content : Option Text
  pub cleared : Bool
  pub fields : Fields

pub data SessionEntry : Type 0 where
  user : UserEntry → SessionEntry
  assistant : AssistantEntry → SessionEntry
  thinking : ThinkingEntry → SessionEntry
  tool : ToolEntry → SessionEntry
  other : OtherEntry → SessionEntry

-- entry.role
pub data Role : Type 0 where
  user_role assistant_role thinking_role tool_role : Role
  other_role : Text → Role

abbrev pub role_of : SessionEntry → Role
role_of (user e) = user_role
role_of (assistant e) = assistant_role
role_of (thinking e) = thinking_role
role_of (tool e) = tool_role
role_of (other e) = other_role e.role

abbrev pub role_eq : Role → Role → Bool
role_eq user_role user_role = true
role_eq assistant_role assistant_role = true
role_eq thinking_role thinking_role = true
role_eq tool_role tool_role = true
role_eq (other_role r) (other_role s) = text_eq r s
role_eq _ _ = false

-- entry.cleared
abbrev pub is_cleared : SessionEntry → Bool
is_cleared (user e) = e.cleared
is_cleared (assistant e) = e.cleared
is_cleared (thinking e) = e.cleared
is_cleared (tool e) = e.cleared
is_cleared (other e) = e.cleared

-- A user id: a string or a number (a finite one, once `isScalarUserId` has passed it).
pub data UserId : Type 0 where
  named : Text → UserId
  numbered : Number → UserId

pub record AuthHeaders : Type 0 where
  pub cookie : Option Text
  pub authorization : Option Text
  pub host : Option Text

pub record AuthenticatedUser : Type 0 where
  pub id : UserId
  pub claims : Fields

pub record ChatSession : Type 0 where
  pub session_id : Text
  pub user_id : UserId
  pub entries : List SessionEntry
  pub auth_headers : Option AuthHeaders
  pub workspace_id : Option UserId
  pub active_persona : Option Text
  pub created_at : Option Text
  pub user : Option AuthenticatedUser

-- What a consumer's `redactEntry` does with an entry: `none` when it throws or answers no object.
abbrev pub Redactor : Type 0
Redactor = SessionEntry → Option SessionEntry

pub record EntryPolicy : Type 0 where
  pub max_content_entries : Option Number
  pub redact_entry : Option Redactor
