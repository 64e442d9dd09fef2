-- ===== src/Moderation.antt =====
-- internal/moderation/chat.go: the interface of a chat filter, which the operator may supply.
use midnight_council.Base.{[], Option, some}
use midnight_council.Text.{GoString}

-- `custom` holds any other text.
pub data ChatAction : Type 0 where
  chat_allow chat_reject chat_replace : ChatAction
  custom : GoString → ChatAction

pub record ChatRequest : Type 0 where
  pub room_id : GoString
  pub player_id : GoString
  pub player_name : GoString
  pub message : GoString

pub record ChatDecision : Type 0 where
  pub action : ChatAction
  pub replacement : GoString
  pub reason : GoString

-- `ChatPolicy`, and `ChatPolicyFunc`, which is a function of this type; `none` is an error.
abbrev pub ChatPolicy : Type 0
ChatPolicy = ChatRequest → Option ChatDecision

-- `AllowAllChat`
unfoldable pub allow_all_chat : ChatPolicy
allow_all_chat request =
    some (record { action = ChatAction.chat_allow; replacement = []; reason = [] })
