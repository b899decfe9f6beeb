-- ===== src/Telegram/MoveTarget.antt =====
-- src/telegram/moveTarget.ts: whether an alias may be moved to a chat. What Telegram answers about the
-- actor and about the bot is an argument.
pub mod Usable
use email_to_telegram.Base.{
  ℕ, ℤ, pos, eq_ℤ, String, Bool, true, false, not, ◌&&◌, ◌||◌, Option, none, some, [], ◌∷◌, ◌≡◌,
  arith, any, str_eq, if◌then◌else◌,
}

pub data MoveTargetChatType : Type 0 where
  private_chat group supergroup channel : MoveTargetChatType

-- `MoveTargetDenial`, which has the reasons of `SendabilityDenial` in it.
pub data MoveTargetDenial : Type 0 where
  not_admin cannot_post not_member cannot_send foreign_dm dm_not_here probe_failed :
      MoveTargetDenial
  actor_not_admin : MoveTargetDenial

pub data MoveTargetResult : Type 0 where
  allowed : MoveTargetResult
  denied : MoveTargetDenial → MoveTargetResult

pub record MoveTargetProbe : Type 0 where
  pub chat_id : ℤ
  pub chat_type : MoveTargetChatType
  pub actor_id : Option ℕ
  pub interaction_chat_id : Option ℤ

pub record ChatMember : Type 0 where
  pub status : String
  pub can_post_messages : Option Bool
  pub can_send_messages : Option Bool
  pub is_member : Option Bool

-- `x === true` of a flag that may be missing.
abbrev pub is_set : Option Bool → Bool
is_set none = false
is_set (some b) = b

abbrev pub is_id : ℤ → Option ℕ → Bool
is_id chat none = false
is_id chat (some user) = eq_ℤ chat (pos user)

abbrev pub is_chat : ℤ → Option ℤ → Bool
is_chat chat none = false
is_chat chat (some c) = eq_ℤ c chat

abbrev pub in_channel : ChatMember → MoveTargetResult
in_channel m =
    if not (str_eq m.status "administrator")
    then denied not_admin
    else if is_set m.can_post_messages
    then allowed
    else denied cannot_post

abbrev pub in_group : ChatMember → MoveTargetResult
in_group m =
    if str_eq m.status "administrator" || str_eq m.status "member"
    then allowed
    else if str_eq m.status "restricted"
    then (if not (is_set m.is_member)
        then denied not_member
        else if is_set m.can_send_messages
        then allowed
        else denied cannot_send)
    else denied not_member

-- `canBotSendToChat` in a private chat.
abbrev pub in_private : MoveTargetProbe → MoveTargetResult
in_private p =
    if not (is_id p.chat_id p.actor_id)
    then denied foreign_dm
    else if is_chat p.chat_id p.interaction_chat_id
    then allowed
    else denied dm_not_here

abbrev pub as_member : MoveTargetChatType → ChatMember → MoveTargetResult
as_member channel m = in_channel m
as_member group m = in_group m
as_member supergroup m = in_group m
as_member private_chat m = in_group m

abbrev pub is_private : MoveTargetChatType → Bool
is_private private_chat = true
is_private group = false
is_private supergroup = false
is_private channel = false

-- The last two arguments are whether `getMe` answers, which throws where it does not, and `getMember`
-- of the bot, which is null where Telegram did not answer. `none` is the error thrown.
unfoldable pub can_bot_send_to_chat :
    MoveTargetProbe → Bool → Option ChatMember → Option MoveTargetResult
can_bot_send_to_chat p knows_itself bot =
    if is_private p.chat_type
    then some (in_private p)
    else if knows_itself
    then some (elim bot [ none ↦ denied probe_failed | some m ↦ as_member p.chat_type m ])
    else none

abbrev pub is_manager : ChatMember → Bool
is_manager m = any (λ s. str_eq s m.status) ("creator" ∷ "administrator" ∷ [])

abbrev pub of_actor :
    MoveTargetProbe → ChatMember → Bool → Option ChatMember → Option MoveTargetResult
of_actor p actor knows_itself bot =
    if not (is_manager actor)
    then some (denied actor_not_admin)
    else can_bot_send_to_chat p knows_itself bot

-- With `getMember` of the actor and of the bot.
unfoldable pub can_actor_use_move_target :
    MoveTargetProbe → Option ChatMember → Bool → Option ChatMember → Option MoveTargetResult
unfolding can_bot_send_to_chat
can_actor_use_move_target p actor knows_itself bot =
    if is_private p.chat_type
    then can_bot_send_to_chat p knows_itself bot
    else elim actor [ none ↦ some (denied probe_failed) | some m ↦ of_actor p m knows_itself bot ]
