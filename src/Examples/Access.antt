-- ===== src/Examples/Access.antt =====
-- The theorems on who may manage or recover an alias, the gate of a move and the notices.
use email_to_telegram.Base.{
  ◌≤◌, pos, ◌≡◌, ◌≢◌, ◌↔◌, ◌⊎◌, refl, true, false, none, some, List, [], ◌∷◌, any, count,
}
use email_to_telegram.Billing.Notices.{
  monthly_email_limit, NoticeCall, NoticeEvent, exhausted, approaching, notices, is_claim,
}
use email_to_telegram.Billing.Notices.Once.{is_notice, notices-once}
use email_to_telegram.Telegram.Authorization.{
  MemberCheck, MemberEvent, checked, chat_invalidated, can_manage_alias, can_manage_chat,
  members_after, invalidate_chat_authorization_cache,
}
use email_to_telegram.Telegram.Authorization.Recent.{MayManage, can_manage_alias-MayManage}
use email_to_telegram.Telegram.Errors.{plain}
use email_to_telegram.Telegram.OrphanProbe.{
  Probe, member, no_member, probed, invalidated, cache_after, probe_chat_reachability,
  can_recover_orphan_alias, invalidate_reachability_cache,
}
use email_to_telegram.Telegram.OrphanProbe.Recovery.{MayRecover, recover-MayRecover}
use email_to_telegram.Telegram.MoveTarget.{
  MoveTargetProbe, supergroup, private_chat, ChatMember, can_actor_use_move_target, allowed,
}
use email_to_telegram.Telegram.MoveTarget.Usable.{
  IsOwnDm, IsOpen, IsManaged, can_actor_use_move_target_iff,
}
use email_to_telegram.Store.Users.{find_alias_by_id}
use email_to_telegram.Examples.Data.{tables, lower_ops, old_group, new_group, default_plans}

-- The bot was removed from the group; half a minute later the network fails.
abbrev removed : Probe
removed = record {
  now = 1000;
  chat_id = old_group;
  fresh = true;
  knows_itself = true;
  answer = member "kicked";
}

abbrev offline : Probe
offline = record {
  now = 31000;
  chat_id = old_group;
  fresh = false;
  knows_itself = true;
  answer = no_member (plain "fetch failed");
}

recover-MayRecover_example :
    MayRecover lower_ops tables 7 1 offline (invalidated new_group ∷ probed removed ∷ [])
unfolding can_recover_orphan_alias probe_chat_reachability cache_after invalidate_reachability_cache
    find_alias_by_id
recover-MayRecover_example =
    recover-MayRecover lower_ops tables 7 1 offline (invalidated new_group ∷ probed removed ∷ [])
      refl

abbrev admin : ChatMember
admin = record {
  status = "administrator";
  can_post_messages = none;
  can_send_messages = none;
  is_member = none;
}

abbrev muted : ChatMember
muted = record admin {
  status = "restricted";
  is_member = some true;
  can_send_messages = some false;
}

abbrev target : MoveTargetProbe
target = record {
  chat_id = new_group;
  chat_type = supergroup;
  actor_id = some 7;
  interaction_chat_id = some (pos 7);
}

can_actor_use_move_target_iff_example :
    let answer = can_actor_use_move_target target (some admin) true (some muted) in
    ((answer ≡ some allowed) ↔ (
      ((target.chat_type ≡ private_chat) × IsOwnDm target)
      ⊎ ((target.chat_type ≢ private_chat) × IsOpen target (some admin) true (some muted))))
    × ((answer ≡ none)
        ↔ ((target.chat_type ≢ private_chat) × IsManaged (some admin) × (true ≡ false)))
can_actor_use_move_target_iff_example =
    can_actor_use_move_target_iff target (some admin) true (some muted)

abbrev at_quota : NoticeCall
at_quota = record {
  db = tables;
  now = 50;
  has_api = true;
  hosted = true;
  user_id = 7;
  month = "2026-11";
}

abbrev notice_events : List NoticeEvent
notice_events =
    approaching at_quota 170
    ∷ exhausted at_quota monthly_email_limit
    ∷ exhausted at_quota monthly_email_limit
    ∷ []

notices-once_example :
    (count (is_notice 7 monthly_email_limit "2026-11") (notices default_plans notice_events []) ≤ 1)
    × ((any (is_claim 7 monthly_email_limit "2026-11") [] ≡ false)
        ⊎ (count
              (is_notice 7 monthly_email_limit "2026-11")
              (notices default_plans notice_events [])
            ≡ 0))
notices-once_example = notices-once 7 monthly_email_limit "2026-11" default_plans notice_events []

-- The user is an administrator; a minute later Telegram fails and the cached answer serves.
abbrev as_admin : MemberCheck
as_admin = record {
  now = 1000;
  user_id = 7;
  chat_id = old_group;
  fresh = false;
  status = some "administrator";
}

abbrev unanswered : MemberCheck
unanswered = record as_admin { now = 61000; status = none }

abbrev member_events : List MemberEvent
member_events = chat_invalidated new_group ∷ checked as_admin ∷ []

can_manage_alias-MayManage_example : MayManage tables 1 unanswered member_events
unfolding can_manage_alias can_manage_chat members_after invalidate_chat_authorization_cache
    find_alias_by_id
can_manage_alias-MayManage_example =
    can_manage_alias-MayManage tables 1 unanswered member_events refl
