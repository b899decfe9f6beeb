-- ===== src/Telegram/MoveTarget/Usable.antt =====
-- Which chats the gate of src/telegram/moveTarget.ts lets an alias move to.
use text.Mathlib.TextEquality.{eq_iff}
use mathlib.Core.Bool.{false≢true}
use email_to_telegram.Base.{
  ℕ, ℤ, pos, eq_ℤ→eq, eq_ℤ_refl, Bool, true, false, Option, none, some, ◌≡◌, ◌≢◌, refl, sym, ap,
  ◌∙◌, ◌⊎◌, ◌↔◌, inl, inr, arith, str_eq, Bool-cases, if◌then◌else◌,
}
use email_to_telegram.Telegram.MoveTarget.{
  MoveTargetChatType, private_chat, group, supergroup, channel, MoveTargetResult, allowed, denied,
  MoveTargetProbe, ChatMember, is_set, is_id, is_chat, in_channel, in_group, in_private, as_member,
  is_private, is_manager, probe_failed, actor_not_admin, can_bot_send_to_chat,
  can_actor_use_move_target,
}

-- The chat is the actor's own with the bot, and the button was pressed in it.
pub record IsOwnDm (p : MoveTargetProbe) : Type 0 where
  pub user : ℕ
  pub actor : p.actor_id ≡ some user
  pub own : p.chat_id ≡ pos user
  pub here : p.interaction_chat_id ≡ some p.chat_id

abbrev pub Manages : ChatMember → Type 0
Manages m = (m.status ≡ "creator") ⊎ (m.status ≡ "administrator")

-- Telegram lets the bot post in a channel as an administrator with that right, and in a group as an
-- administrator, a member, or a restricted member that is in it and may send.
abbrev pub MayPost : MoveTargetChatType → ChatMember → Type 0
MayPost channel m = (m.status ≡ "administrator") × (m.can_post_messages ≡ some true)
MayPost _ m =
    (m.status ≡ "administrator")
    ⊎ ((m.status ≡ "member")
        ⊎ ((m.status ≡ "restricted")
            × (m.is_member ≡ some true)
            × (m.can_send_messages ≡ some true)))

set-eq : (o : Option Bool) → is_set o ≡ true → o ≡ some true
set-eq none h = cc
set-eq (some true) h = refl
set-eq (some false) h = cc

id-eq :
    (chat : ℤ) (o : Option ℕ)
    → is_id chat o ≡ true
    → (user : ℕ) × (o ≡ some user) × (chat ≡ pos user)
id-eq chat none h = absurd (false≢true h)
id-eq chat (some user) h = (user, refl, eq_ℤ→eq chat (pos user) h)

chat-eq : (chat : ℤ) (o : Option ℤ) → is_chat chat o ≡ true → o ≡ some chat
chat-eq chat none h = absurd (false≢true h)
chat-eq chat (some c) h = ap some (eq_ℤ→eq c chat h)

own-IsOwnDm : (p : MoveTargetProbe) → in_private p ≡ allowed → IsOwnDm p
own-IsOwnDm p h =
    let (user, actor, own) = id-eq p.chat_id p.actor_id (ground (arith, h)) in
    record {
      user = user;
      actor = actor;
      own = own;
      here = chat-eq p.chat_id p.interaction_chat_id (ground (arith, h));
    }

IsOwnDm-own : (p : MoveTargetProbe) → IsOwnDm p → in_private p ≡ allowed
IsOwnDm-own p h =
    let own : is_id p.chat_id p.actor_id ≡ true = rw (h.actor, h.own) (eq_ℤ_refl (pos h.user)) in
    let here : is_chat p.chat_id p.interaction_chat_id ≡ true = rw h.here (eq_ℤ_refl p.chat_id) in
    ground (arith, own, here)

channel-MayPost : (m : ChatMember) → in_channel m ≡ allowed → MayPost channel m
channel-MayPost m h = (
  (eq_iff m.status "administrator").0 (ground (arith, h)),
  set-eq m.can_post_messages (ground (arith, h)),
)

MayPost-channel : (m : ChatMember) → MayPost channel m → in_channel m ≡ allowed
MayPost-channel m h = rw ((eq_iff m.status "administrator").1 h.0, h.1) refl

group-MayPost : (m : ChatMember) → in_group m ≡ allowed → MayPost group m
group-MayPost m h = elim (Bool-cases (str_eq m.status "administrator")) [
  | inl a ↦ inl ((eq_iff _ _).0 a)
  | inr not_a ↦ elim (Bool-cases (str_eq m.status "member")) [
    | inl b ↦ inr (inl ((eq_iff _ _).0 b))
    | inr not_b ↦ inr (
        inr (
          (eq_iff m.status "restricted").0 (ground (arith, h, not_a, not_b)),
          set-eq m.is_member (ground (arith, h, not_a, not_b)),
          set-eq m.can_send_messages (ground (arith, h, not_a, not_b)),
        ))
  ]
]

MayPost-group : (m : ChatMember) → MayPost group m → in_group m ≡ allowed
MayPost-group m (inl e) = rw e refl
MayPost-group m (inr (inl e)) = rw e refl
MayPost-group m (inr (inr (e, i, s))) = rw (e, i, s) refl

member-MayPost : (t : MoveTargetChatType) (m : ChatMember) → (as_member t m ≡ allowed) ↔ MayPost t m
member-MayPost channel m = (channel-MayPost m, MayPost-channel m)
member-MayPost group m = (group-MayPost m, MayPost-group m)
member-MayPost supergroup m = (group-MayPost m, MayPost-group m)
member-MayPost private_chat m = (group-MayPost m, MayPost-group m)

manager_iff : (m : ChatMember) → (is_manager m ≡ true) ↔ Manages m
manager_iff m = (
  λ h. elim (Bool-cases (str_eq "creator" m.status)) [
    | inl c ↦ inl (sym ((eq_iff _ _).0 c))
    | inr other ↦ inr (sym ((eq_iff "administrator" m.status).0 (ground (arith, h, other))))
  ],
  λ h. elim h [ inl e ↦ rw e refl | inr e ↦ rw e refl ],
)

-- The actor's answer is there and says that they manage the chat.
abbrev pub IsManaged : Option ChatMember → Type 0
IsManaged actor = (m : ChatMember) × (actor ≡ some m) × Manages m

abbrev pub IsWritable : MoveTargetChatType → Option ChatMember → Type 0
IsWritable t bot = (m : ChatMember) × (bot ≡ some m) × MayPost t m

-- What a move to another chat than the actor's own asks for.
abbrev pub IsOpen : MoveTargetProbe → Option ChatMember → Bool → Option ChatMember → Type 0
IsOpen p actor knows_itself bot =
    IsManaged actor × (knows_itself ≡ true) × IsWritable p.chat_type bot

private-eq : (t : MoveTargetChatType) → is_private t ≡ true → t ≡ private_chat
private-eq t h = ground (arith, h)

private-ne : (t : MoveTargetChatType) → is_private t ≡ false → t ≢ private_chat
private-ne t h e = let s = rw e at h in cc

some-eq : {a b : MoveTargetResult} → some a ≡ some b → a ≡ b
some-eq h = ground (arith, h)

-- The last probe of the gate, of the bot.
abbrev probed : MoveTargetChatType → Bool → Option ChatMember → Option MoveTargetResult
probed t knows_itself bot =
    if knows_itself
    then some (elim bot [ none ↦ denied probe_failed | some m ↦ as_member t m ])
    else none

probed-IsWritable :
    (t : MoveTargetChatType) (knows_itself : Bool) (bot : Option ChatMember)
    → probed t knows_itself bot ≡ some allowed
    → (knows_itself ≡ true) × IsWritable t bot
probed-IsWritable t true none h = let e = some-eq h in cc
probed-IsWritable t true (some m) h = (refl, (m, refl, (member-MayPost t m).0 (some-eq h)))
probed-IsWritable t false bot h = cc

probed-none :
    (t : MoveTargetChatType) (knows_itself : Bool) (bot : Option ChatMember)
    → (probed t knows_itself bot ≡ none) ↔ (knows_itself ≡ false)
probed-none t true bot = (λ h. cc, λ h. cc)
probed-none t false bot = (λ h. refl, λ h. refl)

module _ (p : MoveTargetProbe) (knows_itself : Bool) (bot : Option ChatMember) where
  gate-private :
      (actor : Option ChatMember)
      → is_private p.chat_type ≡ true
      → can_actor_use_move_target p actor knows_itself bot ≡ some (in_private p)
  unfolding can_actor_use_move_target can_bot_send_to_chat
  gate-private actor own = rw own refl

  module _ (shared : is_private p.chat_type ≡ false) where
    gate-managed :
        (m : ChatMember)
        → is_manager m ≡ true
        → can_actor_use_move_target p (some m) knows_itself bot
          ≡ probed p.chat_type knows_itself bot
    unfolding can_actor_use_move_target can_bot_send_to_chat
    gate-managed m e = rw (shared, e) refl

    gate-refused :
        (m : ChatMember)
        → is_manager m ≡ false
        → can_actor_use_move_target p (some m) knows_itself bot ≡ some (denied actor_not_admin)
    unfolding can_actor_use_move_target can_bot_send_to_chat
    gate-refused m e = rw (shared, e) refl

    gate-unanswered : can_actor_use_move_target p none knows_itself bot ≡ some (denied probe_failed)
    unfolding can_actor_use_move_target can_bot_send_to_chat
    gate-unanswered = rw shared refl

    allowed-IsOpen :
        (actor : Option ChatMember)
        → can_actor_use_move_target p actor knows_itself bot ≡ some allowed
        → IsOpen p actor knows_itself bot
    allowed-IsOpen none h = let e = some-eq (sym gate-unanswered ∙ h) in cc
    allowed-IsOpen (some m) h = elim (Bool-cases (is_manager m)) [
      | inl e ↦
          let (knows, writable) =
            probed-IsWritable p.chat_type knows_itself bot (sym (gate-managed m e) ∙ h) in
          ((m, refl, (manager_iff m).0 e), knows, writable)
      | inr e ↦ let t = some-eq (sym (gate-refused m e) ∙ h) in cc
    ]

    IsOpen-allowed :
        (actor : Option ChatMember)
        → IsOpen p actor knows_itself bot
        → can_actor_use_move_target p actor knows_itself bot ≡ some allowed
    IsOpen-allowed actor ((m, here, manages), knows, (b, answered, may)) = rw here (
        gate-managed m ((manager_iff m).1 manages)
        ∙ rw (knows, answered) (ap some ((member-MayPost p.chat_type b).1 may)))

    thrown_iff :
        (actor : Option ChatMember)
        → (can_actor_use_move_target p actor knows_itself bot ≡ none)
          ↔ (IsManaged actor × (knows_itself ≡ false))
    thrown_iff none =
        (λ h. let e = sym gate-unanswered ∙ h in cc, λ (managed, unknown). let e = managed.1 in cc)
    thrown_iff (some m) = elim (Bool-cases (is_manager m)) [
      | inl e ↦ (
        λ h. (
          (m, refl, (manager_iff m).0 e),
          (probed-none p.chat_type knows_itself bot).0 (sym (gate-managed m e) ∙ h),
        ),
        λ (managed, unknown).
            gate-managed m e ∙ (probed-none p.chat_type knows_itself bot).1 unknown,
      )
      | inr e ↦ (
        λ h. let t = sym (gate-refused m e) ∙ h in cc,
        λ ((a, here, manages), unknown).
            let same : m ≡ a = ground (arith, here) in
            absurd (false≢true (sym e ∙ rw same ((manager_iff a).1 manages))),
      )
    ]

-- The gate lets a move through exactly to the actor's own chat with the bot, where the button was
-- pressed in it, or to a chat that is not private, which Telegram says the actor created or
-- administers, and where the bot, which knows itself, may post by its own membership. It throws
-- exactly where the chat is not private, the actor manages it, and the bot could not ask who it is;
-- in every other case it denies, a membership that Telegram did not tell included.
pub can_actor_use_move_target_iff :
    (p : MoveTargetProbe) (actor : Option ChatMember) (knows_itself : Bool)
    (bot : Option ChatMember)
    → let answer = can_actor_use_move_target p actor knows_itself bot in
      ((answer ≡ some allowed) ↔ (
        ((p.chat_type ≡ private_chat) × IsOwnDm p)
        ⊎ ((p.chat_type ≢ private_chat) × IsOpen p actor knows_itself bot)))
      × ((answer ≡ none)
          ↔ ((p.chat_type ≢ private_chat) × IsManaged actor × (knows_itself ≡ false)))
can_actor_use_move_target_iff p actor knows bot = elim (Bool-cases (is_private p.chat_type)) [
  | inl own ↦
      let here = private-eq p.chat_type own in
      let same = gate-private p knows bot actor own in
      (
        (
          λ h. inl (here, own-IsOwnDm p (some-eq (sym same ∙ h))),
          λ h. elim h [ inl d ↦ same ∙ ap some (IsOwnDm-own p d.1) | inr o ↦ absurd (o.0 here) ],
        ),
        (λ h. let t = sym same ∙ h in cc, λ h. absurd (h.0 here)),
      )
  | inr shared ↦
      let apart = private-ne p.chat_type shared in
      let thrown = thrown_iff p knows bot shared actor in
      (
        (
          λ h. inr (apart, allowed-IsOpen p knows bot shared actor h),
          λ h. elim h [
            | inl d ↦ absurd (apart d.0)
            | inr o ↦ IsOpen-allowed p knows bot shared actor o.1
          ],
        ),
        (
          λ h. let (managed, unknown) = thrown.0 h in (apart, managed, unknown),
          λ (other, managed, unknown). thrown.1 (managed, unknown),
        ),
      )
]
