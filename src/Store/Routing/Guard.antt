-- ===== src/Store/Routing/Guard.antt =====
-- Confirmed mutations (src/db/repos/aliasRouting.ts) in sequence: what becomes of a row.
use email_to_telegram.Base.{
  ℕ, ◌≤◌, ◌<◌, ◌⊎◌, Bool, Option, List, [], ◌∷◌, ◌≡◌, refl, arith, inl, inr, find?, update_where,
  Bool-cases,
}
use email_to_telegram.Store.Rows.{Db, EmailAddress}
use email_to_telegram.Store.Routing.{
  cas_condition, moved, with_topic, entomb, Tombstone, MoveAliasParams, move_alias_with_cas,
  set_alias_topic_with_cas, soft_delete_alias_with_cas, RoutingMutationResult, cas_result,
  insert_alias_move_event,
}

-- A confirmed mutation, with the alias and the version that it was authorised against.
pub data RoutingOp : Type 0 where
  move : MoveAliasParams → RoutingOp
  topic : ℕ → ℕ → Option ℕ → RoutingOp
  delete : ℕ → ℕ → Tombstone → RoutingOp

abbrev pub op_alias : RoutingOp → ℕ
op_alias (move p) = p.alias_id
op_alias (topic id version thread) = id
op_alias (delete id version tombstone) = id

abbrev pub op_version : RoutingOp → ℕ
op_version (move p) = p.expected_version
op_version (topic id version thread) = version
op_version (delete id version tombstone) = version

unfoldable pub run_op : RoutingOp → Db → Db × RoutingMutationResult
run_op (move p) db = move_alias_with_cas p db
run_op (topic id version thread) db = set_alias_topic_with_cas id version thread db
run_op (delete id version tombstone) db = soft_delete_alias_with_cas id version tombstone db

-- What an operation does to the row that it hits.
abbrev pub op_change : RoutingOp → EmailAddress → EmailAddress
op_change (move p) = moved p.new_chat_id
op_change (topic id version thread) = with_topic thread
op_change (delete id version tombstone) = entomb tombstone

pub op-aliases :
    (op : RoutingOp) (db : Db)
    → (run_op op db).0.aliases
      ≡ update_where (cas_condition (op_alias op) (op_version op)) (op_change op) db.aliases
unfolding run_op move_alias_with_cas set_alias_topic_with_cas soft_delete_alias_with_cas
    insert_alias_move_event
op-aliases (move p) db = ground arith
op-aliases (topic id version thread) db = refl
op-aliases (delete id version tombstone) db = refl

pub op-result :
    (op : RoutingOp) (db : Db)
    → (run_op op db).1
      ≡ cas_result (find? (cas_condition (op_alias op) (op_version op)) db.aliases) (op_change op)
unfolding run_op move_alias_with_cas set_alias_topic_with_cas soft_delete_alias_with_cas
op-result (move p) db = ground arith
op-result (topic id version thread) db = refl
op-result (delete id version tombstone) db = refl

-- An alias later in its life: its version does not fall, and while the version stays so do the
-- chat and the topic.
pub record Grows (a b : EmailAddress) : Type 0 where
  pub same_id : b.id ≡ a.id
  pub later : a.routing_version ≤ b.routing_version
  pub same_route :
      (a.routing_version < b.routing_version)
      ⊎ ((b.chat_id ≡ a.chat_id) × (b.message_thread_id ≡ a.message_thread_id))

-- Row by row.
abbrev pub AllGrow : List EmailAddress → List EmailAddress → Type 0
AllGrow [] [] = Unit
AllGrow [] (b ∷ bs) = ⊥
AllGrow (a ∷ as') [] = ⊥
AllGrow (a ∷ as') (b ∷ bs) = Grows a b × AllGrow as' bs

Grows-refl : (a : EmailAddress) → Grows a a
Grows-refl a = ground arith

Grows-trans : (a b c : EmailAddress) → Grows a b → Grows b c → Grows a c
Grows-trans a b c g h = ground arith

AllGrow-trans : (as' bs cs : List EmailAddress) → AllGrow as' bs → AllGrow bs cs → AllGrow as' cs
AllGrow-trans [] [] cs g h = h
AllGrow-trans [] (b ∷ bs) cs g h = absurd g
AllGrow-trans (a ∷ as') [] cs g h = absurd g
AllGrow-trans (a ∷ as') (b ∷ bs) [] g h = absurd h
AllGrow-trans (a ∷ as') (b ∷ bs) (c ∷ cs) g h =
    (Grows-trans a b c g.0 h.0, AllGrow-trans as' bs cs g.1 h.1)

pub AllGrow-update :
    (p : EmailAddress → Bool) (f : EmailAddress → EmailAddress) (xs : List EmailAddress)
    → ((a : EmailAddress) → Grows a (f a))
    → AllGrow xs (update_where p f xs)
AllGrow-update p f [] g = tt
AllGrow-update p f (x ∷ xs) g = elim (Bool-cases (p x)) [
  | inl e ↦ rw e (g x, AllGrow-update p f xs g)
  | inr e ↦ rw e (Grows-refl x, AllGrow-update p f xs g)
]

op_change-Grows : (op : RoutingOp) (a : EmailAddress) → Grows a (op_change op a)
op_change-Grows (move p) a = ground arith
op_change-Grows (topic id version thread) a = ground arith
op_change-Grows (delete id version tombstone) a = ground arith

unfoldable pub run_ops : List RoutingOp → Db → Db
run_ops [] db = db
run_ops (op ∷ ops) db = run_ops ops (run_op op db).0

-- After any confirmed mutations, in any order, an alias that still has the version it had has the
-- chat and the topic it had: a route that went away and came back has another version.
pub run_ops-AllGrow : (ops : List RoutingOp) (db : Db) → AllGrow db.aliases (run_ops ops db).aliases
unfolding run_ops
run_ops-AllGrow [] db = AllGrow-refl db.aliases
  where
    AllGrow-refl : (xs : List EmailAddress) → AllGrow xs xs
    AllGrow-refl [] = tt
    AllGrow-refl (x ∷ xs) = (Grows-refl x, AllGrow-refl xs)
run_ops-AllGrow (op ∷ ops) db =
    AllGrow-trans db.aliases (run_op op db).0.aliases _
      (rw (op-aliases op db) (AllGrow-update _ (op_change op) db.aliases (op_change-Grows op)))
      (run_ops-AllGrow ops (run_op op db).0)
