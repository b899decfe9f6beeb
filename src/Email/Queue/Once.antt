-- ===== src/Email/Queue/Once.antt =====
-- Duplicates and rejections in src/email/pipeline/queue.ts: what they look at and leave.
use mathlib.Core.Bool.{false≢true}
use text.Mathlib.TextEquality.{eq_iff}
use email_to_telegram.Base.{
  ◌≡◌, ◌≢◌, refl, ap, sym, ◌∙◌, String, Bool, true, false, Option, none, some, List, [], ◌∷◌, ◌++◌,
  arith, ℕ, ◌-◌, ◌*◌, leb, Bool-cases, inl, inr, find?, is_some, is_text, ◌&&◌, ◌==◌, ==_refl,
}
use email_to_telegram.Store.Rows.{Db, EmailAddress, DeliveryLog}
use email_to_telegram.Store.Logs.{
  create_delivery_log, count_recent_deliveries_by_alias, is_duplicate,
  find_delivery_log_by_message_id,
}
use email_to_telegram.Store.Usage.{increment_user_storage_usage, increment_user_usage_month}
use email_to_telegram.Email.AllowRules.{AllowEvaluation, allowed, denied}
use email_to_telegram.Store.Users.{is_active}
use email_to_telegram.Store.Usage.Laws.{delivered_in, delivered-increment_none}
use email_to_telegram.Billing.Limits.{
  subscription_inactive, LimitCode, LimitResult, within_limit, inactive, over_limit,
}
use email_to_telegram.Email.Inbound.{
  Decision, accepted, is_dup, over_rate, inbound_limit, PipelineInput, Env, queued, rejected,
  Rejection, QueuedEmail,
}
use email_to_telegram.Email.Queue.{
  refuse, is_quota_notification_reason, decide_limit, check_duplicate, check_rate, insert_log,
  queue_transaction, result_of, queue_allowed_inbound_email, decide_sender, queue_for, new_log,
  charge, queue_inbound_email,
}
use email_to_telegram.Email.Queue.Accepted.{IsAccepted, queue-inversion}

some_found :
    (p : DeliveryLog → Bool) (xs : List DeliveryLog) (x : DeliveryLog)
    → p x ≡ true
    → is_some (find? p (xs ++ x ∷ [])) ≡ true
some_found p [] x h = rw h
some_found p (y ∷ xs) x h = ground (arith, some_found p xs x h)

created-logs :
    (log : DeliveryLog) (db : Db)
    → (create_delivery_log log db).1 ≡ true
    → (create_delivery_log log db).0.delivery_logs ≡ db.delivery_logs ++ log ∷ []
unfolding create_delivery_log
created-logs log db h = ground arith

charge-logs :
    (env : Env) (input : PipelineInput) (alias : EmailAddress) (db : Db)
    → (charge env input alias db).delivery_logs ≡ db.delivery_logs
unfolding charge increment_user_storage_usage increment_user_usage_month
charge-logs env input alias db = refl

-- Acceptance adds the mail's log, and changes no other.
pub accepted-logs :
    {env : Env} {input : PipelineInput} {alias : EmailAddress} {db db' : Db} {log : DeliveryLog}
    {n : ℕ}
    → IsAccepted env input alias db db' log n
    → db'.delivery_logs ≡ db.delivery_logs ++ log ∷ []
accepted-logs {env} {input} {alias} {db} {log} a =
    ap (λ (d : Db). d.delivery_logs) a.after
    ∙ charge-logs env input alias _
    ∙ created-logs _ db a.inserted
    ∙ ap (λ l. db.delivery_logs ++ l ∷ []) (sym a.is_new)

seen :
    (db : Db) (alias : ℕ) (id : String) (body : Option String) (dedup : Bool)
    → id ≢ ""
    → is_some (find_delivery_log_by_message_id db id alias) ≡ true
    → is_duplicate db (some id) body alias dedup ≡ true
unfolding is_duplicate
seen db alias id body dedup nonempty h = ground (arith, eq_iff id "")

-- A message id that was queued for an alias is a duplicate there afterwards.
accepted-seen :
    (env : Env) (input : PipelineInput) (alias : EmailAddress) (db : Db) {db' : Db}
    {log : DeliveryLog} {n : ℕ} (id : String) (body : Option String) (dedup : Bool)
    → IsAccepted env input alias db db' log n
    → env.parsed.message_id ≡ some id
    → id ≢ ""
    → is_duplicate db' (some id) body alias.id dedup ≡ true
unfolding find_delivery_log_by_message_id
accepted-seen env input alias db {db'} {log} id body dedup a e nonempty =
    seen db' alias.id id body dedup nonempty (
      rw (accepted-logs a) (
        some_found (λ l. is_text l.message_id_header id && (l.email_address_id == alias.id))
          db.delivery_logs log (rw (a.is_new, e, (eq_iff id id).1 refl, ==_refl alias.id))))

-- Once a mail with a message id is queued for an alias, no mail with the same message id is queued
-- for that alias from the tables that it left, whatever else the second mail says.
pub queued-once :
    (env env' : Env) (input input' : PipelineInput) (db : Db) {db' db'' : Db}
    {job job' : QueuedEmail} {m m' : String} {n n' : ℕ} (id : String)
    → id ≢ ""
    → env.parsed.message_id ≡ some id
    → env'.parsed.message_id ≡ some id
    → queue_inbound_email env input db ≡ (db', queued job m n)
    → queue_inbound_email env' input' db' ≡ (db'', queued job' m' n')
    → job'.alias.id ≢ job.alias.id
queued-once env env' input input' db {db'} {job} {job'} id nonempty e e' h h' same =
    let first = (queue-inversion env input db h).passed in
    let second = (queue-inversion env' input' db' h').passed in
    let fresh : is_duplicate db' (some id) env'.parsed.body_sha256 job.alias.id
          job'.alias.body_dedup_enabled
        ≡ false =
      rw (e', same) at second.not_seen in
    let old =
      accepted-seen env input job.alias db id env'.parsed.body_sha256 job'.alias.body_dedup_enabled
        first e nonempty in
    false≢true (sym fresh ∙ old)

-- What a rejected mail leaves as it was: the logs, the storage, the counts of accepted mails.
pub record IsUncharged (db db' : Db) : Type 0 where
  pub logs : db'.delivery_logs ≡ db.delivery_logs
  pub storage : db'.storage_usage ≡ db.storage_usage
  pub counts :
      (user : ℕ) (month : String) → delivered_in db' user month ≡ delivered_in db user month

IsUncharged-refl : (db : Db) → IsUncharged db db
IsUncharged-refl db = record { logs = refl; storage = refl; counts = λ user month. refl }

-- The transaction accepts, or charges nothing.
abbrev Outcome : Db → Db × Decision → Type 0
Outcome db (db', accepted log n) = Unit
Outcome db (db', d) = IsUncharged db db'

count_rejected-IsUncharged :
    (user : ℕ) (month : String) (db : Db)
    → IsUncharged db (
        increment_user_usage_month user month
          (record { delivered = 0; rejected = 1; egress = 0 })
          db)
count_rejected-IsUncharged user month db = record {
  logs = unfold increment_user_usage_month in refl;
  storage = unfold increment_user_usage_month in refl;
  counts = λ user' month'. delivered-increment_none user month _ db user' month' refl;
}

module _ (env : Env) (input : PipelineInput) (alias : EmailAddress) (db : Db) where
  refuse-IsUncharged : (code : LimitCode) → Outcome db (refuse env input alias code db)
  unfolding refuse
  refuse-IsUncharged code = elim (Bool-cases (is_quota_notification_reason code)) [
    | inl e ↦ rw e (count_rejected-IsUncharged alias.created_by env.month db)
    | inr e ↦ rw e (IsUncharged-refl db)
  ]

  insert-IsUncharged : Outcome db (insert_log env input alias db)
  unfolding insert_log
  insert-IsUncharged = elim (Bool-cases (create_delivery_log (new_log env input alias) db).1) [
    | inl e ↦ rw e tt
    | inr e ↦ rw e (IsUncharged-refl db)
  ]

  rate-IsUncharged : (per_hour : ℕ) → Outcome db (check_rate env input alias per_hour db)
  unfolding check_rate
  rate-IsUncharged per_hour =
      elim (Bool-cases
        (leb per_hour (count_recent_deliveries_by_alias db alias.id (env.now - 60 * 60 * 1000)))) [
          | inl e ↦ rw e (IsUncharged-refl db)
          | inr e ↦ rw e insert-IsUncharged
        ]

  duplicate-IsUncharged : (per_hour : ℕ) → Outcome db (check_duplicate env input alias per_hour db)
  unfolding check_duplicate
  duplicate-IsUncharged per_hour =
      elim (Bool-cases (
        is_duplicate db env.parsed.message_id env.parsed.body_sha256 alias.id
          alias.body_dedup_enabled)) [
            | inl e ↦ rw e (IsUncharged-refl db)
            | inr e ↦ rw e (rate-IsUncharged per_hour)
          ]

  limit-IsUncharged :
      (per_hour : ℕ) (r : LimitResult) → Outcome db (decide_limit env input alias per_hour db r)
  unfolding decide_limit
  limit-IsUncharged per_hour within_limit = duplicate-IsUncharged per_hour
  limit-IsUncharged per_hour inactive = refuse-IsUncharged subscription_inactive
  limit-IsUncharged per_hour (over_limit code most used) = refuse-IsUncharged code

  Outcome-IsUncharged :
      (o : Db × Decision) {r : Rejection}
      → Outcome db o
      → result_of env input alias o.1 ≡ rejected r
      → IsUncharged db o.0
  Outcome-IsUncharged (db', accepted log n) u h = cc
  Outcome-IsUncharged (db', is_dup) u h = u
  Outcome-IsUncharged (db', over_rate) u h = u
  Outcome-IsUncharged (db', inbound_limit code) u h = u

  sender-IsUncharged :
      (e : AllowEvaluation) {r : Rejection}
      → (decide_sender env input alias db e).1 ≡ rejected r
      → IsUncharged db (decide_sender env input alias db e).0
  unfolding decide_sender
  sender-IsUncharged allowed h =
      unfold queue_allowed_inbound_email queue_transaction in
      Outcome-IsUncharged _ (limit-IsUncharged _ _) h
  sender-IsUncharged (denied reason) h = IsUncharged-refl db

module _ (env : Env) (input : PipelineInput) (db : Db) where
  for-IsUncharged :
      (o : Option EmailAddress) {r : Rejection}
      → (queue_for env input db o).1 ≡ rejected r
      → IsUncharged db (queue_for env input db o).0
  unfolding queue_for
  for-IsUncharged none h = IsUncharged-refl db
  for-IsUncharged (some alias) h = elim (Bool-cases (is_active alias.status)) [
    | inl a ↦ rw a (sender-IsUncharged env input alias db _ (rw a at h))
    | inr a ↦ rw a (IsUncharged-refl db)
  ]

  -- A mail that is rejected, for whatever reason, creates no log, reserves no storage, and is
  -- counted as accepted for no user in no month.
  pub rejected-IsUncharged :
      {r : Rejection}
      → (queue_inbound_email env input db).1 ≡ rejected r
      → IsUncharged db (queue_inbound_email env input db).0
  unfolding queue_inbound_email
  rejected-IsUncharged h = for-IsUncharged _ h
