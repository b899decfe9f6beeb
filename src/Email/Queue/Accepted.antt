-- ===== src/Email/Queue/Accepted.antt =====
-- What a queued mail has passed: the steps of src/email/pipeline/queue.ts read backwards from their result.
use email_to_telegram.Base.{
  ℕ, ◌+◌, ◌-◌, ◌*◌, ◌<◌, ◌≡◌, inl, inr, refl, ap, subst, String, true, false, Option, none, some,
  arith, Bool-cases,
}
use email_to_telegram.Billing.Limits.{
  LimitResult, within_limit, inactive, over_limit, check_inbound_limit_for_plan,
}
use email_to_telegram.Store.Rows.{Db, EmailAddress, DeliveryLog}
use email_to_telegram.Store.Users.{is_active, list_allow_rules}
use email_to_telegram.Email.AllowRules.{evaluate_allow_rules, allowed, denied, AllowEvaluation}
use email_to_telegram.Store.Usage.{get_user_usage_month, delivered_count_of}
use email_to_telegram.Store.Logs.{
  is_duplicate, count_recent_deliveries_by_alias, create_delivery_log,
}
use email_to_telegram.Email.Inbound.{
  PipelineInput, Env, Decision, accepted, queued, QueuedEmail, find_alias_for_inbound,
}
use email_to_telegram.Email.Queue.{
  new_log, charge, insert_log, check_rate, check_duplicate, decide_limit, inbound_plan,
  queue_transaction, reserved_attachment_bytes, queue_inbound_email, sender_auth_for,
  queue_allowed_inbound_email, decide_sender, queue_for, result_of,
}

module _ (env : Env) (input : PipelineInput) (alias : EmailAddress) (db : Db) where
  open env use {parsed, month, now}

  abbrev per_hour : ℕ
  per_hour = (inbound_plan env input alias db).plan.limits.alias_emails_per_hour

  -- The checks that an accepted mail has passed, and the tables afterwards.
  pub record IsAccepted (db' : Db) (log : DeliveryLog) (n : ℕ) : Type 0 where
    pub in_quota :
        check_inbound_limit_for_plan db
          (inbound_plan env input alias db)
          (some input.raw_email_length)
          (some (input.raw_email_length + reserved_attachment_bytes parsed.attachments))
          month
        ≡ within_limit
    pub not_seen :
        is_duplicate db parsed.message_id parsed.body_sha256 alias.id alias.body_dedup_enabled
        ≡ false
    pub in_rate : count_recent_deliveries_by_alias db alias.id (now - 60 * 60 * 1000) < per_hour
    pub inserted : (create_delivery_log (new_log env input alias) db).1 ≡ true
    pub is_new : log ≡ new_log env input alias
    pub after : db' ≡ charge env input alias (create_delivery_log (new_log env input alias) db).0
    pub counted : n ≡ delivered_count_of (get_user_usage_month db' alias.created_by month)

  insert-accepted :
      {db' : Db} {log : DeliveryLog} {n : ℕ}
      → insert_log env input alias db ≡ (db', accepted log n)
      → ((create_delivery_log (new_log env input alias) db).1 ≡ true)
        × (log ≡ new_log env input alias)
        × (db' ≡ charge env input alias (create_delivery_log (new_log env input alias) db).0)
        × (n ≡ delivered_count_of (get_user_usage_month db' alias.created_by month))
  unfolding insert_log
  insert-accepted h = ground arith

  abbrev limit_result : LimitResult
  limit_result =
      check_inbound_limit_for_plan db (inbound_plan env input alias db)
        (some input.raw_email_length)
        (some (input.raw_email_length + reserved_attachment_bytes parsed.attachments)) month

  decide-accepted :
      {db' : Db} {log : DeliveryLog} {n : ℕ} (r : LimitResult)
      → decide_limit env input alias per_hour db r ≡ (db', accepted log n)
      → (r ≡ within_limit) × (check_duplicate env input alias per_hour db ≡ (db', accepted log n))
  unfolding decide_limit
  decide-accepted within_limit h = (refl, h)
  decide-accepted inactive h = ground arith
  decide-accepted (over_limit code most used) h = ground arith

  duplicate-accepted :
      {db' : Db} {log : DeliveryLog} {n : ℕ}
      → check_duplicate env input alias per_hour db ≡ (db', accepted log n)
      → (is_duplicate db parsed.message_id parsed.body_sha256 alias.id alias.body_dedup_enabled
          ≡ false)
        × (count_recent_deliveries_by_alias db alias.id (now - 60 * 60 * 1000) < per_hour)
        × (insert_log env input alias db ≡ (db', accepted log n))
  unfolding check_duplicate check_rate
  duplicate-accepted h = ground arith

  transaction-accepted :
      {db' : Db} {log : DeliveryLog} {n : ℕ}
      → queue_transaction env input alias db ≡ (db', accepted log n)
      → IsAccepted db' log n
  unfolding queue_transaction
  transaction-accepted h =
      let (quota, dup) = decide-accepted limit_result h in
      let (fresh, rate, ins) = duplicate-accepted dup in
      let (ok, new, after, count) = insert-accepted ins in
      record {
        in_quota = quota;
        not_seen = fresh;
        in_rate = rate;
        inserted = ok;
        is_new = new;
        after = after;
        counted = count;
      }

  result-queued :
      (d : Decision) {job : QueuedEmail} {m : String} {n : ℕ}
      → result_of env input alias d ≡ queued job m n
      → (job.alias ≡ alias) × (m ≡ month) × (d ≡ accepted job.delivery_log n)
  result-queued d h = ground arith

  allowed-queued :
      {db' : Db} {job : QueuedEmail} {m : String} {n : ℕ}
      → queue_allowed_inbound_email env input alias db ≡ (db', queued job m n)
      → (job.alias ≡ alias)
        × (m ≡ month)
        × (queue_transaction env input alias db ≡ (db', accepted job.delivery_log n))
  unfolding queue_allowed_inbound_email
  allowed-queued h =
      let (same, month_same, d) =
        result-queued (queue_transaction env input alias db).1 (ap (λ r. r.1) h) in
      (same, month_same, λ i. ((h i).0, d i))

  sender-queued :
      (e : AllowEvaluation) {db' : Db} {job : QueuedEmail} {m : String} {n : ℕ}
      → decide_sender env input alias db e ≡ (db', queued job m n)
      → (e ≡ allowed) × (queue_allowed_inbound_email env input alias db ≡ (db', queued job m n))
  unfolding decide_sender
  sender-queued allowed h = (refl, h)
  sender-queued (denied reason) h = ground arith

module _ (env : Env) (input : PipelineInput) (db : Db) where
  -- What holds of a mail that is queued as `job`, with the tables `db'` afterwards.
  pub record IsQueued (db' : Db) (job : QueuedEmail) (m : String) (n : ℕ) : Type 0 where
    pub found :
        find_alias_for_inbound env.ops env.hosted db input.local_part input.recipient_domain
        ≡ some job.alias
    pub alias_active : is_active job.alias.status ≡ true
    pub sender_allowed :
        evaluate_allow_rules env.ops
          (list_allow_rules db job.alias.id)
          (sender_auth_for env input job.alias db)
        ≡ allowed
    pub passed : IsAccepted env input job.alias db db' job.delivery_log n
    pub in_month : m ≡ env.month

  for-queued :
      (o : Option EmailAddress) {db' : Db} {job : QueuedEmail} {m : String} {n : ℕ}
      → find_alias_for_inbound env.ops env.hosted db input.local_part input.recipient_domain ≡ o
      → queue_for env input db o ≡ (db', queued job m n)
      → IsQueued db' job m n
  unfolding queue_for
  for-queued none e h = cc
  for-queued (some alias) {db'} {job} {m} {n} e h = elim (Bool-cases (is_active alias.status)) [
    | inl a ↦
        let (ok, q) =
          sender-queued env input alias db
            (evaluate_allow_rules env.ops (list_allow_rules db alias.id)
              (sender_auth_for env input alias db))
            (rw a at h) in
        let (same, month_same, t) = allowed-queued env input alias db q in
        subst
          (λ (x : EmailAddress).
            find_alias_for_inbound env.ops env.hosted db input.local_part input.recipient_domain
              ≡ some x
            → is_active x.status ≡ true
            → evaluate_allow_rules env.ops (list_allow_rules db x.id)
                (sender_auth_for env input x db)
              ≡ allowed
            → queue_transaction env input x db ≡ (db', accepted job.delivery_log n)
            → IsQueued db' job m n)
          same
          (λ f a' s t'. record {
            found = f;
            alias_active = a';
            sender_allowed = s;
            passed = transaction-accepted env input job.alias db t';
            in_month = month_same;
          })
          e a ok t
    | inr a ↦ ground arith
  ]

  pub queue-inversion :
      {db' : Db} {job : QueuedEmail} {m : String} {n : ℕ}
      → queue_inbound_email env input db ≡ (db', queued job m n)
      → IsQueued db' job m n
  unfolding queue_inbound_email
  queue-inversion h =
      for-queued
        (find_alias_for_inbound env.ops env.hosted db input.local_part input.recipient_domain) refl
        h
