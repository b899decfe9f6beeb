-- ===== src/Email/Queue/Bounds.antt =====
-- The month's quota and the hourly rate at acceptance (src/email/pipeline/queue.ts).
use email_to_telegram.Base.{
  ℕ, ◌+◌, ◌-◌, ◌*◌, ◌≤◌, ◌≡◌, inl, inr, refl, ap, sym, ◌∙◌, String, Bool, true, false, some, arith,
  leb, Bool-cases, Option-cases, ◌==◌, ==_iff, find?-passes, any, ◌&&◌, count-append, [], ◌∷◌,
}
use email_to_telegram.Billing.Limits.{get_effective_plan, InboundPlan, resolve_inbound_plan}
use email_to_telegram.Billing.Limits.Laws.{inbound-within_iff, HasRoom}
use email_to_telegram.Store.Rows.{Db, User, EmailAddress, DeliveryLog}
use email_to_telegram.Store.Users.{find_user_by_id}
use email_to_telegram.Store.Usage.{
  get_user_usage_month, UsageDelta, increment_user_storage_usage, increment_user_usage_month,
}
use email_to_telegram.Store.Usage.Laws.{delivered_in, delivered-increment_self}
use email_to_telegram.Store.Logs.{
  log_conflicts, create_delivery_log, count_recent_deliveries_by_alias,
}
use email_to_telegram.Email.Inbound.{PipelineInput, Env, queued, QueuedEmail}
use email_to_telegram.Email.Queue.{
  new_log, charge, queue_inbound_email, reserved_attachment_bytes, inbound_plan,
}
use email_to_telegram.Email.Queue.Accepted.{IsAccepted, queue-inversion}

module _ (env : Env) (input : PipelineInput) (alias : EmailAddress) where
  open env use {month}

  -- The charge counts one mail more.
  delivered-charge :
      (db : Db)
      → delivered_in (charge env input alias db) alias.created_by month
        ≡ delivered_in db alias.created_by month + 1
  unfolding charge
  delivered-charge db = drop_storage ∙ delivered-increment_self alias.created_by month one db
    where
      one : UsageDelta
      one = record { delivered = 1; rejected = 0; egress = 0 }

      drop_storage :
          delivered_in
            (increment_user_storage_usage alias.created_by input.raw_email_length
              (reserved_attachment_bytes env.parsed.attachments)
              (increment_user_usage_month alias.created_by month one db))
            alias.created_by
            month
          ≡ delivered_in
              (increment_user_usage_month alias.created_by month one db)
              alias.created_by
              month
      drop_storage = unfold increment_user_storage_usage get_user_usage_month in refl

  delivered-create :
      (db : Db) (log : DeliveryLog)
      → delivered_in (create_delivery_log log db).0 alias.created_by month
        ≡ delivered_in db alias.created_by month
  unfolding create_delivery_log get_user_usage_month
  delivered-create db log = refl

  accepted-count :
      {db db' : Db} {log : DeliveryLog} {n : ℕ}
      → IsAccepted env input alias db db' log n
      → n ≡ delivered_in db alias.created_by month + 1
  accepted-count {db} {db'} {log} {n} a =
      a.counted
      ∙ ap (λ d. delivered_in d alias.created_by month) a.after
      ∙ delivered-charge (create_delivery_log (new_log env input alias) db).0
      ∙ ap (λ k. k + 1) (delivered-create db (new_log env input alias))

  owner_room :
      {db db' : Db} {log : DeliveryLog} {n : ℕ}
      → env.hosted ≡ true
      → IsAccepted env input alias db db' log n
      → (owner : User) × (find_user_by_id db alias.created_by ≡ some owner)
        × HasRoom db
            (some owner)
            (get_effective_plan env.plans env.now owner)
            (some input.raw_email_length)
            (some (input.raw_email_length + reserved_attachment_bytes env.parsed.attachments))
            month
  unfolding resolve_inbound_plan
  owner_room {db} hosted a = elim (Option-cases (find_user_by_id db alias.created_by)) [
    | inl e ↦ absurd (rw (hosted, e) at room)
    | inr (owner, e) ↦ (owner, e, rw (hosted, e) at room)
  ]
    where
      inbound : InboundPlan
      inbound = inbound_plan env input alias db

      room :
          HasRoom db inbound.user inbound.plan
            (some input.raw_email_length)
            (some (input.raw_email_length + reserved_attachment_bytes env.parsed.attachments))
            month
      room = (inbound-within_iff db inbound _ _ month (rw hosted)).0 a.in_quota

  owner_id :
      (db : Db) {owner : User}
      → find_user_by_id db alias.created_by ≡ some owner
      → owner.id ≡ alias.created_by
  unfolding find_user_by_id
  owner_id db h = (==_iff _ _).0 (find?-passes (λ (u : User). u.id == alias.created_by) db.users h)

  -- The rows that the hourly rate counts, with the row that was just created.
  count-created :
      (db : Db) (since : ℕ)
      → since ≤ env.now
      → (create_delivery_log (new_log env input alias) db).1 ≡ true
      → count_recent_deliveries_by_alias
          (charge env input alias (create_delivery_log (new_log env input alias) db).0)
          alias.id
          since
        ≡ count_recent_deliveries_by_alias db alias.id since + 1
  unfolding create_delivery_log charge count_recent_deliveries_by_alias increment_user_storage_usage
      increment_user_usage_month
  count-created db since h created =
      elim (Bool-cases (any (log_conflicts (new_log env input alias)) db.delivery_logs)) [
        | inl e ↦ let refused : false ≡ true = rw e at created in cc
        | inr e ↦
            rw (e, count-append (is_recent since) db.delivery_logs (new_log env input alias ∷ []))
              (ground arith)
      ]
    where
      is_recent : ℕ → DeliveryLog → Bool
      is_recent since l = (l.email_address_id == alias.id) && leb since l.received_at

module _ (env : Env) (input : PipelineInput) where
  -- In hosted mode a mail that is queued has an owner, and the month's count of accepted mails,
  -- this one included, does not exceed the owner's effective plan. The count that is returned is
  -- the counter before the mail plus one.
  pub queued-within_quota :
      (db : Db) {db' : Db} {job : QueuedEmail} {m : String} {n : ℕ}
      → env.hosted ≡ true
      → queue_inbound_email env input db ≡ (db', queued job m n)
      → (owner : User) × (find_user_by_id db job.alias.created_by ≡ some owner)
        × (n ≡ delivered_in db owner.id m + 1)
        × (delivered_in db' owner.id m ≡ n)
        × (n ≤ (get_effective_plan env.plans env.now owner).limits.delivered_emails_month)
  queued-within_quota db {db'} {job} {m} {n} hosted h =
      let q = queue-inversion env input db h in
      let (owner, e, room) = owner_room env input job.alias hosted q.passed in
      let same = owner_id env input job.alias db e in
      let counted = accepted-count env input job.alias q.passed in
      (
        owner,
        e,
        rw (same, q.in_month) counted,
        rw (same, q.in_month) (sym q.passed.counted),
        rw counted (omega (arith, rw same at room.2)),
      )

  -- An alias accepts at most its plan's number of mails within an hour: with the queued mail
  -- counted, the hour that ends now is within the limit.
  pub queued-within_rate :
      (db : Db) {db' : Db} {job : QueuedEmail} {m : String} {n : ℕ}
      → queue_inbound_email env input db ≡ (db', queued job m n)
      → count_recent_deliveries_by_alias db' job.alias.id (env.now - 60 * 60 * 1000)
        ≤ (inbound_plan env input job.alias db).plan.limits.alias_emails_per_hour
  queued-within_rate db {job} h =
      let a = (queue-inversion env input db h).passed in
      rw
        (
          a.after,
          count-created env input job.alias db (env.now - 60 * 60 * 1000) (omega arith) a.inserted,
        )
        (omega (arith, a.in_rate))
