-- ===== src/Email/Deliver/Sends.antt =====
-- Where the first attempt (src/email/pipeline/deliver.ts) sends a mail.
use email_to_telegram.Base.{
  ℤ, true, Option, none, some, ◌≡◌, refl, sym, inl, inr, Bool-cases, ◌==◌, ==_iff,
}
use email_to_telegram.Store.Rows.{Db, EmailAddress}
use email_to_telegram.Store.Users.{is_active, find_alias_by_id}
use email_to_telegram.Email.Outcome.{read_attempt_route, route_of}
use email_to_telegram.Email.Inbound.{QueuedEmail}
use email_to_telegram.Email.Deliver.{
  DeliverWorld, deliver_on, deliver_prepared, deliver_queued_email, is_owned, prepare, rendered,
}

-- What held when a text was sent to a chat.
pub record MaySend (w : DeliverWorld) (job : QueuedEmail) (db : Db) (chat : ℤ) : Type 0 where
  pub first_look : is_owned job.alias.created_by (find_alias_by_id db job.alias.id) ≡ true
  pub second_look :
      is_owned job.alias.created_by
        (find_alias_by_id (w.before_recheck (prepare w job db)) job.alias.id)
      ≡ true
  pub alias : EmailAddress
  pub third_look :
      find_alias_by_id (w.before_route (w.before_recheck (prepare w job db))) job.alias.id
      ≡ some alias
  pub alias_active : is_active alias.status ≡ true
  pub same_owner : alias.created_by ≡ job.alias.created_by
  pub its_chat : chat ≡ alias.chat_id

some-injective : {a b : ℤ} → some a ≡ some b → a ≡ b
some-injective e = cc

module _ (w : DeliverWorld) (job : QueuedEmail) where
  -- The text goes nowhere, or to the chat of an alias that is read as active and its owner's.
  on-sends :
      (o : Option EmailAddress) (db : Db) {chat : ℤ}
      → (deliver_on w job (route_of o) db).text_sent_to ≡ some chat
      → (a : EmailAddress) × (o ≡ some a)
        × (is_active a.status ≡ true)
        × (a.created_by ≡ job.alias.created_by)
        × (chat ≡ a.chat_id)
  on-sends none db h = cc
  on-sends (some a) db h = elim (Bool-cases (is_active a.status)) [
    | inl e ↦ elim (Bool-cases (a.created_by == job.alias.created_by)) [
      | inl o ↦
          let same : some a.chat_id ≡ some _ = rw (e, o) at h in
          (a, refl, e, (==_iff _ _).0 o, sym (some-injective same))
      | inr o ↦ let unsent_text : none ≡ some _ = rw (e, o) at h in cc
    ]
    | inr e ↦ let unsent_text : none ≡ some _ = rw e at h in cc
  ]

  prepared-sends :
      (db : Db) {chat : ℤ}
      → (deliver_prepared w job db).text_sent_to ≡ some chat
      → (is_owned job.alias.created_by (find_alias_by_id (w.before_recheck db) job.alias.id) ≡ true)
        × ((deliver_on w job
              (route_of (find_alias_by_id (w.before_route (w.before_recheck db)) job.alias.id))
              (w.before_route (w.before_recheck db))).text_sent_to
            ≡ some chat)
  unfolding deliver_prepared read_attempt_route
  prepared-sends db h =
      elim (Bool-cases
        (is_owned job.alias.created_by (find_alias_by_id (w.before_recheck db) job.alias.id))) [
          | inl e ↦ (e, rw e at h)
          | inr e ↦ let unsent_text : none ≡ some _ = rw e at h in cc
        ]

  -- Whatever other transactions do between its steps, the first attempt sends the text only where
  -- all three looks at the alias found it active and its owner's still, and it sends it to the chat
  -- that the last look found, not to the one of the queued alias.
  pub deliver-MaySend :
      (db : Db) {chat : ℤ}
      → (deliver_queued_email w job db).text_sent_to ≡ some chat
      → MaySend w job db chat
  unfolding deliver_queued_email
  deliver-MaySend db h =
      elim (Bool-cases (is_owned job.alias.created_by (find_alias_by_id db job.alias.id))) [
        | inr e ↦ let unsent_text : none ≡ some _ = rw e at h in cc
        | inl e ↦ elim (Bool-cases (rendered w job)) [
          | inr f ↦ let unsent_text : none ≡ some _ = rw (e, f) at h in cc
          | inl f ↦ elim (Bool-cases w.has_api) [
            | inr g ↦ let unsent_text : none ≡ some _ = rw (e, f, g) at h in cc
            | inl g ↦
                let (look, there) = prepared-sends (prepare w job db) (rw (e, f, g) at h) in
                let (a, found, live, mine, chat_is) = on-sends _ _ there in
                record {
                  first_look = e;
                  second_look = look;
                  alias = a;
                  third_look = found;
                  alias_active = live;
                  same_owner = mine;
                  its_chat = chat_is;
                }
          ]
        ]
      ]
