-- ===== src/Examples/Deliveries.antt =====
-- The theorems on the first attempt, at a mail that cannot be parsed and one whose alias was moved.
use email_to_telegram.Base.{none, some, refl, ◌≡◌, [], ◌∷◌, true}
use email_to_telegram.Store.Users.{find_alias_by_id}
use email_to_telegram.Store.Logs.{
  mark_delivery_log_processing, count_counted_failed_attempts_by_log,
}
use email_to_telegram.Email.Outcome.{read_attempt_route}
use email_to_telegram.Email.Inbound.{QueuedEmail}
use email_to_telegram.Email.Deliver.{
  DeliverWorld, stored, send_on_route, deliver_queued_email, deliver_prepared, prepare,
  store_attachments,
}
use email_to_telegram.Email.Deliver.Attempt.{SettlesFirst, send_on_route-SettlesFirst}
use email_to_telegram.Email.Deliver.Sends.{MaySend, deliver-MaySend}
use email_to_telegram.Email.Retry.Budget.{counted_failures}
use email_to_telegram.Store.Routing.{move_alias_with_cas, cas_update, insert_alias_move_event}
use email_to_telegram.Examples.Data.{news, hello, old_group, new_group}
use email_to_telegram.Examples.Retries.{poison, hello_log, queued_tables}
use email_to_telegram.Examples.Routes.{to_new_group}

abbrev hello_job : QueuedEmail
hello_job = record { alias = news; parsed = hello; delivery_log = hello_log }

-- Telegram refuses the text, and the owner moves the alias just before the route is read.
abbrev moved_meanwhile : DeliverWorld
moved_meanwhile = record {
  answers = poison;
  now = 10000100;
  has_api = true;
  stored_as = stored ∷ [];
  renders = true;
  persisted = true;
  before_recheck = λ db. db;
  before_route = λ db. (move_alias_with_cas to_new_group db).0;
}

hello_fresh : counted_failures queued_tables hello_log.id ≡ 0
unfolding count_counted_failed_attempts_by_log
hello_fresh = refl

send_on_route-SettlesFirst_example :
    SettlesFirst moved_meanwhile hello_log queued_tables
      (send_on_route moved_meanwhile hello_job old_group none queued_tables)
send_on_route-SettlesFirst_example =
    send_on_route-SettlesFirst moved_meanwhile hello_job queued_tables old_group none refl
      hello_fresh

sent_to_new_group :
    (deliver_queued_email moved_meanwhile hello_job queued_tables).text_sent_to ≡ some new_group
unfolding deliver_queued_email deliver_prepared prepare store_attachments
    mark_delivery_log_processing find_alias_by_id read_attempt_route move_alias_with_cas cas_update
    insert_alias_move_event
sent_to_new_group = refl

deliver-MaySend_example : MaySend moved_meanwhile hello_job queued_tables new_group
deliver-MaySend_example = deliver-MaySend moved_meanwhile hello_job queued_tables sent_to_new_group
