-- ===== src/Store/Logs.antt =====
-- src/db/repos/deliveryLogs.ts and deliveryAttempts.ts: the lifecycle of a delivery log and the
-- record of its attempts, and src/email/dedup.ts.
use email_to_telegram.Base.{
  ℕ, String, Bool, true, false, not, ◌&&◌, ◌||◌, Option, none, some, List, [], ◌∷◌, ◌==◌, ltb, leb,
  str_eq, is_text, is_some, filter, find?, any, count, update_where, insert_new,
}
use email_to_telegram.Store.Rows.{
  Db, DeliveryLog, FinalStatus, received, processing, retrying, failed, delivered,
  permanently_failed, DeliveryAttempt, AttemptStatus, attempt_succeeded, attempt_failed,
}
use email_to_telegram.Telegram.Errors.{TelegramErrorClass, includes_class}

abbrev pub status_no : FinalStatus → ℕ
status_no received = 0
status_no processing = 1
status_no retrying = 2
status_no failed = 3
status_no delivered = 4
status_no permanently_failed = 5

abbrev pub is_status : FinalStatus → FinalStatus → Bool
is_status s t = status_no s == status_no t

-- `inArray(status, statuses)`
abbrev pub in_statuses : List FinalStatus → FinalStatus → Bool
in_statuses statuses s = any (λ t. is_status t s) statuses

abbrev pub non_final_delivery_statuses : List FinalStatus
non_final_delivery_statuses = received ∷ processing ∷ retrying ∷ failed ∷ []

-- Equal and not null.
abbrev pub same_text : Option String → Option String → Bool
same_text a none = false
same_text a (some t) = is_text a t

-- The unique indexes of `delivery_logs`, its primary key included, on a row to be inserted.
abbrev pub log_conflicts : DeliveryLog → DeliveryLog → Bool
log_conflicts new old =
    (old.id == new.id)
    || ((old.email_address_id == new.email_address_id)
        && (same_text old.message_id_header new.message_id_header
            || (same_text old.body_sha256 new.body_sha256
                && (old.body_dedup_applied && new.body_dedup_applied))))

-- `null` (here `false`) when a unique index is violated.
unfoldable pub create_delivery_log : DeliveryLog → Db → Db × Bool
create_delivery_log log db =
    let (logs, created) = insert_new (log_conflicts log) log db.delivery_logs in
    (record db { delivery_logs = logs }, created)

unfoldable pub find_delivery_log : Db → ℕ → Option DeliveryLog
find_delivery_log db id = find? (λ l. l.id == id) db.delivery_logs

unfoldable pub find_delivery_log_by_message_id : Db → String → ℕ → Option DeliveryLog
find_delivery_log_by_message_id db message_id alias =
    find? (λ l. is_text l.message_id_header message_id && (l.email_address_id == alias))
      db.delivery_logs

unfoldable pub find_delivery_log_by_body_hash : Db → String → ℕ → Option DeliveryLog
find_delivery_log_by_body_hash db hash alias =
    find?
      (λ l. is_text l.body_sha256 hash && ((l.email_address_id == alias) && l.body_dedup_applied))
      db.delivery_logs

unfoldable pub find_delivery_log_by_raw_email_path : Db → String → Option DeliveryLog
find_delivery_log_by_raw_email_path db path =
    find? (λ l. is_text l.raw_email_path path) db.delivery_logs

-- The tests of `isDuplicate`: by message id, then by body hash where the alias asks for it.
is_duplicate_body : Db → Option String → ℕ → Bool → Bool
is_duplicate_body db none alias dedup = false
is_duplicate_body db (some hash) alias dedup =
    dedup && is_some (find_delivery_log_by_body_hash db hash alias)

is_duplicate_message : Db → Option String → ℕ → Bool
is_duplicate_message db none alias = false
is_duplicate_message db (some id) alias =
    not (str_eq id "") && is_some (find_delivery_log_by_message_id db id alias)

unfoldable pub is_duplicate : Db → Option String → Option String → ℕ → Bool → Bool
unfolding is_duplicate_body is_duplicate_message
is_duplicate db message_id body_sha256 alias dedup =
    is_duplicate_message db message_id alias || is_duplicate_body db body_sha256 alias dedup

abbrev pub set_status : FinalStatus → DeliveryLog → DeliveryLog
set_status s log = record log { final_status = s }

unfoldable pub update_delivery_log_status : ℕ → FinalStatus → Db → Db
update_delivery_log_status id s db = record db {
  delivery_logs = update_where (λ l. l.id == id) (set_status s) db.delivery_logs;
}

unfoldable pub mark_delivery_log_processing : ℕ → ℕ → Db → Db
mark_delivery_log_processing now id db = record db {
  delivery_logs =
      update_where (λ l. l.id == id)
        (λ l. record l { final_status = processing; processing_started_at = some now })
        db.delivery_logs;
}

-- `processing_started_at` is null or earlier.
abbrev pub is_stale : ℕ → Option ℕ → Bool
is_stale before none = true
is_stale before (some t) = ltb t before

-- The `where` of `findLogsNeedingRetry`.
abbrev pub needs_retry : ℕ → ℕ → DeliveryLog → Bool
needs_retry received_before processing_stale_before l =
    is_some l.raw_email_path
    && (ltb l.received_at received_before
        && (in_statuses (failed ∷ received ∷ retrying ∷ []) l.final_status
            || (is_status l.final_status processing
                && is_stale processing_stale_before l.processing_started_at)))

unfoldable pub find_logs_needing_retry : Db → ℕ → ℕ → List DeliveryLog
find_logs_needing_retry db received_before processing_stale_before =
    filter (needs_retry received_before processing_stale_before) db.delivery_logs

abbrev pub claimable : List FinalStatus
claimable = failed ∷ received ∷ processing ∷ retrying ∷ []

abbrev pub is_claimable : ℕ → DeliveryLog → Bool
is_claimable id l = (l.id == id) && in_statuses claimable l.final_status

unfoldable pub claim_delivery_log_for_retry : ℕ → Db → Db × Bool
claim_delivery_log_for_retry id db = (
  record db {
    delivery_logs = update_where (is_claimable id) (set_status retrying) db.delivery_logs;
  },
  any (is_claimable id) db.delivery_logs,
)

unfoldable pub count_recent_deliveries_by_alias : Db → ℕ → ℕ → ℕ
count_recent_deliveries_by_alias db alias received_since =
    count (λ l. (l.email_address_id == alias) && leb received_since l.received_at) db.delivery_logs

-- The unique index of `delivery_attempts`.
abbrev pub same_attempt : DeliveryAttempt → DeliveryAttempt → Bool
same_attempt new old =
    (old.delivery_log_id == new.delivery_log_id) && (old.attempt_no == new.attempt_no)

unfoldable pub insert_delivery_attempt : DeliveryAttempt → Db → Db
insert_delivery_attempt attempt db = record db {
  delivery_attempts = (insert_new (same_attempt attempt) attempt db.delivery_attempts).0;
}

unfoldable pub count_attempts_by_log : Db → ℕ → ℕ
count_attempts_by_log db id = count (λ a. a.delivery_log_id == id) db.delivery_attempts

abbrev pub is_failed : AttemptStatus → Bool
is_failed attempt_succeeded = false
is_failed attempt_failed = true

-- A null class counts.
abbrev pub is_counted : List TelegramErrorClass → Option TelegramErrorClass → Bool
is_counted uncounted none = true
is_counted uncounted (some c) = not (includes_class uncounted c)

abbrev pub is_counted_failure : List TelegramErrorClass → ℕ → DeliveryAttempt → Bool
is_counted_failure uncounted id a =
    (a.delivery_log_id == id) && (is_failed a.status && is_counted uncounted a.error_class)

unfoldable pub count_counted_failed_attempts_by_log : Db → ℕ → List TelegramErrorClass → ℕ
count_counted_failed_attempts_by_log db id uncounted =
    count (is_counted_failure uncounted id) db.delivery_attempts
