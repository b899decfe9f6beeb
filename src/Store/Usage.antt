-- ===== src/Store/Usage.antt =====
-- src/db/repos/usage.ts and storageUsage.ts: the monthly counters and the storage reservation of a
-- user. The increments are numbers, so the source's check that they are not negative never fires;
-- `none` is its other error, that no row was returned.
pub mod Laws
use email_to_telegram.Base.{
  ℕ, ◌+◌, ◌-◌, String, Bool, true, ◌&&◌, Option, none, some, List, ◌==◌, str_eq, find?, any, upsert,
  update_where, if◌then◌else◌, or_else,
}
use email_to_telegram.Store.Rows.{Db, UserUsageMonth, UserStorageUsage}

-- The row of the primary key (user, month).
abbrev pub is_usage : ℕ → String → UserUsageMonth → Bool
is_usage user month u = (u.user_id == user) && str_eq u.month month

abbrev pub is_storage : ℕ → UserStorageUsage → Bool
is_storage user s = s.user_id == user

-- The counters of an update.
pub record UsageDelta : Type 0 where
  pub delivered : ℕ
  pub rejected : ℕ
  pub egress : ℕ

unfoldable pub get_user_usage_month : Db → ℕ → String → Option UserUsageMonth
get_user_usage_month db user month = find? (is_usage user month) db.usage_months

abbrev pub add_usage : UsageDelta → UserUsageMonth → UserUsageMonth
add_usage d u = record u {
  delivered_count = u.delivered_count + d.delivered;
  rejected_count = u.rejected_count + d.rejected;
  egress_bytes = u.egress_bytes + d.egress;
}

-- `greatest(count - n, 0)`
abbrev pub subtract_usage : UsageDelta → UserUsageMonth → UserUsageMonth
subtract_usage d u = record u {
  delivered_count = u.delivered_count - d.delivered;
  rejected_count = u.rejected_count - d.rejected;
  egress_bytes = u.egress_bytes - d.egress;
}

abbrev pub new_usage : ℕ → String → UsageDelta → UserUsageMonth
new_usage user month d = record {
  user_id = user;
  month = month;
  delivered_count = d.delivered;
  rejected_count = d.rejected;
  egress_bytes = d.egress;
}

-- The row that `returning()` gives is `get_user_usage_month` of the result.
unfoldable pub increment_user_usage_month : ℕ → String → UsageDelta → Db → Db
increment_user_usage_month user month d db = record db {
  usage_months =
      upsert (is_usage user month) (add_usage d) (new_usage user month d) db.usage_months;
}

unfoldable pub decrement_user_usage_month : ℕ → String → UsageDelta → Db → Option Db
decrement_user_usage_month user month d db =
    if any (is_usage user month) db.usage_months
    then some (record db {
      usage_months = update_where (is_usage user month) (subtract_usage d) db.usage_months;
    })
    else none

unfoldable pub get_user_storage_usage : Db → ℕ → Option UserStorageUsage
get_user_storage_usage db user = find? (is_storage user) db.storage_usage

unfoldable pub increment_user_storage_usage : ℕ → ℕ → ℕ → Db → Db
increment_user_storage_usage user raw_email attachment db = record db {
  storage_usage =
      upsert (is_storage user)
        (λ s. record s {
          raw_email_bytes = s.raw_email_bytes + raw_email;
          attachment_bytes = s.attachment_bytes + attachment;
        })
        (record { user_id = user; raw_email_bytes = raw_email; attachment_bytes = attachment })
        db.storage_usage;
}

unfoldable pub decrement_user_storage_usage : ℕ → ℕ → ℕ → Db → Option Db
decrement_user_storage_usage user raw_email attachment db =
    if any (is_storage user) db.storage_usage
    then some (record db {
      storage_usage =
          update_where (is_storage user)
            (λ s. record s {
              raw_email_bytes = s.raw_email_bytes - raw_email;
              attachment_bytes = s.attachment_bytes - attachment;
            })
            db.storage_usage;
    })
    else none

-- The counters of a row that may be missing.
abbrev pub stored_bytes : Option UserStorageUsage → ℕ
stored_bytes none = 0
stored_bytes (some s) = s.raw_email_bytes + s.attachment_bytes

abbrev pub delivered_count_of : Option UserUsageMonth → ℕ
delivered_count_of none = 0
delivered_count_of (some u) = u.delivered_count

abbrev pub egress_bytes_of : Option UserUsageMonth → ℕ
egress_bytes_of none = 0
egress_bytes_of (some u) = u.egress_bytes
