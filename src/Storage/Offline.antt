-- ===== src/Storage/Offline.antt =====
-- The tables in memory as a context sees them that was cancelled: every statement fails.
use at_protocol_infrastructu.Prelude.{refl}
use at_protocol_infrastructu.Prelude.Result.{err}
use at_protocol_infrastructu.Storage.Database.{DbError, fault, Postgres, Laws}
use at_protocol_infrastructu.Storage.Cancelled.{IsCancelled}
use at_protocol_infrastructu.Storage.Memory.{
  Tables, find, find_distinct, cursor_at, cursor_at_missing, numbered,
}

abbrev cancelled : DbError
cancelled = fault "context canceled"

abbrev pub offline : Postgres
offline = record {
  State = Tables;
  upsert_host = λ h s. (err cancelled, s);
  update_cursor = λ c i s. (err cancelled, s);
  select_cursor = λ h s. err cancelled;
  insert_event = λ e s. (err cancelled, s);
  select_events = λ c n s. err cancelled;
  last_value = λ s. err cancelled;
}

pub offline-IsCancelled : IsCancelled offline
offline-IsCancelled = record {
  upsert_fails = λ h s. (cancelled, refl);
  update_fails = λ c i s. (cancelled, refl);
  insert_fails = λ n s. (cancelled, refl);
}

pub offline-Laws : Laws offline
offline-Laws = record {
  id_of = λ s h. find h s.hosts;
  cursor_of = λ s h. cursor_at h s.hosts;
  rows = λ s. numbered 1 s.events;
  ids_distinct = λ s h j i. find_distinct h j s.hosts i;
  upsert_ids = λ s h j i e. cc;
  upsert_old = λ s h i j e q. cc;
  upsert_cursors = λ s h j. refl;
  upsert_rows = λ s h. refl;
  upsert_failed = λ s h j e q. refl;
  update_ids = λ s c i j. refl;
  update_hit = λ s c i j e h. cc;
  update_miss = λ s c i j h. refl;
  update_failed = λ s c i j e q. refl;
  update_rows = λ s c i. refl;
  cursor_found = λ s h c e. cc;
  cursor_missing = λ s h e. cc;
  cursor_row = λ s h e. cursor_at_missing h s.hosts e;
  insert_ids = λ s e j. refl;
  insert_cursors = λ s e j. refl;
  insert_rows = λ s e q h. absurd (cc);
  insert_seq = λ s e q h. absurd (cc);
  insert_failed = λ s e x q. refl;
  select_lem = λ s c n rs h. cc;
}
