-- ===== src/Api/NotificationRead/Examples.antt =====
-- Runs of src/api/notification-read.ts: a replica that has caught up at the second query, and three
-- notifications.
use atomicassets_api.Prelude.{
  ℕ, suc, ◌≡◌, refl, String, Option, none, some, List, [], ◌∷◌, ◌==◌, if◌then◌else◌,
}
use atomicassets_api.Prelude.Decimal.{decimal}
use atomicassets_api.Exec.{ok}
use atomicassets_api.Json.{Json, num, str, obj, field, end}
use atomicassets_api.Filler.Notification.{Notification, delta}
use atomicassets_api.Filler.Database.WriteBuffer.{lookup}
use atomicassets_api.Api.NotificationRead.{
  by_key, from_reports, extract_notification_blocks, NotifiedRowsQuery, Reader, read_notified_rows,
}
use atomicassets_api.Api.NotificationRead.Attempts.{Reached, read_notified_rows-Reached}
use atomicassets_api.Api.NotificationRead.Blocks.{
  highest_reported, lookup-extract_notification_blocks,
}

abbrev replica : NotifiedRowsQuery ℕ (String × ℕ)
replica = record {
  query = λ n. (ok (("1", if n == 0 then 99 else 100) ∷ []), suc n);
  clock = λ n. 0;
  ids = "1" ∷ "1" ∷ [];
  expected_block_by_id = ("1", 100) ∷ [];
  key_of = λ (r : String × ℕ). r.0;
  block_of = λ (r : String × ℕ). some r.1;
  channel = "assets";
  attempts = 5;
}

abbrev reader : Reader ℕ
reader = record { warn_state = []; warnings = []; slept = 0; world = 0 }

read_notified_rows-Reached_example :
    Reached replica 5 0
      ((read_notified_rows replica reader).0, (read_notified_rows replica reader).1.world)
read_notified_rows-Reached_example = read_notified_rows-Reached replica 4 reader refl

abbrev text : Json → String
text (str s) = s
text (num n) = decimal n
text _ = ""

abbrev number : Json → Option ℕ
number (num n) = some n
number _ = none

abbrev row_of : String → ℕ → Notification
row_of id n = record {
  channel = none;
  type = delta;
  block = obj (field "block_num" (num n) end);
  tx = none;
  trace = none;
  delta = some (obj (field "value" (obj (field "asset_id" (str id) end)) end));
}

abbrev three : List Notification
three = row_of "1" 100 ∷ row_of "2" 101 ∷ row_of "1" 102 ∷ []

lookup-extract_notification_blocks_example :
    lookup "1" (("1", 102) ∷ ("2", 101) ∷ [])
    ≡ highest_reported text number (by_key "asset_id") "1" three
unfolding extract_notification_blocks from_reports
lookup-extract_notification_blocks_example =
    lookup-extract_notification_blocks text number (by_key "asset_id") "1" three
      (("1", 102) ∷ ("2", 101) ∷ []) refl
