-- ===== src/Prices/Sync.antt =====
-- `sync_once` of `pos_service/services/fabric_price_sync.py`. The catalog that Fabric answers with is a
-- parameter.
use hightower_pos.Prelude.{
  true, ℕ, zero, suc, Option, none, some, List, [], ◌∷◌, if◌then◌else◌, length, take, drop,
}
use hightower_pos.Prelude.Int.{ℤ}
use hightower_pos.Prelude.Text.{Text}
use hightower_pos.Model.{Store, Price, Reply, returned, failed, crashed}
use hightower_pos.Prices.{upsert_all, storable}

-- `SyncResult` without the duration.
pub record SyncResult : Type 0 where
  pub rows_fetched : ℕ
  pub rows_upserted : ℕ
  pub error : Option Text

pub data SyncEnd : Type 0 where
  synced : SyncResult → SyncEnd
  sync_crashes : SyncEnd

abbrev pub upsert_batch_size : ℕ
upsert_batch_size = 1000

-- The loop over the batches, each one statement; a batch takes rows away, so the number of rows is
-- fuel enough.
unfoldable pub upsert_batches : (now fuel size : ℕ) → List (Text × ℤ) → List Price → List Price
unfolding upsert_all
upsert_batches now fuel size [] prices = prices
upsert_batches now zero size (row ∷ rows) prices = prices
upsert_batches now (suc fuel) size (row ∷ rows) prices =
    upsert_batches now fuel size (drop size (row ∷ rows))
      (upsert_all true now (take size (row ∷ rows)) prices)

-- One statement fails or the commit at the end makes all batches permanent.
unfoldable pub commit_catalog : (now : ℕ) → List (Text × ℤ) → Store → SyncEnd × Store
unfolding upsert_batches
commit_catalog now rows s =
    let result : SyncResult = record {
      rows_fetched = length rows;
      rows_upserted = length rows;
      error = none;
    } in
    if storable rows
    then (
      synced result,
      record s { prices = upsert_batches now (length rows) upsert_batch_size rows s.prices },
    )
    else (sync_crashes, s)

unfoldable pub sync_once : (now : ℕ) → Reply (List (Text × ℤ)) → Store → SyncEnd × Store
unfolding commit_catalog
sync_once now crashed s = (sync_crashes, s)
sync_once now (failed e) s =
    (synced (record { rows_fetched = 0; rows_upserted = 0; error = some e.message }), s)
sync_once now (returned []) s =
    (synced (record { rows_fetched = 0; rows_upserted = 0; error = none }), s)
sync_once now (returned (row ∷ rows)) s = commit_catalog now (row ∷ rows) s
