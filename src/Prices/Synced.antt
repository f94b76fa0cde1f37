-- ===== src/Prices/Synced.antt =====
-- What a sync of `pos_service/services/fabric_price_sync.py` leaves.
use hightower_pos.Prelude.{
  ℕ, ◌≡◌, refl, ap, ◌∙◌, true, some, List, [], ◌∷◌, arith, if◌then◌else◌, length, if-cases,
}
use hightower_pos.Prelude.Int.{ℤ}
use hightower_pos.Prelude.Text.{Text}
use hightower_pos.Model.{Store, Reply, returned, failed, crashed}
use hightower_pos.Prices.{storable}
use hightower_pos.Prices.Sync.{commit_catalog, sync_once, SyncEnd, synced, sync_crashes}
use hightower_pos.Prices.Stamps.{time, is_priced, time-synced_all}
use hightower_pos.Prices.Refines.{view, override_all, view-upsert_all, upsert_batches-all}

-- What a sync leaves: the map overridden by the catalog it fetched, and everything else as before.
abbrev pub SyncOutcome : (now : ℕ) → Reply (List (Text × ℤ)) → Store → SyncEnd × Store → Type 0
SyncOutcome now reply s (sync_crashes, s') = s' ≡ s
SyncOutcome now (returned rows) s (synced r, s') =
    (r.rows_upserted ≡ length rows)
    × ((k : Text) → view s'.prices k ≡ override_all rows (view s.prices) k)
    × ((k : Text) → time s'.prices k ≡ (if is_priced rows k then some now else time s.prices k))
    × (s' ≡ record s { prices = s'.prices })
SyncOutcome now (failed e) s (synced r, s') = (r.error ≡ some e.message) × (s' ≡ s)
SyncOutcome now crashed s (synced r, s') = ⊥

-- A sync on every branch: the catalog that Fabric returned overrides the prices, the last row of a SKU
-- counting, and sets the time of the prices that it names and of no other, however the rows are cut
-- into statements, and all rows are counted as upserted; where Fabric's client fails the result carries
-- its message; an exception stores nothing.
pub sync_once-SyncOutcome :
    (now : ℕ) (reply : Reply (List (Text × ℤ))) (s : Store)
    → SyncOutcome now reply s (sync_once now reply s)
unfolding sync_once commit_catalog
sync_once-SyncOutcome now crashed s = refl
sync_once-SyncOutcome now (failed e) s = (refl, refl)
sync_once-SyncOutcome now (returned []) s = (refl, (λ k. refl), (λ k. refl), refl)
sync_once-SyncOutcome now (returned (row ∷ rows)) s =
    if-cases (SyncOutcome now (returned (row ∷ rows)) s) (storable (row ∷ rows)) _ _
      (λ fine. (
        refl,
        λ k.
            ap (λ prices. view prices k)
              (upsert_batches-all now (length (row ∷ rows)) 999 (row ∷ rows) s.prices (omega arith))
            ∙ view-upsert_all true now (row ∷ rows) s.prices k,
        λ k.
            ap (λ prices. time prices k)
              (upsert_batches-all now (length (row ∷ rows)) 999 (row ∷ rows) s.prices (omega arith))
            ∙ time-synced_all now (row ∷ rows) s.prices k,
        refl,
      ))
      (λ large. refl)
