-- ===== src/Durable/Manifests.antt =====
-- durable.py: `_DurableManifestStore`, with its files as the records that they hold.
use lm_resiliency.Base.{
  ℕ, suc, List, [], ◌∷◌, Option, some, none, if◌then◌else◌, ◌==◌, string_eq, leb,
}
use lm_resiliency.Durable.Record.{DurableCheckpointRecord}

-- LATEST_SCOUT_VALIDATED, PENDING_SCOUT_CANDIDATE and the files of records/, one for each name.
pub record Folder : Type 0 where
  pub latest : Option DurableCheckpointRecord
  pub pending : Option DurableCheckpointRecord
  pub records : List DurableCheckpointRecord

abbrev put : List DurableCheckpointRecord → DurableCheckpointRecord → List DurableCheckpointRecord
put [] r = r ∷ []
put (x ∷ xs) r =
    let rest = put xs r in if x.checkpoint_id == r.checkpoint_id then r ∷ xs else x ∷ rest

abbrev pub write_record : Folder → DurableCheckpointRecord → Folder
write_record f r = record f { records = put f.records r }

unfoldable pub write_pending : Folder → DurableCheckpointRecord → Folder
write_pending f r = record (write_record f r) { pending = some r }

unfoldable pub commit : Folder → DurableCheckpointRecord → Folder
commit f r = record (write_record f r) { latest = some r; pending = none }

unfoldable pub reject : Folder → DurableCheckpointRecord → Folder
reject f r = record (write_record f r) { pending = none }

unfoldable pub clear_pending : Folder → Folder
clear_pending f = record f { pending = none }

abbrev max : ℕ → ℕ → ℕ
max a b = if leb a b then b else a

abbrev last_epoch : List DurableCheckpointRecord → ℕ
last_epoch [] = 0
last_epoch (r ∷ rs) = max r.validation_epoch (last_epoch rs)

unfoldable pub next_validation_epoch : Folder → ℕ
next_validation_epoch f = suc (last_epoch f.records)
