-- ===== src/Store/Merge.antt =====
-- What `ingest` of src/store.rs does to the rows, as a specification: of the payloads that come for a
-- key, the one with the greatest digest stays.
pub mod Best
pub mod Converge
use interstellar_db.Base.{
  ℕ, List, [], ◌∷◌, Bool, true, false, Option, none, some, not, if◌then◌else◌,
}
use interstellar_db.Merkle.Forest.Items.{Row}
use interstellar_db.Store.Entries.{find, put}
use interstellar_db.Store.Ingest.{keeps}

module _ (sha256 : List ℕ → List ℕ) where
  -- Whether a row changes the store, by what is there.
  unfoldable pub changes : List ℕ → List ℕ → Option (List ℕ) → Bool
  changes key payload none = true
  changes key payload (some current) = not (keeps sha256 key payload current)

  unfoldable pub merge : List ℕ → List ℕ → List Row → List Row
  merge key payload rows =
      if changes key payload (find key rows) then put key payload rows else rows

  unfoldable pub merge_all : List Row → List Row → List Row
  merge_all [] rows = rows
  merge_all (w ∷ ws) rows = merge_all ws (merge w.key w.payload rows)
