-- ===== src/Store/Entries.antt =====
-- What the key-value tree holds: its entries by ascending key, in the order of bytes.
pub mod Laws
pub mod Order
use interstellar_db.Base.{
  ℕ, ◌≡◌, List, [], ◌∷◌, Bool, true, false, not, ◌&&◌, Option, none, some, if◌then◌else◌, All,
  length, ◌==◌,
}
use interstellar_db.Base.ByteOrder.{bytes_eq}
use interstellar_db.Base.Bytes.{bytes_leb}
use interstellar_db.Merkle.Forest.Items.{Row}

unfoldable pub find : List ℕ → List Row → Option (List ℕ)
find k [] = none
find k (r ∷ rs) = if bytes_eq k r.key then some r.payload else find k rs

unfoldable pub put : List ℕ → List ℕ → List Row → List Row
put k v [] = record { key = k; payload = v } ∷ []
put k v (r ∷ rs) =
    if bytes_leb k r.key
    then if bytes_leb r.key k
      then record { key = k; payload = v } ∷ rs
      else record { key = k; payload = v } ∷ r ∷ rs
    else r ∷ put k v rs

unfoldable pub erase : List ℕ → List Row → List Row
erase k [] = []
erase k (r ∷ rs) =
    if bytes_leb k r.key then (if bytes_leb r.key k then rs else r ∷ rs) else r ∷ erase k rs

-- From `lo` up to, but not including, `hi`.
unfoldable pub between : List ℕ → List ℕ → List Row → List Row
between lo hi [] = []
between lo hi (r ∷ rs) =
    let rest = between lo hi rs in
    if bytes_leb lo r.key && not (bytes_leb hi r.key) then r ∷ rest else rest

-- The rows whose key converts to `[u8; 20]`.
unfoldable pub data_rows : List Row → List Row
data_rows [] = []
data_rows (r ∷ rs) = let rest = data_rows rs in if length r.key == 20 then r ∷ rest else rest

-- Each key before all later ones.
abbrev pub IsAscending : List Row → Type 0
IsAscending [] = Unit
IsAscending (r ∷ rs) = All (λ s. bytes_leb s.key r.key ≡ false) rs × IsAscending rs
