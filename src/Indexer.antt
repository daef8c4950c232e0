-- ===== src/Indexer.antt =====
-- crates/interstellar-index/src/lib.rs: `HybridSpatioTemporalIndexer`, its parameters and checks.
pub mod Morton
pub mod Coordinate
pub mod Key
pub mod Prefixes
pub mod Ranges
use interstellar_db.Base.{ℕ, ◌≤◌, ◌<◌, ◌^◌, ◌≡◌, Bool, true, Option, none, some, ltb, if◌then◌else◌}
use interstellar_db.Float.{F64}

pub record HybridSpatioTemporalIndexer (f : F64) : Type 0 where
  pub max_range : f.Value
  pub epoch_duration : ℕ

-- `new`; `none` is the panic of a failed assertion.
unfoldable pub new : (f : F64) → f.Value → ℕ → Option (HybridSpatioTemporalIndexer f)
new f max_range epoch_duration =
    if f.ltb (f.of_u32 0) max_range
    then if ltb 0 epoch_duration
      then some (record { max_range = max_range; epoch_duration = epoch_duration })
      else none
    else none

-- What `new` checks, the width of `epoch_duration`, and that twice the range is still finite.
pub record IsValid (f : F64) (self : HybridSpatioTemporalIndexer f) : Type 0 where
  pub range_pos : f.ltb (f.of_u32 0) self.max_range ≡ true
  pub range_finite : f.is_finite self.max_range ≡ true
  pub double_finite : f.is_finite (f.mul (f.of_u32 2) self.max_range) ≡ true
  pub duration_pos : 0 < self.epoch_duration
  pub duration_u32 : self.epoch_duration < 2 ^ 32
