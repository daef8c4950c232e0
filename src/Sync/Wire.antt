-- ===== src/Sync/Wire.antt =====
-- About src/sync.rs: the hash on the wire.
use interstellar_db.Base.{ℕ, ◌<◌, ◌^◌, ◌≡◌, ap, some}
use interstellar_db.Base.Bytes.{length-to_be_bytes, from_be_bytes-to_be_bytes}
use interstellar_db.Sync.{hash_bytes, hash_from_bytes}

pub hash_from_bytes-hash_bytes : (h : ℕ) → h < 2 ^ 128 → hash_from_bytes (hash_bytes h) ≡ some h
unfolding hash_bytes hash_from_bytes
hash_from_bytes-hash_bytes h fits =
    rw (length-to_be_bytes 16 h) (ap some (from_be_bytes-to_be_bytes 16 h fits))
