-- ===== src/Collector/Options.antt =====
-- internal/service/collector/service.go: the collection settings and their defaults.
use log_integrity.Prelude.{◌≡◌, Bool, arith, Text, codes, is_empty, if◌then◌else◌}
use log_integrity.Prelude.Int.{ℤ, pos, leb_ℤ, ltb_ℤ, ◌≤ℤ◌, ◌<ℤ◌}

pub record Options : Type 0 where
  pub batch_size : ℤ
  pub chunk_size : ℤ
  pub store_raw_content : Bool
  pub chunk_hash_algo : Text
  pub integrity_hmac_key : Text

abbrev pub default_batch_size : ℤ
default_batch_size = pos 5000

abbrev pub default_chunk_size : ℤ
default_chunk_size = pos 1000

abbrev pub default_chunk_hash_algo : Text
default_chunk_hash_algo = codes "sha256"

or_default : ℤ → ℤ → ℤ
or_default size default = if leb_ℤ size (pos 0) then default else size

cap_chunk_size : Options → Options
cap_chunk_size o =
    if ltb_ℤ o.batch_size o.chunk_size then record o { chunk_size = o.batch_size } else o

unfoldable pub normalize_options : Options → Options
unfolding or_default cap_chunk_size
normalize_options o = cap_chunk_size (record o {
  batch_size = or_default o.batch_size default_batch_size;
  chunk_size = or_default o.chunk_size default_chunk_size;
  chunk_hash_algo =
      if is_empty o.chunk_hash_algo then default_chunk_hash_algo else o.chunk_hash_algo;
})

-- Whatever was configured, both sizes are positive and the chunk size is at most the batch size;
-- a positive batch size is kept, so is a positive chunk size that is at most the batch size, and
-- so is the key.
pub normalize_options_bounds :
    (o : Options)
    → (pos 0 <ℤ (normalize_options o).chunk_size)
      × ((normalize_options o).chunk_size ≤ℤ (normalize_options o).batch_size)
      × (pos 0 <ℤ o.batch_size → (normalize_options o).batch_size ≡ o.batch_size)
      × (pos 0 <ℤ o.chunk_size
          → o.chunk_size ≤ℤ (normalize_options o).batch_size
          → (normalize_options o).chunk_size ≡ o.chunk_size)
      × ((normalize_options o).integrity_hmac_key ≡ o.integrity_hmac_key)
unfolding normalize_options
normalize_options_bounds o = (ground arith, ground arith, ground arith, ground arith, ground arith)
