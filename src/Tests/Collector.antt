-- ===== src/Tests/Collector.antt =====
-- A collection of two new lines, in chunks of one line and batches of two.
use log_integrity.Prelude.{
  keep, not, ◌<◌, ◌≡◌, true, List, [], arith, All, codes, concat, length, refl, false,
}
use log_integrity.Prelude.Int.{leb_ℤ, ℤ, pos, negsuc, ◌<ℤ◌, ◌≤ℤ◌}
use log_integrity.Collector.Options.{Options, normalize_options, normalize_options_bounds}
use log_integrity.Collector.Split.{split_batches, concat-split_batches}
use log_integrity.Collector.Chunks.{EntryChunkBatch}
use log_integrity.Collector.Chunks.Regroup.{
  batch_entries, batch_chunks, Fits, built, batches, regroup,
}
use log_integrity.Models.{FileIdentity}
use log_integrity.Collector.Source.{
  InStep, new_entries, new_entries-InStep, parse_line_output, should_reset_collection,
  should_reset_collection-same,
}
use log_integrity.Tests.Data.{crypto, two_entries, two_entries-IsIncreasing}

abbrev options : Options
options = record {
  batch_size = pos 2;
  chunk_size = pos 1;
  store_raw_content = true;
  chunk_hash_algo = [];
  integrity_hmac_key = [];
}

some_new : 0 < length two_entries
some_new = omega arith

abbrev written : List EntryChunkBatch
written =
    batches crypto options (codes "log") (negsuc 0) 7 two_entries some_new two_entries-IsIncreasing

regroup_example :
    (batch_entries written ≡ two_entries)
    × (batch_chunks written
        ≡ built crypto options
            (codes "log")
            (negsuc 0)
            7
            two_entries
            some_new
            two_entries-IsIncreasing)
    × All (Fits (normalize_options options).batch_size) written
regroup_example =
    regroup crypto options (codes "log") (negsuc 0) 7 two_entries some_new two_entries-IsIncreasing

normalize_options_bounds_example :
    (pos 0 <ℤ (normalize_options options).chunk_size)
    × ((normalize_options options).chunk_size ≤ℤ (normalize_options options).batch_size)
    × (pos 0 <ℤ pos 2 → (normalize_options options).batch_size ≡ pos 2)
    × (pos 0 <ℤ pos 1
        → pos 1 ≤ℤ (normalize_options options).batch_size
        → (normalize_options options).chunk_size ≡ pos 1)
    × ((normalize_options options).integrity_hmac_key ≡ [])
normalize_options_bounds_example = normalize_options_bounds options

concat-split_batches_example : concat (split_batches two_entries (pos 1)) ≡ two_entries
concat-split_batches_example = concat-split_batches two_entries (pos 1)

new_entries-InStep_example :
    InStep crypto options
      (codes "log")
      (keep (λ l. not (leb_ℤ l.number (pos 1))) (parse_line_output (codes "1\ta\n2\tb\n")))
      (new_entries crypto options (codes "log") (pos 1) (parse_line_output (codes "1\ta\n2\tb\n")))
new_entries-InStep_example =
    new_entries-InStep crypto options (codes "log") (pos 1)
      (parse_line_output (codes "1\ta\n2\tb\n"))

abbrev identity : ℤ → FileIdentity
identity size = record {
  device_id = codes "8";
  inode = codes "42";
  volume_id = [];
  file_id = [];
  event_log = [];
  size_bytes = size;
  mod_time_unix = pos 0;
}

should_reset_collection-same_example :
    should_reset_collection (identity (pos 10)) (identity (pos 20)) ≡ false
should_reset_collection-same_example =
    should_reset_collection-same (identity (pos 10)) (identity (pos 20)) refl refl refl refl
      (omega arith)
