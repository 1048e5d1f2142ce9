-- ===== src/Collector/Source.antt =====
-- internal/service/collector/service.go: what the collector reads from a server, and the entries that
-- it makes of it. The text that a remote command prints is an argument.
use log_integrity.Prelude.{
  ◌≡◌, refl, Bool, false, not, ◌&&◌, ◌||◌, none, some, List, [], ◌∷◌, Text, ◌==◌, text_eq, is_empty,
  text_beq_iff, if◌then◌else◌, arith, drop, length, keep, true,
}
use log_integrity.Prelude.Sort.{sort_by}
use log_integrity.Prelude.Int.{ℤ, pos, ltb_ℤ, leb_ℤ, ◌≤ℤ◌}
use log_integrity.Prelude.Strings.{
  trim_space, trim_right_cr, unix_lines, split_lines, cut, first_field, has_prefix, parse_int64,
}
use log_integrity.Models.{LogFile, LogEntry, FileIdentity}
use log_integrity.Hasher.{Crypto, hash_string}
use log_integrity.Collector.Options.{Options}

-- Line
pub record Line : Type 0 where
  pub number : ℤ
  pub content : Text

abbrev present : Text → Bool
present t = not (is_empty t)

unfoldable pub has_identity : FileIdentity → Bool
has_identity i =
    present i.device_id
    || present i.inode
    || present i.volume_id
    || present i.file_id
    || present i.event_log
    || ltb_ℤ (pos 0) i.size_bytes

unfoldable pub file_shrank : FileIdentity → FileIdentity → Bool
file_shrank previous current =
    ltb_ℤ (pos 0) previous.size_bytes
    && ltb_ℤ (pos 0) current.size_bytes
    && ltb_ℤ current.size_bytes previous.size_bytes

-- shouldResetCollection, which RequiresRecollection calls.
unfoldable pub should_reset_collection : FileIdentity → FileIdentity → Bool
unfolding has_identity file_shrank
should_reset_collection previous current =
    if not (has_identity previous) || not (has_identity current)
    then false
    else if present previous.event_log || present current.event_log
    then not (previous.event_log == current.event_log)
    else if present previous.device_id
        && present previous.inode
        && present current.device_id
        && present current.inode
    then not (previous.device_id == current.device_id)
      || not (previous.inode == current.inode)
      || file_shrank previous current
    else if present previous.file_id && present current.file_id
    then not (previous.file_id == current.file_id) || file_shrank previous current
    else file_shrank previous current

-- RequiresRecollection
unfoldable pub requires_recollection : LogFile → FileIdentity → Bool
unfolding should_reset_collection
requires_recollection file current = should_reset_collection file.file_identity current

-- `strings.TrimPrefix(s, prefix)`
abbrev trim_prefix : Text → Text → Text
trim_prefix s prefix = if has_prefix s prefix then drop (length prefix) s else s

-- The number and the content of a line: around the first tab, or the first field and what is behind it.
unfoldable pub line_parts : Text → Text × Text
line_parts item = elim (cut item 9) [
  | some (number, content) ↦ (trim_space number, content)
  | none ↦
      let field = (first_field (trim_space item)).0 in (field, trim_space (trim_prefix item field))
]

-- The lines that have a number; a blank line has none.
unfoldable pub numbered : List Text → List Line
unfolding line_parts
numbered [] = []
numbered (raw ∷ raws) =
    let rest = numbered raws in
    let item = trim_right_cr raw in
    let parts = line_parts item in
    if is_empty (trim_space item) then rest else elim (parse_int64 parts.0) [
      | none ↦ rest
      | some n ↦ record { number = n; content = parts.1 } ∷ rest
    ]

abbrev number_less : Line → Line → Bool
number_less a b = ltb_ℤ a.number b.number

-- parseLineOutput
unfoldable pub parse_line_output : Text → List Line
unfolding numbered
parse_line_output output = sort_by number_less (numbered (split_lines (unix_lines output)))

module _ (crypto : Crypto) where
  -- The entry of a line; the storage fills in the identifier and the time.
  abbrev pub entry_of : Options → Text → Line → LogEntry
  entry_of options log_file_id line = record {
    id = [];
    log_file_id = log_file_id;
    line_number = line.number;
    content = if options.store_raw_content then line.content else [];
    hash = hash_string crypto line.content options.integrity_hmac_key;
    collected_at = 0;
  }

  -- The loop of CollectLogFile over the lines: those up to `max_line` are stored already.
  unfoldable pub new_entries : Options → Text → ℤ → List Line → List LogEntry
  new_entries options log_file_id max_line [] = []
  new_entries options log_file_id max_line (line ∷ lines) =
      let rest = new_entries options log_file_id max_line lines in
      if leb_ℤ line.number max_line then rest else entry_of options log_file_id line ∷ rest

  -- The entry `e` stands for a line: its number, the keyed hash of its content, and its content if it is
  -- kept.
  pub record StandsFor (options : Options) (log_file_id : Text) (line : Line) (e : LogEntry)
      : Type 0 where
    pub of_file : e.log_file_id ≡ log_file_id
    pub at_line : e.line_number ≡ line.number
    pub hashed : e.hash ≡ hash_string crypto line.content options.integrity_hmac_key
    pub contents : e.content ≡ (if options.store_raw_content then line.content else [])

  -- The entries are in step with the lines.
  abbrev pub InStep : Options → Text → List Line → List LogEntry → Type 0
  InStep options log_file_id [] [] = Unit
  InStep options log_file_id [] (e ∷ es) = ⊥
  InStep options log_file_id (line ∷ lines) [] = ⊥
  InStep options log_file_id (line ∷ lines) (e ∷ es) =
      StandsFor options log_file_id line e × InStep options log_file_id lines es

  -- The entries that CollectLogFile makes are, in order, those of the lines it read that are
  -- above the stored ones: one for each such line and no other, of the given file, with the
  -- number of its line, the keyed hash of its content, and that content or none as configured.
  pub new_entries-InStep :
      (options : Options) (log_file_id : Text) (max_line : ℤ) (lines : List Line)
      → InStep options log_file_id
          (keep (λ l. not (leb_ℤ l.number max_line)) lines)
          (new_entries options log_file_id max_line lines)
  unfolding new_entries
  new_entries-InStep options log_file_id max_line [] = tt
  new_entries-InStep options log_file_id max_line (line ∷ lines) =
      pick (leb_ℤ line.number max_line) (new_entries-InStep options log_file_id max_line lines)
    where
      others : List Line
      others = keep (λ l. not (leb_ℤ l.number max_line)) lines

      made : List LogEntry
      made = new_entries options log_file_id max_line lines

      pick :
          (old : Bool)
          → InStep options log_file_id others made
          → InStep options log_file_id
              (if not old then line ∷ others else others)
              (if old then made else entry_of options log_file_id line ∷ made)
      pick true h = h
      pick false h = (record { of_file = refl; at_line = refl; hashed = refl; contents = refl }, h)

-- For two identities with the same device, inode, file id and event log, the second not smaller
-- than the first, the collection does not start again.
pub should_reset_collection-same :
    (previous current : FileIdentity)
    → previous.device_id ≡ current.device_id
    → previous.inode ≡ current.inode
    → previous.file_id ≡ current.file_id
    → previous.event_log ≡ current.event_log
    → previous.size_bytes ≤ℤ current.size_bytes
    → should_reset_collection previous current ≡ false
unfolding should_reset_collection file_shrank
should_reset_collection-same previous current d i f e s = ground (
  arith,
  text_beq_iff previous.device_id current.device_id,
  text_beq_iff previous.inode current.inode,
  text_beq_iff previous.file_id current.file_id,
  text_beq_iff previous.event_log current.event_log,
)
