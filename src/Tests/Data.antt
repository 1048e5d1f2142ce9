-- ===== src/Tests/Data.antt =====
-- A stand-in for SHA-256 and HMAC-SHA256 that runs, and two stored entries.
use log_integrity.Prelude.{ℕ, ◌+◌, List, [], ◌∷◌, ◌++◌, arith, Text, codes}
use log_integrity.Prelude.Int.{pos}
use log_integrity.Models.{LogEntry}
use log_integrity.Hasher.{Crypto, IsOneLine}
use log_integrity.Increasing.{IsIncreasing}

abbrev pub shifted : Text → Text
shifted [] = []
shifted (c ∷ s) = (c + 48) ∷ shifted s

pub shifted-IsOneLine : (s rest : Text) → IsOneLine rest → IsOneLine (shifted s ++ rest)
shifted-IsOneLine [] rest h = h
shifted-IsOneLine (c ∷ s) rest h = ((λ q. omega (arith, q)), shifted-IsOneLine s rest h)

pub keyed-IsOneLine : (s k : Text) → IsOneLine (shifted s ++ shifted k ++ [])
keyed-IsOneLine [] k = shifted-IsOneLine k [] tt
keyed-IsOneLine (c ∷ s) k = ((λ q. omega (arith, q)), keyed-IsOneLine s k)

abbrev pub crypto : Crypto
crypto = record {
  sha256 = λ s. shifted s ++ [];
  hmac_sha256 = λ s k. shifted s ++ shifted k ++ [];
  sha256_one_line = λ s. shifted-IsOneLine s [] tt;
  hmac_one_line = λ s k. keyed-IsOneLine s k;
}

abbrev pub entry : ℕ → Text → LogEntry
entry n hash = record {
  id = codes "e" ++ n ∷ [];
  log_file_id = codes "log";
  line_number = pos n;
  content = [];
  hash = hash;
  collected_at = 5;
}

abbrev pub two_entries : List LogEntry
two_entries = entry 1 (codes "x") ∷ entry 2 (codes "y") ∷ []

pub two_entries-IsIncreasing : IsIncreasing two_entries
two_entries-IsIncreasing = ((omega arith, tt), (tt, tt))
