-- ===== src/Hasher.antt =====
-- pkg/hasher/hasher.go. SHA-256 and HMAC-SHA256 are of Go's library: a parameter, with the one law
-- that the program relies on, that the hexadecimal output holds no line feed.
use log_integrity.Prelude.{◌≢◌, Bool, [], ◌∷◌, All, Text, ◌==◌, text_eq, if◌then◌else◌, is_empty}

-- No byte is a line feed.
abbrev pub IsOneLine : Text → Type 0
IsOneLine = All (λ c. c ≢ 10)

pub record Crypto : Type 0 where
  pub sha256 : Text → Text
  pub hmac_sha256 : Text → Text → Text
  pub sha256_one_line : (s : Text) → IsOneLine (sha256 s)
  pub hmac_one_line : (s k : Text) → IsOneLine (hmac_sha256 s k)

module _ (crypto : Crypto) where
  -- HashString: plain SHA-256 without a key, keyed otherwise.
  unfoldable pub hash_string : Text → Text → Text
  hash_string value key = if is_empty key then crypto.sha256 value else crypto.hmac_sha256 value key

  -- VerifySHA256String
  unfoldable pub verify_sha256_string : Text → Text → Bool
  verify_sha256_string value expected = crypto.sha256 value == expected

  pub hash_string-IsOneLine : (value key : Text) → IsOneLine (hash_string value key)
  unfolding hash_string
  hash_string-IsOneLine value [] = crypto.sha256_one_line value
  hash_string-IsOneLine value (c ∷ key) = crypto.hmac_one_line value (c ∷ key)
