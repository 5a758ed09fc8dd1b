-- ===== src/Finalize/Escape.antt =====
-- internal/portal/finalize/escape.go: quoting for the generated script, and the shape checks of a target
-- branch and a base SHA. The regular expressions are written out as tests on bytes.
use jamsesh.Prelude.{
  ◌&&◌, ◌++◌, ◌==◌, [], all, Bool, false, if◌then◌else◌, leb, length, ◌||◌, ℕ, ◌∷◌,
}
use jamsesh.Go.Strings.{Bytes, codes, contains}

unfoldable pub escape_quotes : Bytes → Bytes
escape_quotes [] = []
escape_quotes (c ∷ s) = (if c == 39 then 39 ∷ 92 ∷ 39 ∷ 39 ∷ [] else c ∷ []) ++ escape_quotes s

unfoldable pub shellquote : Bytes → Bytes
unfolding escape_quotes
shellquote s = 39 ∷ (escape_quotes s ++ 39 ∷ [])

-- [A-Za-z0-9._/]
unfoldable pub is_branch_start : ℕ → Bool
is_branch_start c =
    (leb b'A' c && leb c b'Z')
    || (leb b'a' c && leb c b'z')
    || (leb b'0' c && leb c b'9')
    || c == b'.'
    || c == b'_'
    || c == b'/'

-- [A-Za-z0-9._/-]
unfoldable pub is_branch_byte : ℕ → Bool
unfolding is_branch_start
is_branch_byte c = is_branch_start c || c == b'-'

-- reTargetBranch
unfoldable pub matches_target_branch : Bytes → Bool
matches_target_branch [] = false
matches_target_branch (c ∷ s) = is_branch_start c && all is_branch_byte s

unfoldable pub validate_target_branch : Bytes → Bool
unfolding matches_target_branch
validate_target_branch [] = false
validate_target_branch (c ∷ s) =
    if c == b'-'
    then false
    else if contains (c ∷ s) (codes "..")
    then false
    else matches_target_branch (c ∷ s)

-- [a-f0-9]
unfoldable pub is_sha_byte : ℕ → Bool
is_sha_byte c = (leb b'a' c && leb c b'f') || (leb b'0' c && leb c b'9')

-- reBaseSHA
unfoldable pub validate_base_sha : Bytes → Bool
unfolding is_sha_byte
validate_base_sha sha = all is_sha_byte sha && length sha == 40
