-- ===== src/Router/Extract.antt =====
-- internal/router/extract/extract.go. The header Jam-Session-Id is an argument, empty where it is missing.
use jamsesh.Prelude.{◌==◌, [], Bool, if◌then◌else◌, none, Option, some, ◌||◌, ◌∷◌}
use jamsesh.Go.Strings.{Bytes, codes, cut, cut_prefix, has_prefix, same}

-- The slice without a last slash.
unfoldable pub strip_last : Bytes → Bytes
strip_last [] = []
strip_last (c ∷ []) = if c == b'/' then [] else c ∷ []
strip_last (c ∷ (d ∷ s)) = c ∷ strip_last (d ∷ s)

-- One trailing slash goes, unless it is the whole path.
unfoldable pub strip_slash : Bytes → Bytes
unfolding strip_last
strip_slash [] = []
strip_slash (c ∷ []) = c ∷ []
strip_slash (c ∷ (d ∷ s)) = c ∷ strip_last (d ∷ s)

-- What stands before the next slash.
unfoldable pub segment : Bytes → Bytes
segment s = elim (cut b'/' s) [ none ↦ s | some (a, b) ↦ a ]

-- strings.TrimSuffix behind strings.HasSuffix.
unfoldable pub cut_suffix : Bytes → Bytes → Option Bytes
unfolding same
cut_suffix [] t = if same [] t then some [] else none
cut_suffix (c ∷ s) t =
    let rest = cut_suffix s t in
    if same (c ∷ s) t then some [] else (elim rest [ none ↦ none | some r ↦ some (c ∷ r) ])

-- extractRESTSessionID
unfoldable pub extract_rest_session_id : Bytes → Bytes
unfolding cut_prefix segment
extract_rest_session_id path = elim (cut_prefix path (codes "/api/orgs/")) [
  | none ↦ []
  | some rest ↦ elim (cut b'/' rest) [
    | none ↦ []
    | some (org, rest') ↦ elim (cut_prefix rest' (codes "sessions/")) [
      | none ↦ []
      | some id ↦ segment id
    ]
  ]
]

-- extractWSSessionID, on a path with its prefix.
unfoldable pub extract_ws_session_id : Bytes → Bytes
unfolding cut_prefix segment
extract_ws_session_id path = elim (cut_prefix path (codes "/ws/sessions/")) [
  | none ↦ []
  | some id ↦ segment id
]

-- extractGitSessionID, on a path with its prefix.
unfoldable pub extract_git_session_id : Bytes → Bytes
unfolding cut_prefix segment cut_suffix
extract_git_session_id path = elim (cut_prefix path (codes "/git/")) [
  | none ↦ []
  | some rest ↦ elim (cut b'/' rest) [
    | none ↦ []
    | some (org, rest') ↦ elim (cut_suffix (segment rest') (codes ".git")) [
      | none ↦ []
      | some id ↦ id
    ]
  ]
]

unfoldable pub is_system : Bytes → Bool
unfolding same has_prefix
is_system p =
    same p (codes "/healthz")
    || same p (codes "/readyz")
    || same p (codes "/metrics")
    || has_prefix p (codes "/metrics/")
    || same p (codes "/auth")
    || has_prefix p (codes "/auth/")

-- The switch of SessionID, on the stripped path.
unfoldable pub route : Bytes → Bytes → Bytes
unfolding is_system has_prefix extract_rest_session_id extract_ws_session_id extract_git_session_id
route p header =
    if is_system p
    then []
    else if has_prefix p (codes "/api/")
    then extract_rest_session_id p
    else if has_prefix p (codes "/ws/sessions/")
    then extract_ws_session_id p
    else if has_prefix p (codes "/git/")
    then extract_git_session_id p
    else header

-- SessionID
unfoldable pub session_id : Bytes → Bytes → Bytes
unfolding strip_slash route
session_id path header = route (strip_slash path) header
