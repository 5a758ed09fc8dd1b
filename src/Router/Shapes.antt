-- ===== src/Router/Shapes.antt =====
-- The session id of a URL of each of the fixed shapes (extract.go).
use jamsesh.Prelude.{
  ◌++◌, [], ap, arith, Bool-cases, inl, inr, length, length-append, refl, some, true, ℕ, ◌∙◌, ◌∷◌,
  ◌≡◌, ◌≤◌,
}
use jamsesh.Go.Strings.{
  Bytes, codes, cut-append, cut_free, cut_prefix, cut_prefix-append, free_of, has_prefix, same,
  same_eq, same_refl,
}
use jamsesh.Router.Extract.{
  cut_suffix, extract_git_session_id, extract_rest_session_id, is_system, route, segment,
  session_id, strip_last, strip_slash,
}
use mathlib.Core.List.{append-nil}

strip_last-append : (s t : Bytes) → 1 ≤ length t → strip_last (s ++ t) ≡ s ++ strip_last t
unfolding strip_last
strip_last-append [] t h = refl
strip_last-append (b ∷ []) [] h = absurd (omega arith)
strip_last-append (b ∷ []) (c ∷ x) h = refl
strip_last-append (b ∷ (d ∷ s)) t h = ap (◌∷◌ b) (strip_last-append (d ∷ s) t h)

strip_last_free : (s : Bytes) → free_of b'/' s ≡ true → strip_last s ≡ s
unfolding strip_last free_of
strip_last_free [] h = refl
strip_last_free (c ∷ []) h = ground arith
strip_last_free (c ∷ (d ∷ s)) h = ground (arith, strip_last_free (d ∷ s))

cut_suffix-append : (s t : Bytes) → cut_suffix (s ++ t) t ≡ some s
unfolding cut_suffix
cut_suffix-append [] [] = unfold same in refl
cut_suffix-append [] (d ∷ t) = ground (arith, same_refl (d ∷ t))
cut_suffix-append (c ∷ s) t = elim (Bool-cases (same (c ∷ (s ++ t)) t)) [
  | inl e ↦ absurd (omega (arith, ap length (same_eq (c ∷ (s ++ t)) t e), length-append s t))
  | inr e ↦ rw (e, cut_suffix-append s t) refl
]

segment_free : (s : Bytes) → free_of b'/' s ≡ true → segment s ≡ s
unfolding segment
segment_free s h = ground (arith, cut_free b'/' s h)

segment_slash : (s rest : Bytes) → free_of b'/' s ≡ true → segment (s ++ b'/' ∷ rest) ≡ s
unfolding segment
segment_slash s rest h = ground (arith, cut-append b'/' s rest h)

abbrev pub rest_path : Bytes → Bytes → Bytes
rest_path org tail = codes "/api/orgs/" ++ (org ++ b'/' ∷ (codes "sessions/" ++ tail))

extract_rest_tail :
    (org tail : Bytes)
    → free_of b'/' org ≡ true
    → extract_rest_session_id (rest_path org tail) ≡ segment tail
unfolding extract_rest_session_id
extract_rest_tail org tail h = ground (
  arith,
  cut_prefix-append (codes "/api/orgs/") (org ++ b'/' ∷ (codes "sessions/" ++ tail)),
  cut-append b'/' org (codes "sessions/" ++ tail) h,
  cut_prefix-append (codes "sessions/") tail,
)

route_rest :
    (org tail header : Bytes)
    → route (rest_path org tail) header ≡ extract_rest_session_id (rest_path org tail)
unfolding route is_system same has_prefix cut_prefix
route_rest org tail header = refl

abbrev pub git_path : Bytes → Bytes → Bytes
git_path org tail = codes "/git/" ++ (org ++ b'/' ∷ tail)

route_git :
    (org tail header : Bytes)
    → route (git_path org tail) header ≡ extract_git_session_id (git_path org tail)
unfolding route is_system same has_prefix cut_prefix
route_git org tail header = refl

strip_slash_rest :
    (org tail : Bytes)
    → 1 ≤ length tail
    → strip_slash (rest_path org tail) ≡ rest_path org (strip_last tail)
unfolding strip_slash
strip_slash_rest org tail h =
    ap (λ u. b'/' ∷ u)
      (strip_last-append (codes "api/orgs/") (org ++ b'/' ∷ (codes "sessions/" ++ tail))
          (omega (arith, length-append org (b'/' ∷ (codes "sessions/" ++ tail))))
        ∙ ap (λ u. codes "api/orgs/" ++ u)
            (strip_last-append org (b'/' ∷ (codes "sessions/" ++ tail)) (omega arith)
              ∙ ap (λ u. org ++ u) (strip_last-append (codes "/sessions/") tail h)))

session_id_tail :
    (org tail header : Bytes)
    → free_of b'/' org ≡ true
    → 1 ≤ length tail
    → session_id (rest_path org tail) header ≡ segment (strip_last tail)
unfolding session_id
session_id_tail org tail header h l =
    ap (λ u. route u header) (strip_slash_rest org tail l)
    ∙ route_rest org (strip_last tail) header
    ∙ extract_rest_tail org (strip_last tail) h

-- A REST path names its session, whether or not a slash follows, and a resource below the session
-- belongs to the same session: /api/orgs/{org}/sessions/{id}, the organisation and the id without slashes,
-- and the id not empty.
pub session_id_rest :
    (org id header : Bytes) (c : ℕ) (below : Bytes)
    → free_of b'/' org ≡ true
    → free_of b'/' id ≡ true
    → 1 ≤ length id
    → (session_id (rest_path org id) header ≡ id)
      × (session_id (rest_path org (id ++ b'/' ∷ [])) header ≡ id)
      × (session_id (rest_path org (id ++ b'/' ∷ (c ∷ below))) header ≡ id)
session_id_rest org id header c below ho hi l = (
  session_id_tail org id header ho l ∙ ap segment (strip_last_free id hi) ∙ segment_free id hi,
  session_id_tail org (id ++ b'/' ∷ []) header ho (omega (arith, length-append id (b'/' ∷ [])))
      ∙ ap segment (strip_last-append id (b'/' ∷ []) (omega arith) ∙ slash_gone id)
      ∙ segment_free id hi,
  session_id_tail org (id ++ b'/' ∷ (c ∷ below)) header ho
        (omega (arith, length-append id (b'/' ∷ (c ∷ below))))
      ∙ ap segment (strip_last-append id (b'/' ∷ (c ∷ below)) (omega arith) ∙ kept)
      ∙ segment_slash id (strip_last (c ∷ below)) hi,
)
  where
    slash_gone : (s : Bytes) → s ++ strip_last (b'/' ∷ []) ≡ s
    slash_gone s = unfold strip_last in append-nil s

    kept : id ++ strip_last (b'/' ∷ (c ∷ below)) ≡ id ++ b'/' ∷ strip_last (c ∷ below)
    kept = unfold strip_last in refl

strip_slash_git :
    (org tail : Bytes)
    → 1 ≤ length tail
    → strip_slash (git_path org tail) ≡ git_path org (strip_last tail)
unfolding strip_slash
strip_slash_git org tail h =
    ap (λ u. b'/' ∷ u)
      (strip_last-append (codes "git/") (org ++ b'/' ∷ tail)
          (omega (arith, length-append org (b'/' ∷ tail)))
        ∙ ap (λ u. codes "git/" ++ u)
            (strip_last-append org (b'/' ∷ tail) (omega arith)
              ∙ ap (λ u. org ++ u) (strip_last-append (codes "/") tail h)))

extract_git_tail :
    (org id tail : Bytes)
    → free_of b'/' org ≡ true
    → segment tail ≡ id ++ codes ".git"
    → extract_git_session_id (git_path org tail) ≡ id
unfolding extract_git_session_id
extract_git_tail org id tail h e = ground (
  arith,
  cut_prefix-append (codes "/git/") (org ++ b'/' ∷ tail),
  cut-append b'/' org tail h,
  cut_suffix-append id (codes ".git"),
)

free_of-append :
    (c : ℕ) (s t : Bytes) → free_of c s ≡ true → free_of c t ≡ true → free_of c (s ++ t) ≡ true
unfolding free_of
free_of-append c [] t h k = k
free_of-append c (d ∷ s) t h k = ground (arith, free_of-append c s t)

-- A git path, /git/{org}/{id}.git with or without something below it, names its session, where the
-- organisation and the id have no slashes.
pub session_id_git :
    (org id header : Bytes) (c : ℕ) (below : Bytes)
    → free_of b'/' org ≡ true
    → free_of b'/' id ≡ true
    → (session_id (git_path org (id ++ codes ".git")) header ≡ id)
      × (session_id (git_path org ((id ++ codes ".git") ++ b'/' ∷ (c ∷ below))) header ≡ id)
unfolding session_id
session_id_git org id header c below ho hi = (
  ap (λ u. route u header)
        (strip_slash_git org repo (omega (arith, length-append id (codes ".git")))
          ∙ ap (git_path org) (strip_last_free repo repo_free))
      ∙ route_git org repo header
      ∙ extract_git_tail org id repo ho (segment_free repo repo_free),
  ap (λ u. route u header)
        (strip_slash_git org (repo ++ b'/' ∷ (c ∷ below))
            (omega (arith, length-append repo (b'/' ∷ (c ∷ below))))
          ∙ ap (git_path org) (strip_last-append repo (b'/' ∷ (c ∷ below)) (omega arith) ∙ kept))
      ∙ route_git org (repo ++ b'/' ∷ strip_last (c ∷ below)) header
      ∙ extract_git_tail org id (repo ++ b'/' ∷ strip_last (c ∷ below)) ho
          (segment_slash repo (strip_last (c ∷ below)) repo_free),
)
  where
    repo : Bytes
    repo = id ++ codes ".git"

    repo_free : free_of b'/' repo ≡ true
    repo_free = free_of-append b'/' id (codes ".git") hi (unfold free_of in refl)

    kept : repo ++ strip_last (b'/' ∷ (c ∷ below)) ≡ repo ++ b'/' ∷ strip_last (c ∷ below)
    kept = unfold strip_last in refl
