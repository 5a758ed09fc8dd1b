-- ===== src/Applier/Owner.antt =====
-- Who is addressed by a conflict (addressing.go).
use jamsesh.Prelude.{
  ◌+◌, ◌++◌, ◌<◌, [], all, any, ap, arith, Bool, Bool-cases, false, inl, inr, leb, length, List,
  none, not, Option, Option-cases, refl, some, suc, sym, true, ◌||◌, ℕ, ◌∙◌, ◌∷◌, ◌≡◌,
}
use jamsesh.Applier.Address.{
  add_key, compute_addressed_to, History, is_empty, LogCommit, mark_changes, mark_commit, member,
  need_files, owner_parts, owner_set, parse_source_ref_owner, remove_key, Search, walk_log,
}
use jamsesh.Automerger.Merge.{Conflict}
use jamsesh.Go.Maps.{same_sym, same_trans}
use jamsesh.Go.Strings.{
  Bytes, codes, cut-append, cut_prefix, free_of, same, same_eq, same_refl, split_n,
}

abbrev pub changes_path : Bytes → Option Bytes → Bool
changes_path path none = false
changes_path path (some q) = same q path

-- The commit has a change at the path.
unfoldable pub touches : Bytes → LogCommit → Bool
unfolding any same
touches path c = elim c.changes [ none ↦ false | some chs ↦ any (changes_path path) chs ]

module _ (k : Bytes) where
  member-append : (s t : List Bytes) → member k (s ++ t) ≡ member k s || member k t
  unfolding member any
  member-append [] t = refl
  member-append (j ∷ s) t = ground (arith, member-append s t)

  member-add_self : (s : List Bytes) → member k (add_key k s) ≡ true
  unfolding add_key
  member-add_self s = elim (Bool-cases (member k s)) [
    | inl x ↦ rw (x) x
    | inr x ↦ rw (x) (rw (member-append s (k ∷ []), x) (unfold member any in rw (same_refl k) refl))
  ]

  member-add : (j : Bytes) (s : List Bytes) → member k s ≡ true → member k (add_key j s) ≡ true
  unfolding add_key
  member-add j s h = elim (Bool-cases (member j s)) [
    | inl x ↦ rw (x) h
    | inr x ↦ rw (x) (rw (member-append s (j ∷ []), h) refl)
  ]

  member-remove :
      (j : Bytes) (s : List Bytes)
      → same j k ≡ false
      → member k s ≡ true
      → member k (remove_key j s) ≡ true
  unfolding member any remove_key
  member-remove j [] n h = h
  member-remove j (i ∷ s) n h = elim (Bool-cases (same j i)) [
    | inl x ↦
        (let d : same k i ≡ false = same_sym k i ∙ same_trans j i k x ∙ n in
          rw (x) (member-remove j s n (ground (arith, h, d))))
    | inr x ↦ rw (x) (ground (arith, h, member-remove j s n))
  ]

  -- What was found stays found.
  mark_changes_keeps :
      (email : Bytes) (chs : List (Option Bytes)) (s : Search)
      → member k s.found ≡ true
      → member k (mark_changes email chs s).found ≡ true
  unfolding mark_changes
  mark_changes_keeps email [] s h = h
  mark_changes_keeps email (none ∷ chs) s h = mark_changes_keeps email chs s h
  mark_changes_keeps email (some path ∷ chs) s h = elim (Bool-cases (member path s.need)) [
    | inl x ↦
        rw (mark_changes, x)
          (mark_changes_keeps email chs
            (record { need = remove_key path s.need; found = add_key email s.found })
            (member-add email s.found h))
    | inr x ↦ rw (mark_changes, x) (mark_changes_keeps email chs s h)
  ]

  mark_commit_keeps :
      (c : LogCommit) (s : Search)
      → member k s.found ≡ true
      → member k (mark_commit c s).found ≡ true
  unfolding mark_commit
  mark_commit_keeps c s h = elim (Option-cases c.changes) [
    | inl x ↦ rw (mark_commit, x) h
    | inr (chs, x) ↦ rw (mark_commit, x) (mark_changes_keeps c.author_email chs s h)
  ]

  walk_log_keeps :
      (count : ℕ) (cs : List LogCommit) (fails : Bool) (s : Search)
      → member k s.found ≡ true
      → member k (walk_log count cs fails s).0 ≡ true
  unfolding walk_log
  walk_log_keeps count [] fails s h = h
  walk_log_keeps count (c ∷ cs) fails s h = elim (Bool-cases (leb 100 count || is_empty s.need)) [
    | inl x ↦ rw (x) h
    | inr x ↦
        rw (x) (walk_log_keeps (suc count) cs fails (mark_commit c s) (mark_commit_keeps c s h))
  ]

  -- A path that the changes leave alone is still needed.
  mark_changes_needs :
      (email : Bytes) (chs : List (Option Bytes)) (s : Search)
      → any (changes_path k) chs ≡ false
      → member k s.need ≡ true
      → member k (mark_changes email chs s).need ≡ true
  unfolding mark_changes any
  mark_changes_needs email [] s n h = h
  mark_changes_needs email (none ∷ chs) s n h = mark_changes_needs email chs s (ground (arith, n)) h
  mark_changes_needs email (some path ∷ chs) s n h = elim (Bool-cases (member path s.need)) [
    | inl x ↦
        rw (mark_changes, x)
          (mark_changes_needs email chs
            (record { need = remove_key path s.need; found = add_key email s.found })
            (ground (arith, n)) (member-remove path s.need (ground (arith, n)) h))
    | inr x ↦ rw (mark_changes, x) (mark_changes_needs email chs s (ground (arith, n)) h)
  ]

  mark_commit_needs :
      (c : LogCommit) (s : Search)
      → touches k c ≡ false
      → member k s.need ≡ true
      → member k (mark_commit c s).need ≡ true
  unfolding mark_commit touches
  mark_commit_needs c s n h = elim (Option-cases c.changes) [
    | inl x ↦ rw (mark_commit, x) h
    | inr (chs, x) ↦
        rw (mark_commit, x)
          (mark_changes_needs c.author_email chs s (sym (rw (touches, x) refl) ∙ n) h)
  ]

-- The author of a change at a needed path is found.
mark_changes_finds :
    (k email : Bytes) (chs : List (Option Bytes)) (s : Search)
    → any (changes_path k) chs ≡ true
    → member k s.need ≡ true
    → member email (mark_changes email chs s).found ≡ true
unfolding mark_changes any
mark_changes_finds k email [] s t h = cc
mark_changes_finds k email (none ∷ chs) s t h =
    mark_changes_finds k email chs s (ground (arith, t)) h
mark_changes_finds k email (some path ∷ chs) s t h = elim (Bool-cases (member path s.need)) [
  | inl x ↦
      rw (mark_changes, x)
        (mark_changes_keeps email email chs
          (record { need = remove_key path s.need; found = add_key email s.found })
          (member-add_self email s.found))
  | inr x ↦ (elim (Bool-cases (same path k)) [
    | inl y ↦ absurd (ground (arith, x, h, ap (λ r. member r s.need) (same_eq path k y)))
    | inr y ↦ rw (mark_changes, x) (mark_changes_finds k email chs s (ground (arith, t, y)) h)
  ])
]

mark_commit_finds :
    (k : Bytes) (c : LogCommit) (s : Search)
    → touches k c ≡ true
    → member k s.need ≡ true
    → member c.author_email (mark_commit c s).found ≡ true
unfolding mark_commit touches
mark_commit_finds k c s t h = elim (Option-cases c.changes) [
  | inl x ↦ absurd (ground (arith, t, x))
  | inr (chs, x) ↦
      rw (mark_commit, x)
        (mark_changes_finds k c.author_email chs s (sym (rw (touches, x) refl) ∙ t) h)
]

needed : (k : Bytes) (need : List Bytes) → member k need ≡ true → is_empty need ≡ false
unfolding member any
needed k [] h = cc
needed k (j ∷ need) h = refl

walk_log_finds :
    (k : Bytes) (count : ℕ) (before : List LogCommit) (c : LogCommit) (after : List LogCommit)
    (fails : Bool) (s : Search)
    → count + length before < 100
    → all (λ b. not (touches k b)) before ≡ true
    → touches k c ≡ true
    → member k s.need ≡ true
    → member c.author_email (walk_log count (before ++ c ∷ after) fails s).0 ≡ true
unfolding walk_log all
walk_log_finds k count [] c after fails s l n t h =
    let e : (leb 100 count || is_empty s.need) ≡ false = ground (arith, l, needed k s.need h) in
    rw (e) (
      walk_log_keeps c.author_email (suc count) after fails (mark_commit c s)
        (mark_commit_finds k c s t h))
walk_log_finds k count (b ∷ before) c after fails s l n t h =
    let e : (leb 100 count || is_empty s.need) ≡ false = ground (arith, l, needed k s.need h) in
    rw (e) (
      walk_log_finds k (suc count) before c after fails (mark_commit b s) (omega (arith, l))
        (ground (arith, n)) t (mark_commit_needs k b s (ground (arith, n)) h))

need-file :
    (cs : List Conflict) (c : Conflict)
    → any (λ d. same c.file d.file) cs ≡ true
    → member c.file (need_files cs) ≡ true
unfolding need_files any
need-file [] c h = cc
need-file (d ∷ cs) c h = elim (Bool-cases (same c.file d.file)) [
  | inl x ↦ rw (same_eq c.file d.file x) (member-add_self d.file (need_files cs))
  | inr x ↦ member-add c.file d.file (need_files cs) (need-file cs c (ground (arith, h, x)))
]

-- The set of computeAddressedTo has, for each file in conflict, the author of the newest commit of the
-- draft's history that changed it, as long as that is among the first 100 commits of the walk, whatever
-- else the walk finds and whether or not it fails behind that commit.
pub author_found :
    (before : List LogCommit) (c : LogCommit) (after : List LogCommit) (fails : Bool)
    (conflicts : List Conflict) (f : Conflict) (source_ref : Bytes)
    → any (λ d. same f.file d.file) conflicts ≡ true
    → length before < 100
    → all (λ b. not (touches f.file b)) before ≡ true
    → touches f.file c ≡ true
    → member c.author_email
        (compute_addressed_to
          (some (record { commits = before ++ c ∷ after; fails = fails }))
          conflicts
          source_ref).0
      ≡ true
unfolding compute_addressed_to any
author_found before c after fails [] f source_ref h l n t = cc
author_found before c after fails (d ∷ ds) f source_ref h l n t =
    walk_log_finds f.file 0 before c after fails
      (record { need = need_files (d ∷ ds); found = owner_set source_ref }) (omega (arith, l)) n t
      (need-file (d ∷ ds) f h)

split_n_four :
    (a b c d : Bytes)
    → free_of b'/' a ≡ true
    → free_of b'/' b ≡ true
    → free_of b'/' c ≡ true
    → split_n b'/' (a ++ b'/' ∷ (b ++ b'/' ∷ (c ++ b'/' ∷ d))) 4 ≡ a ∷ b ∷ c ∷ d ∷ []
unfolding split_n
split_n_four a b c d ha hb hc = ground (
  arith,
  cut-append b'/' a (b ++ b'/' ∷ (c ++ b'/' ∷ d)) ha,
  cut-append b'/' b (c ++ b'/' ∷ d) hb,
  cut-append b'/' c d hc,
)

owner_of :
    (session user branch : Bytes)
    → free_of b'/' session ≡ true
    → free_of b'/' user ≡ true
    → parse_source_ref_owner
        (codes "refs/heads/jam/" ++ (session ++ b'/' ∷ (user ++ b'/' ∷ branch)))
      ≡ some (codes "@" ++ (user ++ b'/' ∷ branch))
unfolding parse_source_ref_owner owner_parts cut_prefix same
owner_of session user branch hs hu =
    ap owner_parts (split_n_four (codes "jam") session user branch (unfold free_of in refl) hs hu)

owner_set_has :
    (o source_ref : Bytes)
    → parse_source_ref_owner source_ref ≡ some o
    → member o (owner_set source_ref) ≡ true
unfolding owner_set member any
owner_set_has o source_ref h = rw (owner_set, h) (rw (same_refl o) refl)

found_owner :
    (o : Bytes) (history : Option History) (conflicts : List Conflict) (source_ref : Bytes)
    → parse_source_ref_owner source_ref ≡ some o
    → member o (compute_addressed_to history conflicts source_ref).0 ≡ true
unfolding compute_addressed_to
found_owner o history conflicts source_ref h = go history conflicts
  where
    own : member o (owner_set source_ref) ≡ true
    own = owner_set_has o source_ref h

    go :
        (history : Option History) (conflicts : List Conflict)
        → member o (compute_addressed_to history conflicts source_ref).0 ≡ true
    go history [] = own
    go none (c ∷ cs) = own
    go (some t) (c ∷ cs) =
        walk_log_keeps o 0 t.commits t.fails
          (record { need = need_files (c ∷ cs); found = owner_set source_ref }) own

-- The set of computeAddressedTo always has the owner of the source ref, @<user>/<branch>, where neither
-- the session nor the user has a slash, whatever the walk finds and whether or not it fails.
pub addressed_owner :
    (session user branch : Bytes) (history : Option History) (conflicts : List Conflict)
    → free_of b'/' session ≡ true
    → free_of b'/' user ≡ true
    → member
        (codes "@" ++ (user ++ b'/' ∷ branch))
        (compute_addressed_to history conflicts
          (codes "refs/heads/jam/" ++ (session ++ b'/' ∷ (user ++ b'/' ∷ branch)))).0
      ≡ true
addressed_owner session user branch history conflicts hs hu =
    found_owner (codes "@" ++ (user ++ b'/' ∷ branch)) history conflicts
      (codes "refs/heads/jam/" ++ (session ++ b'/' ∷ (user ++ b'/' ∷ branch)))
      (owner_of session user branch hs hu)
