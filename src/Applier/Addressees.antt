-- ===== src/Applier/Addressees.antt =====
-- Whom the conflict event of applyConflict (outcomes.go) is addressed to.
use jamsesh.Prelude.{
  ◌++◌, ◌<◌, ◌∷◌, ◌≡◌, all, ap, any, Bool-cases, false, inl, inr, leb, length, List, not, refl,
  some, suc, true, ◌||◌, ℕ, ◌∙◌,
}
use jamsesh.Applier.Address.{
  compute_addressed_to, is_empty, LogCommit, mark_commit, member, Search, walk_log,
}
use jamsesh.Applier.Apply.{
  addressees, ApplyInput, Circumstances, Git, new_conflict, Payload, Portal,
}
use jamsesh.Applier.Owner.{author_found, touches}
use jamsesh.Automerger.Merge.{Conflict}
use jamsesh.Go.Strings.{Bytes, same}
use mathlib.Core.List.{[]}

walk_log_ok : (count : ℕ) (cs : List LogCommit) (s : Search) → (walk_log count cs false s).1 ≡ true
unfolding walk_log
walk_log_ok count [] s = refl
walk_log_ok count (c ∷ cs) s = elim (Bool-cases (leb 100 count || is_empty s.need)) [
  | inl x ↦ rw (walk_log, x) refl
  | inr x ↦ rw (walk_log, x) (walk_log_ok (suc count) cs (mark_commit c s))
]

computed_ok :
    (cs : List LogCommit) (conflicts : List Conflict) (source_ref : Bytes)
    → (compute_addressed_to (some (record { commits = cs; fails = false })) conflicts source_ref).1
      ≡ true
unfolding compute_addressed_to
computed_ok cs [] source_ref = refl
computed_ok cs (d ∷ ds) source_ref = walk_log_ok 0 cs _

module _ (g : Git) (hex : ℕ → Bytes) (marshal : Payload → ℕ) (sort : List Bytes → List Bytes) where
  addressees_computed :
      (inp : ApplyInput) (conflicts : List Conflict) (p : Portal g.repo.State)
      → (compute_addressed_to (g.log p.git inp.draft_tip) conflicts inp.source_ref).1 ≡ true
      → addressees g hex marshal sort inp conflicts p
        ≡ sort (compute_addressed_to (g.log p.git inp.draft_tip) conflicts inp.source_ref).0
  unfolding addressees
  addressees_computed inp conflicts p h = rw (addressees, h) refl

  -- Where the walk over the draft's history meets no error, the conflict event is addressed, for each file
  -- in conflict, to the author of the newest commit of that history that changed the file, as long as that
  -- is among the first 100 commits of the walk. It relies on sort.Strings to keep what it sorts.
  pub addressed_author :
      ((k : Bytes) (s : List Bytes) → member k s ≡ true → member k (sort s) ≡ true)
      → (circ : Circumstances) (inp : ApplyInput) (p : Portal g.repo.State)
        (before : List LogCommit) (c : LogCommit) (after : List LogCommit)
        (conflicts : List Conflict) (f : Conflict)
      → g.log p.git inp.draft_tip ≡ some (record { commits = before ++ c ∷ after; fails = false })
      → any (λ d. same f.file d.file) conflicts ≡ true
      → length before < 100
      → all (λ b. not (touches f.file b)) before ≡ true
      → touches f.file c ≡ true
      → member c.author_email (new_conflict g hex marshal sort circ inp conflicts p).addressed_to
        ≡ true
  unfolding new_conflict
  addressed_author keeps circ inp p before c after conflicts f e h l n t =
      let ok =
        ap (λ u. (compute_addressed_to u conflicts inp.source_ref).1) e
        ∙ computed_ok (before ++ c ∷ after) conflicts inp.source_ref in
      let found =
        ap (λ u. member c.author_email (compute_addressed_to u conflicts inp.source_ref).0) e
        ∙ author_found before c after false conflicts f inp.source_ref h l n t in
      ap (member c.author_email) (addressees_computed inp conflicts p ok)
      ∙ keeps c.author_email
          (compute_addressed_to (g.log p.git inp.draft_tip) conflicts inp.source_ref).0 found
