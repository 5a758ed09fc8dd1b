-- ===== src/Automerger/Paths.antt =====
-- The turns of the loop of applyChangesPerPath (merge.go), and the loop.
use jamsesh.Prelude.{
  ◌++◌, [], arith, Bool-cases, false, if◌then◌else◌, inl, inr, List, Option, Option-cases, pos,
  refl, some, true, ◌||◌, ℕ, ℤ, ◌∷◌, ◌≡◌,
}
use jamsesh.Automerger.Additions.{eq_ℤ}
use jamsesh.Automerger.Conflicts.{parse_conflict_ranges}
use jamsesh.Automerger.Merge.{
  accept, Conflict, ConflictedFile, merge_contents, merge_file_content, MergeState, record_conflict,
  SideChange, TreeEntry, write_merged,
}
use jamsesh.Automerger.Outcome.{conflict_in, file_in, Later, taken_entry}
use jamsesh.Automerger.Repo.{Repo, RepoLaws, Tools}
use jamsesh.Go.Maps.{get, get-delete, get-put, Map, put}
use jamsesh.Go.Strings.{Bytes, same, same_refl}

pub conflict_in-append :
    (p : Bytes) (xs ys : List Conflict)
    → conflict_in p (xs ++ ys) ≡ (conflict_in p xs || conflict_in p ys)
unfolding conflict_in
conflict_in-append p [] ys = refl
conflict_in-append p (x ∷ xs) ys = ground (arith, conflict_in-append p xs ys)

file_in-append :
    (p b o t : Bytes) (xs ys : List ConflictedFile)
    → file_in p b o t (xs ++ ys) ≡ (file_in p b o t xs || file_in p b o t ys)
unfolding file_in
file_in-append p b o t [] ys = refl
file_in-append p b o t (x ∷ xs) ys = ground (arith, file_in-append p b o t xs ys)

pub get-accept :
    (m : Map TreeEntry) (p : Bytes) (c : SideChange) (q : Bytes)
    → get (accept m p c) q ≡ (if same p q then taken_entry c else get m q)
unfolding accept taken_entry
get-accept m p c q = elim (Bool-cases c.deleted) [
  | inl e ↦ rw e (get-delete m p q)
  | inr e ↦ rw e (get-put m p (record { hash = c.to_hash; mode = c.mode }) q)
]

module _ (r : Repo) (laws : RepoLaws r) (tools : Tools) where
  -- What a write of a merged file leaves.
  record Written (s : r.State) (st : MergeState) (p : Bytes) (mode : ℕ) (merged : Bytes)
      (st' : MergeState) : Type 0 where
    new_hash : ℕ
    wrote : (r.write_blob s merged).0 ≡ some new_hash
    state : st' ≡ record st {
      merged_entries = put st.merged_entries p (record { hash = new_hash; mode = mode });
    }

  write_merged-Written :
      (s : r.State) (st : MergeState) (p : Bytes) (mode : ℕ) (merged : Bytes) (st' : MergeState)
      → (write_merged r tools s st p mode merged).0 ≡ some st'
      → (Written s st p mode merged st')
        × ((write_merged r tools s st p mode merged).1 ≡ (r.write_blob s merged).1)
  unfolding write_merged
  write_merged-Written s st p mode merged st' e = elim (Option-cases (r.write_blob s merged).0) [
    | inl q ↦ absurd (ground (arith, q, e))
    | inr (h, q) ↦ (record { new_hash = h; wrote = q; state = ground (arith, q, e) }, refl)
  ]

  -- The other paths keep what they have.
  Written-others :
      (s : r.State) (st : MergeState) (p : Bytes) (mode : ℕ) (merged : Bytes) (st' : MergeState)
      → Written s st p mode merged st'
      → (base : Option TreeEntry) (q : Bytes) → same p q ≡ false
      → Later r tools base q s st (r.write_blob s merged).1 st'
  Written-others s st p mode merged st' w base q n = record {
    same_entry =
        rw (w.state, get-put st.merged_entries p (record { hash = w.new_hash; mode = mode }) q, n);
    conflict_kept = λ h. rw w.state h;
    file_kept = λ b o t h. rw w.state h;
    blob_kept = λ h c k. laws.kept s merged h c k;
  }

  abbrev pub Others : (p : Bytes) → r.State → MergeState → r.State → MergeState → Type 0
  Others p s st s' st' =
      (base : Option TreeEntry) (q : Bytes) → same p q ≡ false → Later r tools base q s st s' st'

  -- What merge_contents leaves when the tool ran and the blob was written.
  pub record Contents (s : r.State) (st : MergeState) (p : Bytes) (mode : ℕ) (b o t : Bytes)
      (s' : r.State) (st' : MergeState) : Type 0 where
    pub merged : Bytes
    pub conflicts : ℤ
    pub tool : tools.merge_file b o t ≡ some (merged, conflicts)
    pub new_hash : ℕ
    pub entry : get st'.merged_entries p ≡ some (record { hash = new_hash; mode = mode })
    pub stored : r.read_blob s' new_hash ≡ some merged
    pub recorded : (eq_ℤ conflicts (pos 0) || file_in p b o t st'.conflicted_files) ≡ true
    pub others : Others p s st s' st'
    pub blobs : (h : ℕ) (c : Bytes) → r.read_blob s h ≡ some c → r.read_blob s' h ≡ some c

  recorded_file :
      (st : MergeState) (p : Bytes) (mode : ℕ) (b o t merged : Bytes)
      → file_in p b o t (record_conflict r tools st p mode b o t merged).conflicted_files ≡ true
  unfolding record_conflict file_in
  recorded_file st p mode b o t merged =
      rw
        (file_in-append p b o t st.conflicted_files (
          record {
            path = p;
            base = b;
            ours = o;
            theirs = t;
            mode = mode;
            ranges = parse_conflict_ranges merged;
          }
          ∷ []))
        (ground (arith, same_refl p, same_refl b, same_refl o, same_refl t))

  -- The file that a conflict records changes no entry.
  record_conflict-Others :
      (st : MergeState) (p : Bytes) (mode : ℕ) (b o t merged : Bytes) (s s' : r.State)
      (st' : MergeState)
      → Others p s (record_conflict r tools st p mode b o t merged) s' st'
      → Others p s st s' st'
  unfolding record_conflict
  record_conflict-Others st p mode b o t merged s s' st' v base q n = record {
    same_entry = (v base q n).same_entry;
    conflict_kept = (v base q n).conflict_kept;
    file_kept = λ b' o' t' h. (v base q n).file_kept b' o' t' (
        rw
          (file_in-append q b' o' t' st.conflicted_files (
            record {
              path = p;
              base = b;
              ours = o;
              theirs = t;
              mode = mode;
              ranges = parse_conflict_ranges merged;
            }
            ∷ []))
          (ground (arith, h)));
    blob_kept = (v base q n).blob_kept;
  }

  Written-entry :
      (s : r.State) (st : MergeState) (p : Bytes) (mode : ℕ) (merged : Bytes) (st' : MergeState)
      (w : Written s st p mode merged st')
      → get st'.merged_entries p ≡ some (record { hash = w.new_hash; mode = mode })
  Written-entry s st p mode merged st' w = rw (
    w.state,
    get-put st.merged_entries p (record { hash = w.new_hash; mode = mode }) p,
    same_refl p,
  )

  Written-Contents :
      (s : r.State) (st st0 : MergeState) (p : Bytes) (mode : ℕ) (b o t merged : Bytes) (n : ℤ)
      (st' : MergeState)
      → tools.merge_file b o t ≡ some (merged, n)
      → Written s st0 p mode merged st'
      → (eq_ℤ n (pos 0) || file_in p b o t st0.conflicted_files) ≡ true
      → (Others p s st0 (r.write_blob s merged).1 st' → Others p s st (r.write_blob s merged).1 st')
      → Contents s st p mode b o t (r.write_blob s merged).1 st'
  Written-Contents s st st0 p mode b o t merged n st' q w rec k = record {
    merged = merged;
    conflicts = n;
    tool = q;
    new_hash = w.new_hash;
    entry = Written-entry s st0 p mode merged st' w;
    stored = laws.written s merged w.new_hash w.wrote;
    recorded = rw (w.state) rec;
    others = k (λ base q n. Written-others s st0 p mode merged st' w base q n);
    blobs = λ h c e. laws.kept s merged h c e;
  }

  pub merge_contents-Contents :
      (s : r.State) (st : MergeState) (p : Bytes) (mode : ℕ) (b o t : Bytes) (st' : MergeState)
      → (merge_contents r tools s st p mode b o t).0 ≡ some st'
      → Contents s st p mode b o t (merge_contents r tools s st p mode b o t).1 st'
  unfolding merge_contents merge_file_content
  merge_contents-Contents s st p mode b o t st' e = elim (Option-cases (tools.merge_file b o t)) [
    | inl q ↦ absurd (ground (arith, q, e))
    | inr ((merged, n), q) ↦ (elim (Bool-cases (eq_ℤ n (pos 0))) [
      | inl z ↦
          (let u = write_merged-Written s st p mode merged st' (ground (arith, q, z, e)) in
            rw (merge_contents, q, z, u.1)
              (Written-Contents s st st p mode b o t merged n st' q u.0 (rw z) (λ v. v)))
      | inr z ↦
          (let st0 = record_conflict r tools st p mode b o t merged in
            let u = write_merged-Written s st0 p mode merged st' (ground (arith, q, z, e)) in
            rw (merge_contents, q, z, u.1)
              (Written-Contents s st st0 p mode b o t merged n st' q u.0
                (rw (z) (recorded_file st p mode b o t merged))
                (record_conflict-Others st p mode b o t merged s (r.write_blob s merged).1 st')))
    ])
  ]
