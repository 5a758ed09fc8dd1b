-- ===== src/Prereceive/Namespace.antt =====
-- Which refs checkRefNamespace lets a user write.
use jamsesh.Prelude.{
  sym, subst, All, Bool-cases, any, some, ◌++◌, [], ap, arith, false, inl, inr, List, Option-cases,
  refl, true, ℕ, ◌↔◌, ◌∙◌, ◌∷◌, ◌≡◌, ◌≢◌,
}
use jamsesh.Go.Strings.{
  Bytes, codes, cut, cut_eq, cut_prefix, cut_prefix-append, cut_prefix_eq, free_of, same, same_iff,
  same_refl, split_n, split_n_three, split_n_two,
}
use jamsesh.Prereceive.Refs.{
  is_concrete, check_parts, check_ref_namespace, jam_prefix, ref_segment_safe, repo_is_empty,
  surely,
}
use jamsesh.Prereceive.Repo.{concrete, RefKind, Repo, symbolic}
use jamsesh.Prereceive.Traversal.{
  NoTraversal, NoTraversal-ref_segment_safe, ref_segment_safe-NoTraversal,
}

-- The ref of a user's branch.
abbrev pub user_ref : Bytes → Bytes → Bytes → Bytes
user_ref session account branch = jam_prefix ++ (session ++ b'/' ∷ (account ++ b'/' ∷ branch))

check_parts_user :
    (repo : Repo) (session account : Bytes) (parts : List Bytes)
    → check_parts repo session account parts ≡ (true, false)
    → (branch : Bytes) × (rest : List Bytes) × (parts ≡ session ∷ account ∷ branch ∷ rest)
      × (branch ≢ [])
      × (ref_segment_safe branch ≡ true)
unfolding check_parts
check_parts_user repo session account [] h = absurd (ground arith)
check_parts_user repo session account (s ∷ []) h = absurd (ground arith)
check_parts_user repo session account (s ∷ (o ∷ [])) h = absurd (ground arith)
check_parts_user repo session account (s ∷ (o ∷ (b ∷ bs))) h = (
  b,
  bs,
  ground (arith, same_iff s session, same_iff o account),
  ground (arith, same_iff b []),
  ground arith,
)

split_n_parts :
    (sep : ℕ) (s a b c : Bytes) (rest : List Bytes)
    → split_n sep s 3 ≡ a ∷ b ∷ c ∷ rest
    → s ≡ a ++ sep ∷ (b ++ sep ∷ c)
unfolding split_n
split_n_parts sep s a b c rest h = elim (Option-cases (cut sep s)) [
  | inl e ↦ absurd (ground (arith))
  | inr ((x, y), e) ↦ elim (Option-cases (cut sep y)) [
    | inl e' ↦ absurd (ground (arith))
    | inr ((z, w), e') ↦ ground (arith, cut_eq sep s x y e, cut_eq sep y z w e')
  ]
]

check_parts_accepts :
    (repo : Repo) (session account branch : Bytes)
    → branch ≢ []
    → ref_segment_safe branch ≡ true
    → check_parts repo session account (session ∷ account ∷ branch ∷ []) ≡ (true, false)
unfolding check_parts
check_parts_accepts repo session account branch n s =
    ground (arith, same_refl session, same_refl account, same_iff branch [])

check_ref_namespace_user :
    (repo : Repo) (session account ref : Bytes)
    → check_ref_namespace repo session account ref ≡ (true, false)
    → (branch : Bytes) × (ref ≡ user_ref session account branch)
      × (branch ≢ [])
      × (ref_segment_safe branch ≡ true)
unfolding check_ref_namespace
check_ref_namespace_user repo session account ref h =
    elim (Option-cases (cut_prefix ref jam_prefix)) [
      | inl e ↦ absurd (ground arith)
      | inr (rest, e) ↦
          (let (branch, more, parts, n, s) =
              check_parts_user repo session account (split_n b'/' rest 3) (ground arith) in
            (
              branch,
              cut_prefix_eq ref jam_prefix rest e
                  ∙ ap (◌++◌ jam_prefix)
                      (split_n_parts b'/' rest session account branch more parts),
              n,
              s,
            ))
    ]

-- A ref is accepted as a user's own exactly when it is refs/heads/jam/<session>/<account>/<branch> for
-- the session and the account at hand (neither of which holds a slash) and a branch that is not empty
-- and has none of "..", "%2e%2e" and "%252e", the last two in upper or lower case.
pub check_ref_namespace_iff :
    (repo : Repo) (session account ref : Bytes)
    → free_of b'/' session ≡ true
    → free_of b'/' account ≡ true
    → (check_ref_namespace repo session account ref ≡ (true, false)) ↔ (
        (branch : Bytes) × (ref ≡ user_ref session account branch)
        × (branch ≢ [])
        × NoTraversal branch)
unfolding check_ref_namespace
check_ref_namespace_iff repo session account ref hs ha = (
  λ h.
      let (branch, e, n, t) = check_ref_namespace_user repo session account ref h in
      (branch, e, n, ref_segment_safe-NoTraversal branch t),
  back,
)
  where
    back :
        ((branch : Bytes) × (ref ≡ user_ref session account branch)
          × (branch ≢ [])
          × NoTraversal branch)
        → check_ref_namespace repo session account ref ≡ (true, false)
    back (branch, e, n, t) = ground (
      arith,
      cut_prefix-append jam_prefix (session ++ b'/' ∷ (account ++ b'/' ∷ branch)),
      split_n_three b'/' session account branch hs ha,
      check_parts_accepts repo session account branch n (NoTraversal-ref_segment_safe branch t),
    )

-- The base ref, refs/heads/jam/<session>/base.
abbrev pub base_ref : Bytes → Bytes
base_ref session = jam_prefix ++ (session ++ codes "/base")

check_parts_base :
    (repo : Repo) (session account : Bytes)
    → check_parts repo session account (session ∷ codes "base" ∷ [])
      ≡ (surely (repo_is_empty repo), true)
unfolding check_parts same
check_parts_base repo session account = ground (arith, same_refl session)

-- For a session id without a slash, the base ref is writable exactly while the repository is known to hold
-- no ref but symbolic ones.
pub check_ref_namespace_base :
    (repo : Repo) (session account : Bytes)
    → free_of b'/' session ≡ true
    → check_ref_namespace repo session account (base_ref session)
      ≡ (surely (repo_is_empty repo), true)
unfolding check_ref_namespace
check_ref_namespace_base repo session account hs = ground (
  arith,
  cut_prefix-append jam_prefix (session ++ codes "/base"),
  split_n_two b'/' session (codes "base") hs (unfold free_of in refl),
  check_parts_base repo session account,
)

-- The repository is known to hold no ref but symbolic ones.
abbrev pub NoRefs : Repo → Type 0
NoRefs repo = (refs : List RefKind) × (repo.references ≡ some refs) × All (λ k. k ≡ symbolic) refs

surely_empty-NoRefs : (repo : Repo) → surely (repo_is_empty repo) ≡ true → NoRefs repo
unfolding repo_is_empty
surely_empty-NoRefs repo h = elim (Option-cases repo.references) [
  | inl e ↦ absurd (ground (arith, e, h))
  | inr (refs, e) ↦ (refs, e, all_symbolic refs (ground (arith, e, h)))
]
  where
    all_symbolic :
        (refs : List RefKind) → any is_concrete refs ≡ false → All (λ k. k ≡ symbolic) refs
    all_symbolic [] n = tt
    all_symbolic (symbolic ∷ refs) n =
        (refl, all_symbolic refs (unfold any in unfold is_concrete in n))
    all_symbolic (concrete ∷ refs) n = absurd (ground (arith, n))

check_parts_base_inv :
    (repo : Repo) (session account : Bytes) (parts : List Bytes)
    → check_parts repo session account parts ≡ (true, true)
    → (parts ≡ session ∷ codes "base" ∷ []) × (surely (repo_is_empty repo) ≡ true)
unfolding check_parts
check_parts_base_inv repo session account [] h = absurd (ground arith)
check_parts_base_inv repo session account (s ∷ []) h = absurd (ground arith)
check_parts_base_inv repo session account (s ∷ (o ∷ [])) h =
    (ground (arith, same_iff s session, same_iff o (codes "base")), ground arith)
check_parts_base_inv repo session account (s ∷ (o ∷ (b ∷ bs))) h = absurd (ground arith)

split_n_pair : (sep : ℕ) (s a b : Bytes) → split_n sep s 3 ≡ a ∷ b ∷ [] → s ≡ a ++ sep ∷ b
unfolding split_n
split_n_pair sep s a b h = elim (Option-cases (cut sep s)) [
  | inl e ↦ absurd (ground (arith))
  | inr ((x, y), e) ↦ elim (Option-cases (cut sep y)) [
    | inl e' ↦ ground (arith, cut_eq sep s x y e)
    | inr ((z, w), e') ↦ absurd (ground (arith))
  ]
]

check_ref_namespace_base_inv :
    (repo : Repo) (session account ref : Bytes)
    → check_ref_namespace repo session account ref ≡ (true, true)
    → (ref ≡ base_ref session) × NoRefs repo
unfolding check_ref_namespace
check_ref_namespace_base_inv repo session account ref h =
    elim (Option-cases (cut_prefix ref jam_prefix)) [
      | inl e ↦ absurd (ground arith)
      | inr (rest, e) ↦
          (let (parts, n) =
              check_parts_base_inv repo session account (split_n b'/' rest 3) (ground arith) in
            (
              cut_prefix_eq ref jam_prefix rest e
                  ∙ ap (◌++◌ jam_prefix) (split_n_pair b'/' rest session (codes "base") parts),
              surely_empty-NoRefs repo n,
            ))
    ]

-- The refs that checkRefNamespace lets the account write.
pub data Writable (repo : Repo) (session account : Bytes) : Bytes → Type 0 where
  own_branch :
      (branch : Bytes)
      → branch ≢ []
      → NoTraversal branch
      → Writable repo session account (user_ref session account branch)
  first_base : NoRefs repo → Writable repo session account (base_ref session)

pub check_ref_namespace-Writable :
    (repo : Repo) (session account ref : Bytes)
    → (check_ref_namespace repo session account ref).0 ≡ true
    → Writable repo session account ref
check_ref_namespace-Writable repo session account ref h =
    elim (Bool-cases (check_ref_namespace repo session account ref).1) [
      | inl e ↦
          (let (k, n) =
              check_ref_namespace_base_inv repo session account ref (ground (arith, h, e)) in
            subst (λ r. Writable repo session account r) (sym k) (first_base n))
      | inr e ↦
          (let (branch, k, n, t) =
              check_ref_namespace_user repo session account ref (ground (arith, h, e)) in
            subst (λ r. Writable repo session account r) (sym k)
              (own_branch branch n (ref_segment_safe-NoTraversal branch t)))
    ]
