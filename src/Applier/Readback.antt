-- ===== src/Applier/Readback.antt =====
-- The trailers of a merge commit (outcomes.go) as the pre-receive parser (prereceive/trailers.go) reads them.
use jamsesh.Prelude.{
  ◌&&◌, ◌++◌, ◌==◌, [], All, all, ap, arith, Bool, false, inl, inr, List, list_cases, map, none,
  Option, refl, some, subst, sym, true, ℕ, ◌∙◌, ◌∷◌, ◌≡◌, ◌≢◌,
}
use jamsesh.Applier.Lines.{
  crlf_free, ends-append, ends_visible, free-ends, join-ends, join-free_of, split-join, split-line,
  summary_one_line, trim-newline,
}
use jamsesh.Applier.Message.{
  commit_summary, compose_merge_message, heuristic_label, join, propagated_line, resolved_line,
  resolves_conflict, trailer_lines,
}
use jamsesh.Automerger.Heuristics.{additions, Heuristic, identical, no_heuristic, whitespace}
use jamsesh.Automerger.Run.{clean_merge, hard_conflict, MergeResult, safe_auto_resolve}
use jamsesh.Go.Strings.{
  free_of-append, Bytes, codes, crlf_to_lf, free_of, is_space, split, trim_right,
}
use jamsesh.Prereceive.TrailerFormat.{parse_lines-render, render, starts_visible, WellFormed}
use jamsesh.Prereceive.Trailers.{
  is_key, is_key_byte, is_letter, message_lines, parse_lines, parse_trailers, Trailer,
}
use mathlib.Core.List.{append_assoc}

-- A text of one line, without carriage returns.
abbrev pub one_line : Bytes → Bool
one_line s = free_of 10 s && free_of 13 s

-- A message of a subject, a blank line and trailers, as parseTrailers splits it.
record Lines (ls : List Bytes) : Type 0 where
  no_lf : All (λ k. free_of 10 k ≡ true) ls
  no_cr : All (λ k. free_of 13 k ≡ true) ls
  visible : All (λ k. ends_visible k ≡ true) ls

message_text : (subject : Bytes) (ls : List Bytes) → Bytes
unfolding join
message_text subject ls = subject ++ 10 ∷ 10 ∷ (join ls ++ 10 ∷ [])

-- The text without its last line feed.
cut_text : (subject : Bytes) (ls : List Bytes) → Bytes
unfolding join
cut_text subject ls = subject ++ 10 ∷ 10 ∷ join ls

normal_text :
    (subject l : Bytes) (ls : List Bytes)
    → free_of 13 subject ≡ true
    → Lines (l ∷ ls)
    → trim_right (λ c. c == 10) (crlf_to_lf (message_text subject (l ∷ ls)))
      ≡ cut_text subject (l ∷ ls)
unfolding message_text cut_text
normal_text subject l ls f h =
    let j : free_of 13 (join (l ∷ ls)) ≡ true = join-free_of 13 (l ∷ ls) refl h.no_cr in
    let body : free_of 13 (join (l ∷ ls) ++ 10 ∷ []) ≡ true =
      free_of-append 13 (join (l ∷ ls)) (10 ∷ []) ∙ rw (j) (unfold free_of in refl) in
    let all : free_of 13 (message_text subject (l ∷ ls)) ≡ true =
      free_of-append 13 subject (10 ∷ 10 ∷ (join (l ∷ ls) ++ 10 ∷ []))
      ∙ rw (f) (unfold free_of in body) in
    let e : ends_visible (cut_text subject (l ∷ ls)) ≡ true =
      ends-append subject (10 ∷ 10 ∷ join (l ∷ ls))
        (ends-append (10 ∷ 10 ∷ []) (join (l ∷ ls)) (join-ends ls l h.visible)) in
    ap (trim_right (λ c. c == 10)) (crlf_free (message_text subject (l ∷ ls)) all)
    ∙ ap (trim_right (λ c. c == 10))
        (sym (append_assoc subject (10 ∷ 10 ∷ join (l ∷ ls)) (10 ∷ [])))
    ∙ trim-newline (cut_text subject (l ∷ ls)) e

text_split :
    (subject l : Bytes) (ls : List Bytes)
    → free_of 10 subject ≡ true
    → Lines (l ∷ ls)
    → split 10 (cut_text subject (l ∷ ls)) ≡ (subject ∷ []) ++ [] ∷ (l ∷ ls)
unfolding cut_text
text_split subject l ls f h =
    split-line subject (10 ∷ join (l ∷ ls)) f
    ∙ ap (λ r. subject ∷ r)
        (split-line [] (join (l ∷ ls)) (unfold free_of in refl)
          ∙ ap (λ r. [] ∷ r) (split-join l ls h.no_lf))

-- A text that is not empty is parsed by its lines.
parse_trailers_lines :
    (message text : Bytes) (ls : List Bytes)
    → trim_right (λ c. c == 10) (crlf_to_lf message) ≡ text
    → text ≢ []
    → split 10 text ≡ ls
    → parse_trailers message ≡ parse_lines ls
unfolding parse_trailers message_lines
parse_trailers_lines message text ls e n s = elim (list_cases text) [
  | inl x ↦ absurd (n x)
  | inr ((c, t), x) ↦ rw (parse_trailers, e ∙ x) (ap parse_lines (ap (split 10) e ∙ s))
]

-- A trailer that fits one line of a message.
pub record Inline (t : Trailer) : Type 0 where
  pub formed : WellFormed t
  pub value_line : one_line t.value ≡ true

key_byte_inline : (c : ℕ) → is_key_byte c ≡ true → ((c == 10) ≡ false) × ((c == 13) ≡ false)
unfolding is_key_byte is_letter
key_byte_inline c h = (ground arith, ground arith)

key_inline : (s : Bytes) → all is_key_byte s ≡ true → (free_of 10 s ≡ true) × (free_of 13 s ≡ true)
unfolding all free_of
key_inline [] h = (refl, refl)
key_inline (c ∷ s) h = ground (arith, h, key_byte_inline c, key_inline s)

is_key-all : (s : Bytes) → is_key s ≡ true → all is_key_byte s ≡ true
unfolding is_key all is_key_byte
is_key-all [] h = refl
is_key-all (c ∷ s) h = ground (arith, h)

render-free_of :
    (c : ℕ) (t : Trailer)
    → (b':' == c) ≡ false
    → ◌≡◌ {A = Bool} (32 == c) false
    → free_of c t.key ≡ true
    → free_of c t.value ≡ true
    → free_of c (render t) ≡ true
unfolding render free_of
render-free_of c t n m k v =
    free_of-append c t.key (b':' ∷ (32 ∷ t.value)) ∙ rw (k) (ground (arith, n, m, v))

render-ends : (t : Trailer) → Inline t → ends_visible (render t) ≡ true
unfolding render starts_visible
render-ends t i = elim (list_cases t.value) [
  | inl x ↦ (let w : starts_visible [] ≡ true = ap starts_visible (sym x) ∙ i.formed.value_ok in cc)
  | inr ((c, s), x) ↦
      (let v : free_of 10 (c ∷ s) ≡ true = ap (free_of 10) (sym x) ∙ ground (arith, i.value_line) in
        ends-append t.key (b':' ∷ (32 ∷ t.value)) (
          ends-append (b':' ∷ 32 ∷ []) t.value
            (subst (λ r. ends_visible r ≡ true) (sym x) (free-ends c s v))))
]

render-Lines : (ts : List Trailer) → All Inline ts → Lines (map render ts)
render-Lines [] h = record { no_lf = tt; no_cr = tt; visible = tt }
render-Lines (t ∷ ts) h =
    let rest = render-Lines ts h.1 in
    let key = key_inline t.key (is_key-all t.key h.0.formed.key_ok) in
    record {
      no_lf = (render-free_of 10 t refl refl key.0 (ground (arith, h.0.value_line)), rest.no_lf);
      no_cr = (render-free_of 13 t refl refl key.1 (ground (arith, h.0.value_line)), rest.no_cr);
      visible = (render-ends t h.0, rest.visible);
    }

formed_each : (ts : List Trailer) → All Inline ts → All WellFormed ts
formed_each [] h = tt
formed_each (t ∷ ts) h = (h.0.formed, formed_each ts h.1)

-- The trailers that the merge commit carries.
unfoldable pub resolved_trailer : MergeResult → List Trailer
resolved_trailer (safe_auto_resolve tree h) =
    record { key = codes "Auto-Resolved"; value = heuristic_label h } ∷ []
resolved_trailer (clean_merge tree) = []
resolved_trailer (hard_conflict cs) = []

unfoldable pub propagated : Option Bytes → List Trailer
propagated none = []
propagated (some rc) = record { key = codes "Resolves-Conflict"; value = rc } ∷ []

unfoldable pub merge_trailers : (sha source_ref : Bytes) → MergeResult → Option Bytes → List Trailer
unfolding resolved_trailer propagated
merge_trailers sha source_ref result rc =
    record { key = codes "Auto-Merger"; value = codes "true" }
    ∷ record { key = codes "Source-Commit"; value = sha }
    ∷ record { key = codes "Source-Ref"; value = source_ref }
    ∷ (resolved_trailer result ++ propagated rc)

-- What is propagated fits one line, and a safe resolution has a heuristic.
unfoldable pub Labelled : MergeResult → Type 0
Labelled (safe_auto_resolve tree h) = h ≢ no_heuristic
Labelled _ = Unit {0}

abbrev pub fits : Bytes → Bool
fits v = starts_visible v && one_line v

unfoldable pub rc_fits : Option Bytes → Bool
rc_fits none = true
rc_fits (some rc) = fits rc

lines_of :
    (message sha source_ref : Bytes) (result : MergeResult)
    → trailer_lines message sha source_ref result
      ≡ map render (merge_trailers sha source_ref result (resolves_conflict message))
unfolding trailer_lines resolved_line propagated_line merge_trailers render
lines_of message sha source_ref result =
    ap
      (λ r.
        codes "Auto-Merger: true"
        ∷ (codes "Source-Commit: " ++ sha)
        ∷ (codes "Source-Ref: " ++ source_ref)
        ∷ r)
      (tails result (resolves_conflict message))
  where
    tails :
        (result : MergeResult) (rc : Option Bytes)
        → resolved_line result ++ propagated_line rc
          ≡ map render (resolved_trailer result ++ propagated rc)
    tails (clean_merge t) none = refl
    tails (clean_merge t) (some rc) = refl
    tails (safe_auto_resolve t h) none = refl
    tails (safe_auto_resolve t h) (some rc) = refl
    tails (hard_conflict cs) none = refl
    tails (hard_conflict cs) (some rc) = refl

inline :
    (key v : Bytes) → is_key key ≡ true → fits v ≡ true → Inline (record { key = key; value = v })
inline key v k h = record {
  formed = record { key_ok = k; value_ok = ground (arith, h) };
  value_line = ground (arith, h);
}

label_fits : (h : Heuristic) → h ≢ no_heuristic → fits (heuristic_label h) ≡ true
unfolding heuristic_label starts_visible free_of is_space
label_fits no_heuristic n = absurd (n refl)
label_fits identical n = refl
label_fits whitespace n = refl
label_fits additions n = refl

trailers-Inline :
    (sha source_ref : Bytes) (result : MergeResult) (rc : Option Bytes)
    → fits sha ≡ true
    → fits source_ref ≡ true
    → Labelled result
    → rc_fits rc ≡ true
    → All Inline (merge_trailers sha source_ref result rc)
unfolding merge_trailers Labelled rc_fits is_key is_key_byte is_letter all starts_visible free_of
    is_space
trailers-Inline sha source_ref result rc hs hr hl hc = (
  inline (codes "Auto-Merger") (codes "true") refl refl,
  (
    inline (codes "Source-Commit") sha refl hs,
    (inline (codes "Source-Ref") source_ref refl hr, tails result rc hl hc),
  ),
)
  where
    last : (rc : Option Bytes) → rc_fits rc ≡ true → All Inline (propagated rc)
    last none hc = tt
    last (some rc) hc = (inline (codes "Resolves-Conflict") rc refl hc, tt)

    tails :
        (result : MergeResult) (rc : Option Bytes)
        → Labelled result
        → rc_fits rc ≡ true
        → All Inline (resolved_trailer result ++ propagated rc)
    tails (clean_merge t) rc hl hc = last rc hc
    tails (hard_conflict cs) rc hl hc = last rc hc
    tails (safe_auto_resolve t h) rc hl hc =
        (inline (codes "Auto-Resolved") (heuristic_label h) refl (label_fits h hl), last rc hc)

text_not_empty : (subject s : Bytes) → subject ++ 10 ∷ s ≢ []
text_not_empty [] s e = cc
text_not_empty (c ∷ subject) s e = cc

-- A subject, a blank line and trailers are read back.
composed :
    (subject : Bytes) (t : Trailer) (ts : List Trailer)
    → free_of 10 subject ≡ true
    → free_of 13 subject ≡ true
    → All Inline (t ∷ ts)
    → parse_trailers (message_text subject (map render (t ∷ ts))) ≡ some (t ∷ ts)
unfolding cut_text
composed subject t ts f g h =
    let l = render-Lines (t ∷ ts) h in
    parse_trailers_lines (message_text subject (map render (t ∷ ts)))
      (cut_text subject (map render (t ∷ ts))) ((subject ∷ []) ++ [] ∷ map render (t ∷ ts))
      (normal_text subject (render t) (map render ts) g l)
      (text_not_empty subject (10 ∷ join (map render (t ∷ ts))))
      (text_split subject (render t) (map render ts) f l)
    ∙ parse_lines-render (subject ∷ []) t ts (formed_each (t ∷ ts) h)

-- A merge commit's message is read back by the trailer parser of the pre-receive check: Auto-Merger,
-- Source-Commit, Source-Ref, the heuristic of a safe resolution, and the conflict that the source commit
-- resolves, in this order and nothing else, whatever the body of the source message. The subject has no
-- carriage return, and the hash, the ref and the propagated value fit one line, begin with a visible byte
-- and have no carriage return.
pub parse_trailers-compose :
    (message sha source_ref : Bytes) (result : MergeResult)
    → free_of 13 (commit_summary message) ≡ true
    → fits sha ≡ true
    → fits source_ref ≡ true
    → Labelled result
    → rc_fits (resolves_conflict message) ≡ true
    → parse_trailers (compose_merge_message message sha source_ref result)
      ≡ some (merge_trailers sha source_ref result (resolves_conflict message))
unfolding compose_merge_message merge_trailers message_text
parse_trailers-compose message sha source_ref result hm hs hr hl hc =
    let rc = resolves_conflict message in
    let subject = codes "Auto-merge: " ++ commit_summary message in
    ap (λ ls. parse_trailers (message_text subject ls)) (lines_of message sha source_ref result)
    ∙ composed subject (record { key = codes "Auto-Merger"; value = codes "true" })
        (record { key = codes "Source-Commit"; value = sha }
          ∷ record { key = codes "Source-Ref"; value = source_ref }
          ∷ (resolved_trailer result ++ propagated rc))
        (unfold free_of in summary_one_line message) (unfold free_of in hm)
        (trailers-Inline sha source_ref result rc hs hr hl hc)
