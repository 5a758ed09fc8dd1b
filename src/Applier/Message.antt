-- ===== src/Applier/Message.antt =====
-- The message of a merge commit: composeMergeMessage and commitSummary of outcomes.go.
use jamsesh.Prelude.{◌++◌, [], List, none, Option, some, ◌∷◌}
use jamsesh.Automerger.Heuristics.{additions, Heuristic, identical, no_heuristic, whitespace}
use jamsesh.Automerger.Run.{clean_merge, hard_conflict, MergeResult, safe_auto_resolve}
use jamsesh.Go.Strings.{Bytes, codes, cut, trim_space}
use jamsesh.Prereceive.Trailers.{found_trailers, parse_trailers, value_of}

-- commitSummary: the trimmed first line.
unfoldable pub commit_summary : Bytes → Bytes
unfolding cut trim_space
commit_summary message =
    let msg = trim_space message in
    elim (cut 10 msg) [ none ↦ msg | some (line, rest) ↦ trim_space line ]

-- The labels of tryAutoResolve.
unfoldable pub heuristic_label : Heuristic → Bytes
heuristic_label no_heuristic = []
heuristic_label identical = codes "identical"
heuristic_label whitespace = codes "whitespace"
heuristic_label additions = codes "additions"

-- The line of a safe automatic resolution.
unfoldable pub resolved_line : MergeResult → List Bytes
unfolding heuristic_label
resolved_line (safe_auto_resolve tree h) = (codes "Auto-Resolved: " ++ heuristic_label h) ∷ []
resolved_line (clean_merge tree) = []
resolved_line (hard_conflict cs) = []

-- `Trailers(message)["Resolves-Conflict"]`, where it is there and not empty.
unfoldable pub resolves_conflict : Bytes → Option Bytes
unfolding value_of parse_trailers
resolves_conflict message =
    elim (value_of (codes "Resolves-Conflict") (found_trailers (parse_trailers message))) [
      | none ↦ none
      | some [] ↦ none
      | some (c ∷ v) ↦ some (c ∷ v)
    ]

unfoldable pub propagated_line : Option Bytes → List Bytes
propagated_line none = []
propagated_line (some rc) = (codes "Resolves-Conflict: " ++ rc) ∷ []

-- `strings.Join(lines, "\n")`
unfoldable pub join : List Bytes → Bytes
join [] = []
join (l ∷ []) = l
join (l ∷ (m ∷ ls)) = l ++ 10 ∷ join (m ∷ ls)

unfoldable pub trailer_lines :
    (source_message source_sha source_ref : Bytes) → MergeResult → List Bytes
unfolding resolved_line resolves_conflict propagated_line
trailer_lines source_message source_sha source_ref result =
    codes "Auto-Merger: true"
    ∷ (codes "Source-Commit: " ++ source_sha)
    ∷ (codes "Source-Ref: " ++ source_ref)
    ∷ (resolved_line result ++ propagated_line (resolves_conflict source_message))

-- composeMergeMessage
unfoldable pub compose_merge_message :
    (source_message source_sha source_ref : Bytes) → MergeResult → Bytes
unfolding commit_summary trailer_lines join
compose_merge_message source_message source_sha source_ref result =
    codes "Auto-merge: "
    ++ (commit_summary source_message
        ++ 10 ∷ 10 ∷ (join (trailer_lines source_message source_sha source_ref result) ++ 10 ∷ []))
