-- ===== src/Githttp/Pktline.antt =====
-- internal/portal/githttp/pktline.go. A reader is the list of the bytes that it has left.
use jamsesh.Prelude.{
  ◌%◌, ◌&&◌, ◌*◌, ◌+◌, ◌++◌, ◌-◌, ◌/◌, ◌==◌, [], Bool, false, if◌then◌else◌, leb, length, List, ltb,
  map, none, not, Option, some, suc, true, ℕ, ◌∷◌,
}
use jamsesh.Go.Strings.{Bytes, codes, cut, is_space, same, split_n}
use Prim.Native.Nat.{zero}
use mathlib.Core.List.{reverse}

pub data Read {ℓ} (A : Type ℓ) : Type ℓ where
  ok : A → Read A
  err : Read A
  out_of_fuel : Read A

infixl 5 ◌>>=◌
abbrev pub ◌>>=◌ {ℓ κ} : {A : Type ℓ} {B : Type κ} → Read A → (A → Read B) → Read B
ok a >>= f = f a
err >>= f = err
out_of_fuel >>= f = out_of_fuel

-- io.ReadFull of n bytes: what is read, and what is left.
unfoldable pub read_full : ℕ → Bytes → Read (Bytes × Bytes)
read_full zero r = ok ([], r)
read_full (suc n) [] = err
read_full (suc n) (c ∷ r) = elim (read_full n r) [
  | ok (s, rest) ↦ ok (c ∷ s, rest)
  | err ↦ err
  | out_of_fuel ↦ out_of_fuel
]

unfoldable pub hex_value : ℕ → Read ℕ
hex_value c =
    if leb b'0' c && leb c b'9'
    then ok (c - b'0')
    else if leb b'a' c && leb c b'f'
    then ok (c - b'a' + 10)
    else if leb b'A' c && leb c b'F'
    then ok (c - b'A' + 10)
    else err

-- The loop over the four digits: `n <<= 4; n |= …`.
unfoldable pub hex_loop : ℕ → Bytes → Read ℕ
unfolding hex_value
hex_loop n [] = ok n
hex_loop n (c ∷ s) = hex_value c >>= λ v. hex_loop (n * 16 + v) s

unfoldable pub read_pkt_line_len : Bytes → Read (ℕ × Bytes)
unfolding read_full hex_loop
read_pkt_line_len r = do (buf, rest) ← read_full 4 r; n ← hex_loop 0 buf; ok (n, rest)

abbrev pub hex_digit : ℕ → ℕ
hex_digit v = if ltb v 10 then b'0' + v else b'a' + (v - 10)

-- `%04x` of a length below 65536.
unfoldable pub hex4 : ℕ → Bytes
hex4 n =
    hex_digit (n / 4096 % 16)
    ∷ hex_digit (n / 256 % 16)
    ∷ hex_digit (n / 16 % 16)
    ∷ hex_digit (n % 16)
    ∷ []

-- `%04x`: more digits for a longer payload. The fuel is a bound on the digits beyond four.
unfoldable pub hex_from : ℕ → ℕ → Bytes
unfolding hex4
hex_from zero n = hex4 n
hex_from (suc f) n =
    let more = hex_from f (n / 16) ++ hex_digit (n % 16) ∷ [] in
    if ltb n 65536 then hex4 n else more

abbrev pub hex_fuel : ℕ
hex_fuel = 12

-- writePktLine
unfoldable pub write_pkt_line : Bytes → Bytes
unfolding hex_from
write_pkt_line payload = hex_from hex_fuel (length payload + 4) ++ payload

-- writeSidebandPktLine
unfoldable pub write_sideband_pkt_line : ℕ → Bytes → Bytes
unfolding hex_from
write_sideband_pkt_line band payload = hex_from hex_fuel (4 + 1 + length payload) ++ band ∷ payload

-- writeFlushPkt
unfoldable pub write_flush_pkt : Bytes
write_flush_pkt = codes "0000"

pub record RefUpdate : Type 0 where
  pub old_sha : Bytes
  pub new_sha : Bytes
  pub ref : Bytes

-- strings.Fields on ASCII; `word` is what has been read of the current field, last byte first.
unfoldable pub fields_from : Bytes → Bytes → List Bytes
unfolding is_space
fields_from [] [] = []
fields_from (w ∷ word) [] = reverse (w ∷ word) ∷ []
fields_from [] (c ∷ s) =
    let skipped = fields_from [] s in
    let taken = fields_from (c ∷ []) s in if is_space c then skipped else taken
fields_from (w ∷ word) (c ∷ s) =
    let ended = reverse (w ∷ word) ∷ fields_from [] s in
    let taken = fields_from (c ∷ w ∷ word) s in if is_space c then ended else taken

-- strings.TrimSuffix(s, "\n")
unfoldable pub trim_newline : Bytes → Bytes
trim_newline [] = []
trim_newline (c ∷ []) = if c == 10 then [] else c ∷ []
trim_newline (c ∷ (d ∷ s)) = c ∷ trim_newline (d ∷ s)

abbrev pub zero_sha : Bytes
zero_sha = codes "0000000000000000000000000000000000000000"

-- The capabilities behind a NUL, and the line before it.
unfoldable pub split_caps : Bytes → List Bytes × Bytes
unfolding fields_from
split_caps payload = elim (cut 0 payload) [
  | none ↦ ([], payload)
  | some (line, caps) ↦ (fields_from [] (trim_newline caps), line)
]

unfoldable pub parse_command : List Bytes → Read RefUpdate
unfolding same
parse_command (old ∷ (new ∷ (ref ∷ []))) =
    ok (record { old_sha = if same old zero_sha then [] else old; new_sha = new; ref = ref })
parse_command _ = err

pub record CommandList : Type 0 where
  pub updates : List RefUpdate
  pub caps : List Bytes
  pub pack : Bytes

-- One round on a packet that is no flush: its update and capabilities, and the rest.
unfoldable pub read_command : ℕ → Bytes → Read (RefUpdate × List Bytes × Bytes)
unfolding read_full split_caps parse_command split_n
read_command n r = if ltb n 4 then err else do
  (payload, rest) ← read_full (n - 4) r
  let (caps, line) = split_caps payload
  u ← parse_command (split_n 32 (trim_newline line) 3)
  ok (u, caps, rest)

-- readCommandList. A round takes at least the four bytes of the length.
unfoldable pub read_commands : ℕ → Bytes → Read CommandList
unfolding read_pkt_line_len read_command
read_commands zero r = out_of_fuel
read_commands (suc fuel) r = elim (read_pkt_line_len r) [
  | err ↦ err
  | out_of_fuel ↦ out_of_fuel
  | ok (n, rest) ↦ elim (n == 0) [
    | true ↦ ok (record { updates = []; caps = []; pack = rest })
    | false ↦ elim (read_command n rest) [
      | err ↦ err
      | out_of_fuel ↦ out_of_fuel
      | ok (u, caps, rest') ↦ elim (read_commands fuel rest') [
        | err ↦ err
        | out_of_fuel ↦ out_of_fuel
        | ok more ↦ ok (record more { updates = u ∷ more.updates; caps = caps ++ more.caps })
      ]
    ]
  ]
]

unfoldable pub read_command_list : Bytes → Read CommandList
unfolding read_commands
read_command_list r = read_commands (suc (length r)) r

-- A rejection, as writeReportStatusRejection reads it: `ref` is Details["ref"], if that is a string.
pub record Reason : Type 0 where
  pub ref : Option Bytes
  pub message : Bytes

abbrev pub names : Reason → Bytes → Bool
names x ref = elim x.ref [ none ↦ false | some r ↦ not (same r []) && same r ref ]

abbrev pub is_global : Reason → Bool
is_global x = elim x.ref [ none ↦ true | some r ↦ same r [] ]

-- perRef[ref]: the first rejection that names the ref.
unfoldable pub per_ref : Bytes → List Reason → Bytes
per_ref ref [] = []
per_ref ref (x ∷ xs) = if names x ref then x.message else per_ref ref xs

-- The first message without a ref that is not empty.
unfoldable pub global_reason : List Reason → Bytes
global_reason [] = []
global_reason (x ∷ xs) =
    if is_global x && not (same x.message []) then x.message else global_reason xs

abbrev pub first_of_two : Bytes → Bytes → Bytes
first_of_two a b = if same a [] then b else a

unfoldable pub reason_for : List Reason → RefUpdate → Bytes
unfolding per_ref global_reason
reason_for xs u =
    first_of_two (first_of_two (per_ref u.ref xs) (global_reason xs))
      (codes "rejected by server policy")

unfoldable pub ng_line : List Reason → RefUpdate → Bytes
unfolding reason_for
ng_line xs u = codes "ng " ++ (u.ref ++ 32 ∷ (reason_for xs u ++ 10 ∷ []))

unfoldable pub report_lines : List RefUpdate → List Reason → List Bytes
unfolding ng_line
report_lines us xs = codes "unpack ok\n" ∷ map (ng_line xs) us

-- writeLine for each line.
unfoldable pub write_lines : List Bytes → Bytes
unfolding write_sideband_pkt_line write_pkt_line
write_lines [] = []
write_lines (l ∷ ls) = write_sideband_pkt_line 1 (write_pkt_line l) ++ write_lines ls

-- writeReportStatusRejection
unfoldable pub write_report_status_rejection : List RefUpdate → List Reason → Bytes
unfolding write_lines report_lines write_flush_pkt
write_report_status_rejection us xs =
    write_lines (report_lines us xs)
    ++ (write_sideband_pkt_line 1 (codes "0000") ++ write_flush_pkt)
