-- ===== src/Githttp/Commands.antt =====
-- readCommandList of internal/portal/githttp/pktline.go, on every input and on a written command list.
use jamsesh.Prelude.{
  ◌*◌, ◌+◌, ◌++◌, ◌-◌, ◌<◌, ◌==◌, ap, arith, Bool-cases, false, if◌then◌else◌, inl, inr, length,
  length-append, List, ltb, map, refl, suc, true, ℕ, ◌∷◌, ◌≡◌, ◌≢◌, ◌≤◌,
}
use jamsesh.Githttp.Framing.{
  length_hex, read_full_payload, read_pkt_line_len-hex, read_pkt_line_len_flush, write_all,
}
use jamsesh.Githttp.Pktline.{
  ◌>>=◌, err, hex_from, hex_fuel, hex_loop, hex_value, ok, out_of_fuel, parse_command, Read,
  read_command, read_command_list, read_commands, read_full, read_pkt_line_len, RefUpdate,
  split_caps, trim_newline, write_flush_pkt, write_pkt_line, zero_sha,
}
use jamsesh.Go.Strings.{Bytes, cut_free, free_of, same, split_n, split_n_three}
use Prim.Native.Nat.{zero}
use mathlib.Core.List.{[], append_assoc}

read_full_le :
    (n : ℕ) (r s rest : Bytes) → read_full n r ≡ ok (s, rest) → length rest + n ≡ length r
unfolding read_full
read_full_le zero r s rest h = ground arith
read_full_le (suc n) [] s rest h = cc
read_full_le (suc n) (c ∷ r) [] rest h = absurd (ground arith)
read_full_le (suc n) (c ∷ r) (d ∷ s) rest h = ground (arith, read_full_le n r s rest)

read_full_total : (n : ℕ) (r : Bytes) → read_full n r ≢ out_of_fuel
unfolding read_full
read_full_total zero r = λ e. cc
read_full_total (suc n) [] = λ e. cc
read_full_total (suc n) (c ∷ r) = ground (arith, read_full_total n r)

bind_total {ℓ κ} :
    {A : Type ℓ} {B : Type κ} (m : Read A) (f : A → Read B)
    → m ≢ out_of_fuel
    → ((a : A) → f a ≢ out_of_fuel)
    → (m >>= f) ≢ out_of_fuel
bind_total (ok a) f h k = k a
bind_total err f h k = λ e. cc
bind_total out_of_fuel f h k = absurd (h refl)

hex_value_total : (c : ℕ) → hex_value c ≢ out_of_fuel
unfolding hex_value
hex_value_total c = ground arith

hex_loop_total : (n : ℕ) (s : Bytes) → hex_loop n s ≢ out_of_fuel
unfolding hex_loop
hex_loop_total n [] = λ e. cc
hex_loop_total n (c ∷ s) =
    bind_total (hex_value c) _ (hex_value_total c) λ v. hex_loop_total (n * 16 + v) s

read_pkt_line_len_total : (r : Bytes) → read_pkt_line_len r ≢ out_of_fuel
unfolding read_pkt_line_len
read_pkt_line_len_total r =
    bind_total (read_full 4 r) _ (read_full_total 4 r)
      λ x. bind_total (hex_loop 0 x.0) _ (hex_loop_total 0 x.0) λ n e. cc

Read_ok {ℓ κ} :
    {A : Type ℓ} {B : Type κ} (m : Read A) (f : A → Read B) {b : B}
    → (m >>= f) ≡ ok b
    → (a : A) × (m ≡ ok a) × (f a ≡ ok b)
Read_ok (ok a) f h = (a, refl, h)
Read_ok err f h = cc
Read_ok out_of_fuel f h = cc

read_pkt_line_len_le :
    (r : Bytes) (n : ℕ) (rest : Bytes)
    → read_pkt_line_len r ≡ ok (n, rest)
    → length rest + 4 ≡ length r
unfolding read_pkt_line_len
read_pkt_line_len_le r n rest h =
    let ((buf, left), e, k) = Read_ok (read_full 4 r) _ h in
    let (m, e', k') = Read_ok (hex_loop 0 buf) _ k in ground (arith, read_full_le 4 r buf left e)

parse_command_total : (parts : List Bytes) → parse_command parts ≢ out_of_fuel
unfolding parse_command
parse_command_total (a ∷ (b ∷ (c ∷ []))) = λ e. cc
parse_command_total _ = λ e. cc

read_command_total : (n : ℕ) (r : Bytes) → read_command n r ≢ out_of_fuel
unfolding read_command
read_command_total n r = elim (Bool-cases (ltb n 4)) [
  | inl e ↦ ground arith
  | inr e ↦
      rw (e, read_command)
        (bind_total (read_full (n - 4) r) _ (read_full_total (n - 4) r) λ x.
          bind_total (parse_command (split_n 32 (trim_newline (split_caps x.0).1) 3)) _
            (parse_command_total (split_n 32 (trim_newline (split_caps x.0).1) 3)) λ u e. cc)
]

read_command_le :
    (n : ℕ) (r : Bytes) (u : RefUpdate) (caps : List Bytes) (rest : Bytes)
    → read_command n r ≡ ok (u, caps, rest)
    → length rest ≤ length r
unfolding read_command
read_command_le n r u caps rest h = elim (Bool-cases (ltb n 4)) [
  | inl e ↦ absurd (ground arith)
  | inr e ↦
      (let ((payload, left), e', k) = Read_ok (read_full (n - 4) r) _ (rw (e, read_command) at h) in
        let (u', e'', k') =
          Read_ok (parse_command (split_n 32 (trim_newline (split_caps payload).1) 3)) _ k in
        ground (arith, read_full_le (n - 4) r payload left e'))
]

-- One round from a length that is read: it needs the rest of the list.
read_commands_round :
    (fuel : ℕ) (r : Bytes)
    → ((rest : Bytes) → length rest < length r → read_commands fuel rest ≢ out_of_fuel)
    → read_commands (suc fuel) r ≢ out_of_fuel
unfolding read_commands
read_commands_round fuel r more = length_read (read_pkt_line_len r) refl
  where
    command_read :
        (n : ℕ) (rest : Bytes) (q : Read (RefUpdate × List Bytes × Bytes))
        → read_pkt_line_len r ≡ ok (n, rest)
        → (n == 0) ≡ false
        → read_command n rest ≡ q
        → read_commands (suc fuel) r ≢ out_of_fuel
    command_read n rest (ok (u, caps, rest')) e z e' =
        ground (
          arith,
          more rest',
          read_pkt_line_len_le r n rest e,
          read_command_le n rest u caps rest' e',
        )
    command_read n rest err e z e' = ground arith
    command_read n rest out_of_fuel e z e' = absurd (read_command_total n rest e')

    length_read :
        (q : Read (ℕ × Bytes)) → read_pkt_line_len r ≡ q → read_commands (suc fuel) r ≢ out_of_fuel
    length_read (ok (n, rest)) e = elim (Bool-cases (n == 0)) [
      | inl z ↦ ground arith
      | inr z ↦ command_read n rest (read_command n rest) e z refl
    ]
    length_read err e = ground arith
    length_read out_of_fuel e = absurd (read_pkt_line_len_total r e)

read_commands_total : (fuel : ℕ) (r : Bytes) → length r < fuel → read_commands fuel r ≢ out_of_fuel
read_commands_total zero r h = absurd (omega arith)
read_commands_total (suc fuel) r h =
    read_commands_round fuel r λ rest k. read_commands_total fuel rest (omega arith)

-- Reading a command list comes to an end on every input: the loop takes at least four bytes a round.
pub read_command_list_total : (r : Bytes) → read_command_list r ≢ out_of_fuel
unfolding read_command_list
read_command_list_total r = read_commands_total (suc (length r)) r (omega arith)

-- A command line of a client, with no capabilities.
wire_sha : Bytes → Bytes
wire_sha [] = zero_sha
wire_sha (c ∷ s) = c ∷ s

unfoldable pub command_body : RefUpdate → Bytes
unfolding wire_sha
command_body u = wire_sha u.old_sha ++ 32 ∷ (u.new_sha ++ 32 ∷ u.ref)

unfoldable pub command_line : RefUpdate → Bytes
unfolding command_body
command_line u = command_body u ++ 10 ∷ []

-- What the protocol asks of a command: hashes without blanks, an old hash that is not the zero hash, no
-- NUL, and a line that fits a packet.
pub record Sendable (u : RefUpdate) : Type 0 where
  pub old_ok : free_of 32 u.old_sha ≡ true
  pub old_ne : same u.old_sha zero_sha ≡ false
  pub new_ok : free_of 32 u.new_sha ≡ true
  pub no_nul : free_of 0 (command_line u) ≡ true
  pub fits : length (command_line u) + 4 < 65536

trim_newline-append : (s : Bytes) → trim_newline (s ++ 10 ∷ []) ≡ s
unfolding trim_newline
trim_newline-append [] = refl
trim_newline-append (c ∷ []) = refl
trim_newline-append (c ∷ (d ∷ s)) = ap (◌∷◌ c) (trim_newline-append (d ∷ s))

wire_sha_free : (s : Bytes) → free_of 32 s ≡ true → free_of 32 (wire_sha s) ≡ true
unfolding wire_sha free_of
wire_sha_free [] h = refl
wire_sha_free (c ∷ s) h = h

wire_sha_back :
    (s : Bytes)
    → same s zero_sha ≡ false
    → (if same (wire_sha s) zero_sha then [] else wire_sha s) ≡ s
unfolding wire_sha
wire_sha_back [] h = unfold same in refl
wire_sha_back (c ∷ s) h = rw h

parse_body : (u : RefUpdate) → Sendable u → parse_command (split_n 32 (command_body u) 3) ≡ ok u
unfolding parse_command command_body
parse_body u s =
    rw
      (split_n_three 32 (wire_sha u.old_sha) u.new_sha u.ref (wire_sha_free u.old_sha s.old_ok)
        s.new_ok)
      (ap (λ o. ok (record { old_sha = o; new_sha = u.new_sha; ref = u.ref }))
        (wire_sha_back u.old_sha s.old_ne))

split_caps_plain : (l : Bytes) → free_of 0 l ≡ true → split_caps l ≡ ([], l)
unfolding split_caps
split_caps_plain l h = ground (arith, cut_free 0 l h)

read_command-line :
    (u : RefUpdate) (rest : Bytes)
    → Sendable u
    → read_command (length (command_line u) + 4) (command_line u ++ rest) ≡ ok (u, [], rest)
unfolding read_command command_line
read_command-line u rest s = ground (
  arith,
  read_full_payload (command_line u) rest,
  split_caps_plain (command_line u) s.no_nul,
  trim_newline-append (command_body u),
  parse_body u s,
)

-- A list of commands in the protocol's form: the lines, and a flush.
unfoldable pub write_commands : List RefUpdate → Bytes
unfolding write_all command_line
write_commands us = write_all (map command_line us) ++ write_flush_pkt

abbrev pub AllSendable : List RefUpdate → Type 0
AllSendable [] = Unit {0}
AllSendable (u ∷ us) = Sendable u × AllSendable us

command_line_eq :
    (u : RefUpdate) (rest : Bytes)
    → Sendable u
    → read_pkt_line_len (write_pkt_line (command_line u) ++ rest)
      ≡ ok (length (command_line u) + 4, command_line u ++ rest)
unfolding write_pkt_line
command_line_eq u rest s =
    rw append_assoc
      (read_pkt_line_len-hex (length (command_line u) + 4) (command_line u ++ rest) s.fits)

read_commands-write :
    (us : List RefUpdate) (fuel : ℕ) (pack : Bytes)
    → AllSendable us
    → length us < fuel
    → read_commands fuel (write_all (map command_line us) ++ (write_flush_pkt ++ pack))
      ≡ ok (record { updates = us; caps = []; pack = pack })
unfolding write_all read_commands
read_commands-write us zero pack s h = absurd (omega arith)
read_commands-write [] (suc fuel) pack s h = ground (arith, read_pkt_line_len_flush pack)
read_commands-write (u ∷ us) (suc fuel) pack s h =
    let rest = write_all (map command_line us) ++ (write_flush_pkt ++ pack) in
    rw append_assoc (
      ground (
        arith,
        command_line_eq u rest s.0,
        read_command-line u rest s.0,
        read_commands-write us fuel pack s.1,
      ))

write_pkt_line_le : (p : Bytes) → length p + 4 < 65536 → 1 ≤ length (write_pkt_line p)
unfolding write_pkt_line
write_pkt_line_le p h =
    grind (arith, length-append (hex_from hex_fuel (length p + 4)) p, length_hex (length p + 4) h)

write_all_le :
    (us : List RefUpdate) (rest : Bytes)
    → AllSendable us
    → length us ≤ length (write_all (map command_line us) ++ rest)
unfolding write_all
write_all_le [] rest s = omega arith
write_all_le (u ∷ us) rest s = rw append_assoc (
    grind (
      arith,
      write_all_le us rest s.1,
      write_pkt_line_le (command_line u) s.0.fits,
      length-append (write_pkt_line (command_line u)) (write_all (map command_line us) ++ rest),
    ))

-- A command list that is written in the protocol's form, whatever pack data follow it, is read back: every
-- update in its order, no capabilities, and the pack data untouched.
pub read_command_list-write :
    (us : List RefUpdate) (pack : Bytes)
    → AllSendable us
    → read_command_list (write_commands us ++ pack)
      ≡ ok (record { updates = us; caps = []; pack = pack })
unfolding read_command_list write_commands
read_command_list-write us pack s = rw append_assoc (
    read_commands-write us
      (suc (length (write_all (map command_line us) ++ (write_flush_pkt ++ pack)))) pack s
      (grind (arith, write_all_le us (write_flush_pkt ++ pack) s)))
