-- ===== src/Githttp/Framing.antt =====
-- What a client decodes from the packets that the portal writes, and what the portal reads of a client's.
use jamsesh.Prelude.{
  ◌%◌, ◌+◌, ◌++◌, ◌-◌, ◌/◌, ◌<◌, ◌==◌, ap, arith, if◌then◌else◌, length, List, ltb, map, refl, suc,
  true, ℕ, ◌∙◌, ◌∷◌, ◌≡◌,
}
use jamsesh.Githttp.Pktline.{
  err, hex4, hex_digit, hex_from, hex_fuel, hex_loop, hex_value, ok, out_of_fuel, Read, read_full,
  read_pkt_line_len, write_flush_pkt, write_pkt_line, write_sideband_pkt_line,
}
use jamsesh.Go.Strings.{Bytes}
use Prim.Native.Nat.{zero}
use mathlib.Core.Bool.{false}
use mathlib.Core.List.{[], append_assoc}

hex_value-digit : (v : ℕ) → v < 16 → hex_value (hex_digit v) ≡ ok v
unfolding hex_value
hex_value-digit v h = ground arith

hex_loop-hex4 : (n : ℕ) → n < 65536 → hex_loop 0 (hex4 n) ≡ ok n
unfolding hex_loop hex4
hex_loop-hex4 n h = rw (hex_value-digit (n / 4096 % 16) (omega arith)) (
    rw (hex_value-digit (n / 256 % 16) (omega arith)) (
      rw (hex_value-digit (n / 16 % 16) (omega arith))
        (rw (hex_value-digit (n % 16) (omega arith)) (ap ok (omega arith)))))

hex_from_small : (n : ℕ) → n < 65536 → hex_from hex_fuel n ≡ hex4 n
unfolding hex_from
hex_from_small n h = ground arith

read_full-append : (s rest : Bytes) → read_full (length s) (s ++ rest) ≡ ok (s, rest)
unfolding read_full
read_full-append [] rest = refl
read_full-append (c ∷ s) rest = rw (read_full-append s rest)

read_pkt_line_len-hex4 :
    (n : ℕ) (rest : Bytes) → n < 65536 → read_pkt_line_len (hex4 n ++ rest) ≡ ok (n, rest)
unfolding read_pkt_line_len hex4
read_pkt_line_len-hex4 n rest h = ground (arith, hex_loop-hex4 n h)

pub read_pkt_line_len-hex :
    (n : ℕ) (rest : Bytes)
    → n < 65536
    → read_pkt_line_len (hex_from hex_fuel n ++ rest) ≡ ok (n, rest)
read_pkt_line_len-hex n rest h = rw (hex_from_small n h) (read_pkt_line_len-hex4 n rest h)

pub read_pkt_line_len_flush :
    (rest : Bytes) → read_pkt_line_len (write_flush_pkt ++ rest) ≡ ok (0, rest)
unfolding read_pkt_line_len write_flush_pkt
read_pkt_line_len_flush rest = refl

pub length_hex : (n : ℕ) → n < 65536 → length (hex_from hex_fuel n) ≡ 4
unfolding hex4
length_hex n h = rw (hex_from_small n h) refl

abbrev pub prepend : Bytes → Read (List Bytes × Bytes) → Read (List Bytes × Bytes)
prepend p (ok (ps, rest)) = ok (p ∷ ps, rest)
prepend p err = err
prepend p out_of_fuel = out_of_fuel

-- A reader of pkt-lines, up to a flush packet: the payloads, and the bytes behind the flush.
unfoldable pub frames : ℕ → Bytes → Read (List Bytes × Bytes)
frames zero r = out_of_fuel
frames (suc fuel) r = elim (read_pkt_line_len r) [
  | err ↦ err
  | out_of_fuel ↦ out_of_fuel
  | ok (n, rest) ↦ elim (n == 0) [
    | true ↦ ok ([], rest)
    | false ↦ elim (ltb n 4) [
      | true ↦ err
      | false ↦ elim (read_full (n - 4) rest) [
        | err ↦ err
        | out_of_fuel ↦ out_of_fuel
        | ok (p, rest') ↦ prepend p (frames fuel rest')
      ]
    ]
  ]
]

pub read_full_payload : (p rest : Bytes) → read_full (length p + 4 - 4) (p ++ rest) ≡ ok (p, rest)
read_full_payload p rest =
    let e : length p + 4 - 4 ≡ length p = omega arith in rw e (read_full-append p rest)

pub frames_packet :
    (fuel : ℕ) (p rest : Bytes)
    → length p + 4 < 65536
    → frames (suc fuel) (hex_from hex_fuel (length p + 4) ++ (p ++ rest))
      ≡ prepend p (frames fuel rest)
unfolding frames
frames_packet fuel p rest h =
    ground (arith, read_pkt_line_len-hex (length p + 4) (p ++ rest) h, read_full_payload p rest)

pub frames_flush :
    (fuel : ℕ) (rest : Bytes) → frames (suc fuel) (write_flush_pkt ++ rest) ≡ ok ([], rest)
unfolding frames
frames_flush fuel rest = rw (read_pkt_line_len_flush rest, frames)

-- The payload of every packet is short enough for four hex digits.
abbrev pub Short : ℕ → List Bytes → Type 0
Short overhead [] = Unit {0}
Short overhead (l ∷ ls) = (length l + overhead < 65536) × Short overhead ls

unfoldable pub write_all : List Bytes → Bytes
write_all [] = []
write_all (l ∷ ls) = write_pkt_line l ++ write_all ls

-- A sequence of written packets and a flush reads back as the payloads, in order.
pub frames-write_all :
    (ls : List Bytes) (fuel : ℕ) (rest : Bytes)
    → Short 4 ls
    → length ls < fuel
    → frames fuel (write_all ls ++ (write_flush_pkt ++ rest)) ≡ ok (ls, rest)
unfolding write_all write_pkt_line
frames-write_all ls zero rest s h = absurd (omega arith)
frames-write_all [] (suc fuel) rest s h = frames_flush fuel rest
frames-write_all (l ∷ ls) (suc fuel) rest s h =
    rw (append_assoc, append_assoc)
      (frames_packet fuel l (write_all ls ++ (write_flush_pkt ++ rest)) s.0
        ∙ ap (prepend l) (frames-write_all ls fuel rest s.1 (omega arith)))

-- The demultiplexer of a side-band stream: the bytes of band 1, in order.
unfoldable pub band_one : List Bytes → Bytes
band_one [] = []
band_one ([] ∷ ps) = band_one ps
band_one ((b ∷ p) ∷ ps) = (if b == 1 then p else []) ++ band_one ps

abbrev pub outer_packets : List Bytes → List Bytes
outer_packets ls = map (λ l. 1 ∷ write_pkt_line l) ls ++ (1 ∷ write_flush_pkt) ∷ []

pub write_sideband_eq : (p : Bytes) → write_sideband_pkt_line 1 p ≡ write_pkt_line (1 ∷ p)
unfolding write_sideband_pkt_line write_pkt_line
write_sideband_eq p = let e : 4 + 1 + length p ≡ length (1 ∷ p) + 4 = omega arith in rw e
