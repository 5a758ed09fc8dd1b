-- ===== src/Githttp/Report.antt =====
-- writeReportStatusRejection of pktline.go, against a reader that undoes the side-band and then reads
-- the pkt-lines inside.
use jamsesh.Prelude.{
  ◌+◌, ◌++◌, ◌<◌, ap, arith, length, length-append, List, refl, suc, sym, ℕ, ◌∙◌, ◌∷◌, ◌≡◌,
}
use jamsesh.Githttp.Framing.{
  band_one, frames, frames-write_all, length_hex, outer_packets, Short, write_all,
  write_sideband_eq,
}
use jamsesh.Githttp.Pktline.{
  hex4, hex_from, hex_fuel, ok, Reason, RefUpdate, report_lines, write_flush_pkt, write_lines,
  write_pkt_line, write_report_status_rejection, write_sideband_pkt_line,
}
use jamsesh.Go.Strings.{Bytes, codes}
use mathlib.Core.List.{[], append-nil, append_assoc}
use mathlib.Core.Path.{ap₂}

length-write_pkt_line :
    (l : Bytes) → length l + 4 < 65536 → length (write_pkt_line l) ≡ length l + 4
unfolding write_pkt_line
length-write_pkt_line l h =
    omega (arith, length-append (hex_from hex_fuel (length l + 4)) l, length_hex (length l + 4) h)

band_one-outer : (ls : List Bytes) → band_one (outer_packets ls) ≡ write_all ls ++ write_flush_pkt
unfolding band_one write_all
band_one-outer [] = append-nil write_flush_pkt
band_one-outer (l ∷ ls) = rw (band_one-outer ls, append_assoc)

write_lines-outer :
    (ls : List Bytes) (rest : Bytes)
    → write_lines ls ++ (write_sideband_pkt_line 1 (codes "0000") ++ rest)
      ≡ write_all (outer_packets ls) ++ rest
unfolding write_lines write_all
write_lines-outer [] rest =
    unfold write_sideband_pkt_line write_pkt_line write_flush_pkt hex_from hex4 in refl
write_lines-outer (l ∷ ls) rest =
    append_assoc (write_sideband_pkt_line 1 (write_pkt_line l)) (write_lines ls) _
    ∙ ap₂ ◌++◌ (write_sideband_eq (write_pkt_line l)) (write_lines-outer ls rest)
    ∙ sym (append_assoc (write_pkt_line (1 ∷ write_pkt_line l)) (write_all (outer_packets ls)) rest)

outer-Short : (ls : List Bytes) → Short 9 ls → Short 4 (outer_packets ls)
outer-Short [] s = (unfold write_flush_pkt in omega arith, tt)
outer-Short (l ∷ ls) s = (omega (arith, length-write_pkt_line l), outer-Short ls s.1)

length-outer : (ls : List Bytes) → length (outer_packets ls) ≡ suc (length ls)
length-outer [] = refl
length-outer (l ∷ ls) = ap suc (length-outer ls)

Short-mono : (ls : List Bytes) → Short 9 ls → Short 4 ls
Short-mono [] s = tt
Short-mono (l ∷ ls) s = (omega arith, Short-mono ls s.1)

length-report_lines :
    (us : List RefUpdate) (xs : List Reason) → length (report_lines us xs) ≡ suc (length us)
unfolding report_lines
length-report_lines [] xs = refl
length-report_lines (u ∷ us) xs = ap suc (length-report_lines us xs)

written : List Bytes → Bytes
written ls = write_lines ls ++ (write_sideband_pkt_line 1 (codes "0000") ++ write_flush_pkt)

frames-written :
    (ls : List Bytes) (fuel : ℕ)
    → Short 9 ls
    → suc (length ls) < fuel
    → frames fuel (written ls) ≡ ok (outer_packets ls, [])
unfolding written
frames-written ls fuel s h =
    ap (frames fuel) (
      write_lines-outer ls write_flush_pkt
      ∙ ap (◌++◌ (write_all (outer_packets ls))) (sym (append-nil write_flush_pkt)))
    ∙ frames-write_all (outer_packets ls) fuel [] (outer-Short ls s)
        (omega (arith, length-outer ls))

frames-inner :
    (ls : List Bytes) (fuel : ℕ)
    → Short 9 ls
    → length ls < fuel
    → frames fuel (band_one (outer_packets ls)) ≡ ok (ls, [])
frames-inner ls fuel s h =
    ap (frames fuel)
      (band_one-outer ls ∙ ap (◌++◌ (write_all ls)) (sym (append-nil write_flush_pkt)))
    ∙ frames-write_all ls fuel [] (Short-mono ls s) h

-- As long as each line fits a packet, the side-band stream ends with a flush and nothing behind it, and
-- what it carries on band 1 is `unpack ok`, one `ng` line for each update, in order, and a flush.
pub write_report_demux :
    (us : List RefUpdate) (xs : List Reason)
    → Short 9 (report_lines us xs)
    → (packets : List Bytes) × (frames (length us + 3) (write_report_status_rejection us xs)
        ≡ ok (packets, []))
      × (frames (length us + 2) (band_one packets) ≡ ok (report_lines us xs, []))
unfolding write_report_status_rejection written
write_report_demux us xs s = (
  outer_packets (report_lines us xs),
  frames-written (report_lines us xs) (length us + 3) s (omega (arith, length-report_lines us xs)),
  frames-inner (report_lines us xs) (length us + 2) s (omega (arith, length-report_lines us xs)),
)
