-- ===== src/Githttp/Examples.antt =====
-- The pkt-line code on concrete bytes.
use jamsesh.Prelude.{◌++◌, [], arith, List, refl, some, ◌∷◌, ◌≡◌, ◌≢◌}
use jamsesh.Githttp.Commands.{
  command_line, read_command_list-write, read_command_list_total, Sendable, write_commands,
}
use jamsesh.Githttp.Framing.{band_one, frames}
use jamsesh.Githttp.Pktline.{
  ng_line, ok, out_of_fuel, per_ref, read_command_list, Reason, reason_for, RefUpdate, report_lines,
  write_report_status_rejection,
}
use jamsesh.Githttp.Report.{write_report_demux}
use jamsesh.Go.Strings.{Bytes, codes, free_of, same}

abbrev update : RefUpdate
update = record { old_sha = codes "a1"; new_sha = codes "b2"; ref = codes "refs/heads/x" }

update-Sendable : Sendable update
unfolding free_of same command_line
update-Sendable = record {
  old_ok = refl;
  old_ne = refl;
  new_ok = refl;
  no_nul = refl;
  fits = omega arith;
}

read_command_list_total_example : read_command_list (codes "0008bad") ≢ out_of_fuel
read_command_list_total_example = read_command_list_total (codes "0008bad")

read_command_list-write_example :
    read_command_list (write_commands (update ∷ []) ++ codes "PACK")
    ≡ ok (record { updates = update ∷ []; caps = []; pack = codes "PACK" })
read_command_list-write_example =
    read_command_list-write (update ∷ []) (codes "PACK") (update-Sendable, tt)

abbrev reason : Reason
reason = record { ref = some (codes "refs/heads/x"); message = codes "no" }

write_report_demux_example :
    (packets : List Bytes) × (frames 4 (write_report_status_rejection (update ∷ []) (reason ∷ []))
      ≡ ok (packets, []))
    × (frames 3 (band_one packets) ≡ ok (report_lines (update ∷ []) (reason ∷ []), []))
unfolding report_lines ng_line reason_for per_ref same
write_report_demux_example =
    write_report_demux (update ∷ []) (reason ∷ []) (omega arith, (omega arith, tt))
