-- ===== src/Tests/Files.antt =====
-- An exported file and a duration at concrete inputs.
use babushop_wifi.Base.{◌≡◌, arith, done, codes, List, [], ◌∷◌, map, select}
use babushop_wifi.Durations.{value_of, to_minutes, duration_parts, to_minutes-duration_parts}
use babushop_wifi.Csv.{ExportRow, is_filled, parse_csv, voucher_export}
use babushop_wifi.Csv.Exports.{export_header, shown_row, parse_csv-voucher_export}

-- A name with quotes and a comma, and one that a spreadsheet would run.
abbrev exported : List ExportRow
exported =
    record {
      code = codes "ABCD-EFGH-JKLM-NPQR";
      package_name = codes "1 \"day\", fast";
      price = codes "1000";
      duration = codes "1440";
    }
    ∷ record {
      code = codes "BCDE-FGHJ-KLMN-PQRS";
      package_name = codes "=1+1";
      price = codes "500";
      duration = codes "60";
    }
    ∷ []

parse_csv-voucher_export_example :
    parse_csv (voucher_export exported) ≡ export_header ∷ select is_filled (map shown_row exported)
parse_csv-voucher_export_example = parse_csv-voucher_export exported

-- Three days.
to_minutes-duration_parts_example :
    to_minutes (duration_parts 4320).duration_amount (value_of (duration_parts 4320).duration_unit)
    ≡ done 4320
to_minutes-duration_parts_example = to_minutes-duration_parts 4320 (omega arith) (omega arith)
