-- ===== src/Hk/Entries/Tests.antt =====
-- Runs of the parser on the texts of its unit suite, and the theorems at concrete inputs.
use k_fsw.Base.{
  ◌+◌, ◌*◌, ◌≤◌, ◌≡◌, refl, ◌⊎◌, true, false, Option, none, some, List, [], ◌∷◌, ◌<◌, ℤ, map, arith,
  length, drop, All, ok, einval, e2big,
}
use k_fsw.Text.{Bytes, codes, starts_with}
use k_fsw.Text.Strtoul.{strtoul}
use k_fsw.Hk.Header.{HkHeader, Entry}
use k_fsw.Hk.Entries.{
  parse_part, parse_parts, checked, entry_of_parts, read_entry, parse_entry, skip_spaces, Batch,
  parse_entries, class_value, parse_class,
}
use k_fsw.Hk.Entries.Sound.{InRange, parse_entries-Sound}
use k_fsw.Hk.Entries.Print.{Fields, FieldsFit, entry_of, print_entry}
use k_fsw.Hk.Entries.Lists.{joined, AllName, parse_entries-joined, parse_entries-print}
use k_fsw.Hk.Entries.Class.{Ended, parse_class_result}

abbrev header : HkHeader
header = record {
  node_local = 0;
  class_default = 4;
  class_max = 7;
  offset_max = 255;
  param_id = λ table offset. table * 256 + offset;
}

abbrev old : Entry
old = record { node = 7; param_id = 7 }

abbrev parse : Bytes → ℤ × Option Entry
parse text = parse_entry header 64 (some text) (some old)

local_entry : parse (codes "2:0x10") ≡ (ok, some (record { node = 0; param_id = 528 }))
unfolding parse_entry read_entry parse_parts parse_part entry_of_parts checked strtoul
local_entry = refl

refused_entries :
    (parse (codes "1:300") ≡ (einval, some old))
    × (parse (codes "70000:1:4") ≡ (einval, some old))
    × (parse (codes "99999999999999999999:1") ≡ (einval, some old))
    × (parse (codes "-1:4") ≡ (einval, some old))
    × (parse (codes "1:2:3:") ≡ (einval, some old))
    × (parse (codes "1:2x") ≡ (einval, some old))
unfolding parse_entry read_entry parse_parts parse_part entry_of_parts checked strtoul
refused_entries = (refl, refl, refl, refl, refl, refl)

-- A sign is taken in a class, and its value wraps.
signed_class :
    parse_class header 64 (codes "class=-18446744073709551612 1:0")
    ≡ record { result = ok; text = codes "1:0"; retrieval_class = 4 }
unfolding parse_class starts_with strtoul class_value skip_spaces
signed_class = refl

abbrev two_fields : List Fields
two_fields =
    record { node = none; table = 2; offset = 16 }
    ∷ record { node = some 3; table = 9; offset = 8 }
    ∷ []

two_fields-fit : All (FieldsFit header) two_fields
two_fields-fit = omega arith

parse_entries-Sound_example :
    (b : Batch) × (parse_entries header 64 (some (codes "1:0 2:4  3:9:8")) true 2 ≡ some b)
    × (length b.entries ≤ 2)
    × All (InRange header) b.entries
    × (((b.result ≡ ok) × (b.count ≡ some (length b.entries)) × (0 < length b.entries))
        ⊎ (((b.result ≡ einval) ⊎ (b.result ≡ e2big)) × (b.count ≡ none)))
parse_entries-Sound_example = parse_entries-Sound header 64 (some (codes "1:0 2:4  3:9:8")) true 2

two_words-name :
    AllName header 64
      (codes "1:0" ∷ codes "3:9:8" ∷ [])
      (record { node = 0; param_id = 256 } ∷ record { node = 3; param_id = 2312 } ∷ [])
unfolding read_entry parse_parts parse_part entry_of_parts checked strtoul
two_words-name = (
  record {
    nonempty = λ e. cc;
    no_space = (refl, (refl, (refl, tt)));
    short = omega arith;
    read = refl;
  },
  (
    record {
      nonempty = λ e. cc;
      no_space = (refl, (refl, (refl, (refl, (refl, tt)))));
      short = omega arith;
      read = refl;
    },
    tt,
  ),
)

parse_entries-joined_example :
    parse_entries header 64 (some (codes "1:0 3:9:8")) true 1
    ≡ some (record {
      result = e2big;
      entries = record { node = 0; param_id = 256 } ∷ [];
      count = none;
    })
parse_entries-joined_example =
    parse_entries-joined header 64 1 (codes "1:0" ∷ codes "3:9:8" ∷ [])
      (record { node = 0; param_id = 256 } ∷ record { node = 3; param_id = 2312 } ∷ [])
      (omega arith) (omega arith) two_words-name

parse_entries-print_example :
    parse_entries header 64 (some (joined (map print_entry two_fields))) true 4
    ≡ some (record { result = ok; entries = map (entry_of header) two_fields; count = some 2 })
parse_entries-print_example =
    parse_entries-print header 64 4 two_fields (omega arith) (omega arith) (omega arith)
      (omega arith) two_fields-fit

parse_class_result_example :
    let text = codes "class=3  1:0" in
    let c = parse_class header 64 text in
    ((starts_with (codes "class=") text ≡ false)
      × (c ≡ record { result = ok; text = text; retrieval_class = 4 }))
    ⊎ ((starts_with (codes "class=") text ≡ true) × Ended header text (strtoul 64 (drop 6 text)) c)
parse_class_result_example = parse_class_result header 64 (codes "class=3  1:0") (omega arith)
