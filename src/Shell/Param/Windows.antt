-- ===== src/Shell/Param/Windows.antt =====
-- Which parameters of a table `param table` lists from another node, and which values it fetches.
use mathlib.Core.List.{append_assoc, append-nil}
use k_fsw.Base.{
  ℕ, zero, suc, ◌+◌, ◌-◌, ◌≤◌, ◌<◌, ◌≡◌, refl, ap, sym, ◌∙◌, inl, inr, Bool, List, [], ◌∷◌, ◌++◌,
  map, arith, leb, ◌==◌, if◌then◌else◌, ℤ, ok, is_ok, take, drop, length, length-append, length-map,
  length-take, length-drop, All, Bool-cases,
}
use k_fsw.Text.{Bytes, codes}
use k_fsw.Env.{Proc, pure}
use k_fsw.Shell.Service.{ServiceCall, ParamValue, param_remote_get_many}
use k_fsw.Shell.{ShellCall, service, requests}
use k_fsw.Shell.Remote.{remote_failed}
use k_fsw.Shell.Param.{ParamInfo, ParamShell}
use k_fsw.Shell.Param.Columns.{print_list_header}
use k_fsw.Shell.Param.Table.{
  table_names_max, remote_window, collect_from, print_rows, print_windows, print_collected,
}

take-nil : (n : ℕ) → take {A = ParamInfo} n [] ≡ []
take-nil zero = refl
take-nil (suc n) = refl

-- The descriptors of a table.
abbrev pub of_table : ℕ → List ParamInfo → List ParamInfo
of_table table [] = []
of_table table (i ∷ is) = if i.table == table then i ∷ of_table table is else of_table table is

collect_from-take :
    (table : ℕ) (collected infos : List ParamInfo)
    → length collected ≤ table_names_max
    → collect_from table collected infos
      ≡ collected ++ take (table_names_max - length collected) (of_table table infos)
unfolding collect_from
collect_from-take table collected [] room = sym (rw take-nil (append-nil collected))
collect_from-take table collected (i ∷ is) room = elim (Bool-cases (i.table == table)) [
  | inr other ↦ rw other (collect_from-take table collected is room)
  | inl mine ↦ elim (Bool-cases (leb table_names_max (length collected))) [
    | inl full ↦ rw mine (
        rw full (
          let none_left : table_names_max - length collected ≡ 0 = ground arith in
          rw none_left (sym (append-nil collected))))
    | inr free ↦ rw mine (
        rw free (
          let one_more : table_names_max - length collected
              ≡ suc (table_names_max - suc (length collected)) =
            ground arith in
          let longer : length (collected ++ i ∷ []) ≡ suc (length collected) =
            rw length-append (omega arith) in
          rw one_more (
            collect_from-take table (collected ++ i ∷ []) is (rw longer (ground arith))
            ∙ rw longer (append_assoc collected (i ∷ []) _))))
  ]
]

-- What is collected of a visit are the first 32 of its descriptors that are in the table, in
-- order.
collect_from-of_table :
    (table : ℕ) (infos : List ParamInfo)
    → collect_from table [] infos ≡ take table_names_max (of_table table infos)
collect_from-of_table table infos = collect_from-take table [] infos (omega arith)

-- The requests for windows of values, the newest first.
abbrev pub fetched : ℕ → List (List Bytes) → List ServiceCall
fetched node [] = []
fetched node (w ∷ ws) = fetched node ws ++ param_remote_get_many node w ∷ []

abbrev pub concat : List (List Bytes) → List Bytes
concat [] = []
concat (w ∷ ws) = w ++ concat ws

-- Windows of at most 8 names, and no empty one.
abbrev pub IsWindow : List Bytes → Type 0
IsWindow w = (0 < length w) × (length w ≤ remote_window)

remote_failed-quiet :
    (what : Bytes) (node : ℕ) (result : ℤ) (h : List ShellCall)
    → requests (remote_failed what node result h).1 ≡ requests h
unfolding remote_failed
remote_failed-quiet what node result h = ground arith

-- The failure of a window is told.
abbrev told : ℕ → ℤ → Proc ShellCall ℤ
told node result = if is_ok result then pure ok else remote_failed (codes "param table") node result

told-quiet :
    (node : ℕ) (result : ℤ) (h : List ShellCall) → requests (told node result h).1 ≡ requests h
told-quiet node result h = elim (Bool-cases (is_ok result)) [
  | inl good ↦ rw good refl
  | inr bad ↦ rw bad (remote_failed-quiet (codes "param table") node result h)
]

names_split :
    (n : ℕ) (infos : List ParamInfo)
    → map (λ x. x.name) (take n infos) ++ map (λ x. x.name) (drop n infos) ≡ map (λ x. x.name) infos
names_split zero infos = refl
names_split (suc n) [] = refl
names_split (suc n) (i ∷ is) = ap (◌∷◌ i.name) (names_split n is)

IsWindow-size :
    (i : ParamInfo) (is : List ParamInfo)
    → IsWindow (map (λ x. x.name) (take remote_window (i ∷ is)))
IsWindow-size i is =
    let counted = length-map (take remote_window (i ∷ is)) (λ x. x.name) in
    let taken = length-take remote_window (i ∷ is) in
    (omega (arith, counted, taken), omega (arith, counted, taken))

module _ (env : ParamShell) where
  print_rows-quiet :
      (table : ℕ) (read_ok : Bool) (values : ℕ → ParamValue) (offset : ℕ) (infos : List ParamInfo)
      → (h : List ShellCall)
      → requests (print_rows env table read_ok values offset infos h).1 ≡ requests h
  unfolding print_rows
  print_rows-quiet table read_ok values offset [] h = refl
  print_rows-quiet table read_ok values offset (i ∷ is) h =
      print_rows-quiet table read_ok values (offset + 1) is _

  -- All names are fetched, in order and each once, in windows.
  abbrev pub Fetches : ℕ → List ParamInfo → List ShellCall → ℤ × List ShellCall → Type 0
  Fetches node infos h r =
      (r.0 ≡ ok)
      × ((ws : List (List Bytes)) × (requests r.1 ≡ fetched node ws ++ requests h)
          × (concat ws ≡ map (λ x. x.name) infos)
          × All IsWindow ws)

  print_windows-Fetches :
      (fuel node table : ℕ) (infos : List ParamInfo) (h : List ShellCall)
      → length infos ≤ fuel
      → Fetches node infos h (print_windows env fuel node table infos h)
  unfolding print_windows
  print_windows-Fetches zero node table [] h f = (refl, ([], refl, refl, tt))
  print_windows-Fetches zero node table (i ∷ is) h f = absurd (omega arith)
  print_windows-Fetches (suc fuel) node table [] h f = (refl, ([], refl, refl, tt))
  print_windows-Fetches (suc fuel) node table (i ∷ is) h f =
      let span = take remote_window (i ∷ is) in
      let names = map (λ x. x.name) span in
      let c = param_remote_get_many node names in
      let result = env.result h c in
      let h' = (told node result (service c ∷ h)).1 in
      let rows = print_rows env table (is_ok result) (env.window (service c ∷ h)) 0 span h' in
      let (good, (ws, sent, all, windows)) =
        print_windows-Fetches fuel node table (drop remote_window (i ∷ is)) rows.1
          (rw length-drop (omega arith)) in
      (
        good,
        (
          names ∷ ws,
          sent
              ∙ ap (λ r. fetched node ws ++ r)
                  (print_rows-quiet table (is_ok result) (env.window (service c ∷ h)) 0 span h'
                    ∙ told-quiet node result (service c ∷ h))
              ∙ sym (append_assoc (fetched node ws) (c ∷ []) (requests h)),
          ap (λ r. names ++ r) all ∙ names_split remote_window (i ∷ is),
          (IsWindow-size i is, windows),
        ),
      )

  -- Listing the descriptors collected from another node always ends, with result 0, and has asked
  -- for the value of each of them, in order and each once, in windows of one to eight names, also
  -- when windows fail.
  pub print_collected-Fetches :
      (node table : ℕ) (infos : List ParamInfo) (h : List ShellCall)
      → Fetches node infos h (print_collected env node table infos h)
  unfolding print_list_header print_collected
  print_collected-Fetches node table [] h = (refl, ([], refl, refl, tt))
  print_collected-Fetches node table (i ∷ is) h =
      print_windows-Fetches (length (i ∷ is)) node table (i ∷ is) _ (omega arith)
