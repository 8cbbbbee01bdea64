-- ===== src/Shell/Hk/Define.antt =====
-- `hk define` on this node: what reaches the housekeeping service.
use k_fsw.Base.{
  ℕ, suc, ◌%◌, ◌≤◌, ◌<◌, ◌≡◌, refl, ap, ◌∙◌, ◌⊎◌, inl, inr, false, Option, none, some, List, [],
  ◌∷◌, ◌++◌, arith, leb, ltb, ◌==◌, All, length, ℤ, is_ok, not, ◌||◌, Bool-cases, Option-cases,
}
use k_fsw.Text.{Bytes, codes, decimal, starts_with}
use k_fsw.Hk.Header.{Entry}
use k_fsw.Hk.Entries.{read_entry, ClassRead, parse_class}
use k_fsw.Hk.Entries.Sound.{InRange, read_entry-InRange}
use k_fsw.Hk.Entries.Class.{parse_class-le}
use k_fsw.Env.{pure, ◌>>=◌}
use k_fsw.Shell.Service.{hk_define_class}
use k_fsw.Shell.{ShellCall, service, requests}
use k_fsw.Shell.Hk.{
  HkShell, settled, parse_u32, parse_all, define_entries, define_in_class, define_classed,
  define_local, or_einval, or_none, number_read, names_report, cmd_hk_define,
}

-- A definition that the service can take: a report of the build, at least one entry and at most
-- what a report holds, every entry in range, and a class in range.
pub record Takeable (env : HkShell) (report : ℕ) (entries : List Entry) (class : ℕ) : Type 0 where
  pub known : report < env.reports
  pub some_entries : 0 < length entries
  pub room : length entries ≤ env.build.hk_entries
  pub in_range : All (InRange env.build.hk_header) entries
  pub class_fits : class ≤ env.build.hk_header.class_max

-- An error, and no request; or the one request of a definition that can be taken.
abbrev pub Defines : HkShell → ℕ → List ShellCall → ℤ × List ShellCall → Type 0
Defines env report h (result, after) =
    ((is_ok result ≡ false) × (requests after ≡ requests h))
    ⊎ ((entries : List Entry) × (class : ℕ) × (requests after
          ≡ hk_define_class report entries class ∷ requests h)
        × Takeable env report entries class)

-- What the loop over the entries gives.
abbrev AllRead :
    HkShell → List Bytes → List ShellCall → Option (List Entry) × List ShellCall → Type 0
AllRead env ws h (none, after) = requests after ≡ requests h
AllRead env ws h (some es, after) =
    (after ≡ h) × (length es ≡ length ws) × All (InRange env.build.hk_header) es

module _ (env : HkShell) where
  pub settled-quiet :
      (failure success : Bytes) (result : ℤ) (h : List ShellCall)
      → requests (settled env failure success result h).1 ≡ requests h
  settled-quiet failure success result h = ground arith

  parse_u32-quiet :
      (text what : Bytes) (h : List ShellCall) → requests (parse_u32 env text what h).1 ≡ requests h
  unfolding parse_u32
  parse_u32-quiet text what h = ground arith

  AllRead-cons :
      (e : Entry) (w : Bytes) (ws : List Bytes) (h : List ShellCall)
      → (r : Option (List Entry) × List ShellCall) → InRange env.build.hk_header e
      → AllRead env ws h r
      → AllRead env (w ∷ ws) h (or_none (λ es. pure (some (e ∷ es))) r.0 r.1)
  AllRead-cons e w ws h (none, after) fits read = read
  AllRead-cons e w ws h (some es, after) fits (same, counted, all) =
      (same, ap suc counted, (fits, all))

  parse_all-AllRead : (ws : List Bytes) (h : List ShellCall) → AllRead env ws h (parse_all env ws h)
  unfolding parse_all
  parse_all-AllRead [] h = (refl, refl, tt)
  parse_all-AllRead (w ∷ ws) h =
      elim (Option-cases (read_entry env.build.hk_header env.build.long_bits w)) [
        | inl bad ↦ rw (bad, parse_all) refl
        | inr (e, good) ↦
            rw (good, parse_all)
              (AllRead-cons e w ws h (parse_all env ws h)
                (read_entry-InRange env.build.hk_header env.build.long_bits w good)
                (parse_all-AllRead ws h))
      ]

  module _ (narrow : env.reports ≤ 256) where
    define_entries-Defines :
        (class report : ℕ) (ws : List Bytes) (h : List ShellCall)
        → (r : Option (List Entry) × List ShellCall) → class ≤ env.build.hk_header.class_max
        → report < env.reports
        → 0 < length ws
        → length ws ≤ env.build.hk_entries
        → AllRead env ws h r
        → Defines env report h (define_entries env report class r.0 r.1)
    define_entries-Defines class report ws h (none, after) fits known any room read =
        inl (refl, read)
    define_entries-Defines class report ws h (some es, after) fits known any room
          (same, counted, all) =
        let byte : report % 256 ≡ report = omega arith in
        let c = hk_define_class (report % 256) es class in
        inr (
          es,
          class,
          settled-quiet (codes "define report " ++ decimal report)
                (codes "report "
                  ++ decimal report
                  ++ codes " defines "
                  ++ decimal (length es)
                  ++ codes " values")
                (env.result after c) (service c ∷ after)
              ∙ (rw same (rw byte refl)),
          record {
            known = known;
            some_entries = omega arith;
            room = omega arith;
            in_range = all;
            class_fits = fits;
          },
        )

    define_in_class-Defines :
        (class report : ℕ) (ws : List Bytes) (h : List ShellCall)
        → class ≤ env.build.hk_header.class_max
        → Defines env report h (define_in_class env report class ws h)
    unfolding define_in_class
    define_in_class-Defines class report ws h fits =
        elim (Bool-cases (leb env.reports report || length ws == 0)) [
          | inl bad ↦ rw bad (inl (refl, refl))
          | inr good ↦ elim (Bool-cases (ltb env.build.hk_entries (length ws))) [
            | inl many ↦ rw good (rw many (inl (refl, refl)))
            | inr room ↦ rw good (
                rw room (
                  define_entries-Defines class report ws h (parse_all env ws h) fits (ground arith)
                    (ground arith) (ground arith) (parse_all-AllRead ws h)))
          ]
        ]

    -- What the class in front gives.
    define_classed-Defines :
        (report : ℕ) (k : ClassRead) (ws : List Bytes) (h : List ShellCall)
        → is_ok k.result ≡ false ⊎ (k.retrieval_class ≤ env.build.hk_header.class_max)
        → Defines env report h (define_classed env report k ws h)
    define_classed-Defines report k ws h (inl bad) = rw bad (inl (bad, refl))
    define_classed-Defines report k ws h (inr fits) =
        elim (Bool-cases (not (is_ok k.result) || not (length k.text == 0))) [
          | inl bad ↦ rw bad (inl (ground arith, refl))
          | inr good ↦ rw good (define_in_class-Defines k.retrieval_class report ws h fits)
        ]

    module _ (default : env.build.hk_header.class_default ≤ env.build.hk_header.class_max)
        (classes : env.build.hk_header.class_max ≤ 255) where
      class_read :
          (text : Bytes)
          → let k = parse_class env.build.hk_header env.build.long_bits text in
            (is_ok k.result ≡ false) ⊎ (k.retrieval_class ≤ env.build.hk_header.class_max)
      class_read text =
          inr (parse_class-le env.build.hk_header env.build.long_bits text default classes)

      define_local-Defines :
          (report : ℕ) (second : Bytes) (ws : List Bytes) (h : List ShellCall)
          → Defines env report h (define_local env report second ws h)
      unfolding define_local
      define_local-Defines report second ws h =
          elim (Bool-cases (starts_with (codes "class=") second)) [
            | inl classed ↦ rw classed (
                define_classed-Defines report
                  (parse_class env.build.hk_header env.build.long_bits second) ws h
                  (class_read second))
            | inr plain ↦ rw plain (
                define_in_class-Defines env.build.hk_header.class_default report (second ∷ ws) h
                  default)
          ]

      number-Defines :
          (first second : Bytes) (r : ℕ × ℤ) (ws : List Bytes) (h : List ShellCall)
          → Defines env r.0 h (
              (number_read env first (codes "report") r
                  >>= or_einval (λ report. define_local env report second ws))
                h)
      number-Defines first second r ws h =
          elim (Bool-cases (not (is_ok r.1) || ltb 4294967295 r.0)) [
            | inl bad ↦ rw bad (inl (refl, refl))
            | inr good ↦ rw good (define_local-Defines r.0 second ws h)
          ]

      -- In a build of at most 256 reports and of classes below 256, with the default class in
      -- range, a definition without a node returns an error and asks the service for nothing; or
      -- it makes one request, on the report that the first word is read as, with a class and
      -- entries that the build can take.
      pub cmd_hk_define-Defines :
          (first second : Bytes) (ws : List Bytes) (h : List ShellCall)
          → names_report env second ws ≡ false
          → Defines env (env.strtoul_0 first).0 h (cmd_hk_define env first second ws h)
      unfolding cmd_hk_define parse_u32
      cmd_hk_define-Defines first second ws h here =
          rw here (number-Defines first second (env.strtoul_0 first) ws h)
