-- ===== src/Procfs/Table.antt =====
-- `parseProcTableWithStatus` of internal/localdiagnosis/procfs.go.
use mathlib.Core.Path.{subst}
use route_doc.Common.{
  ℕ, ◌≡◌, ◌≢◌, ◌↔◌, ◌≤◌, refl, true, false, List, [], ◌∷◌, Text, arith, All, All-map, All-sort,
  Exists, now, later, Exists-sort, length, ltb,
}
use route_doc.Model.Enums.{AddressFamily}
use route_doc.Procfs.Scan.{split_lines, fields}
use route_doc.Procfs.Row.{
  Listener, LineResult, max_proc_file_bytes, parse_fields, parse_lines, less_listener,
  sort_listeners, parse_proc_table,
}
use route_doc.Procfs.Rows.{Lists, parse_fields-Lists, Lists-parse_fields}

-- Each of the three results, with the equation.
data Outcome (r : LineResult) : Type 0 where
  skips : r ≡ LineResult.skipped → Outcome r
  fails : r ≡ LineResult.malformed → Outcome r
  gives : (l : Listener) → r ≡ LineResult.listens l → Outcome r

outcome : (r : LineResult) → Outcome r
outcome LineResult.skipped = skips refl
outcome LineResult.malformed = fails refl
outcome (LineResult.listens l) = gives l refl

module _ (family : AddressFamily) (port : ℕ) where
  abbrev ListedBy : Text → Listener → Type 0
  ListedBy line l = Lists family port l (fields line)

  parse_lines_sound :
      (lines : List Text)
      → All (λ l. Exists (λ line. ListedBy line l) lines) (parse_lines family port lines).0
  unfolding parse_lines
  parse_lines_sound [] = tt
  parse_lines_sound (line ∷ lines) =
      let rest =
        All-map (λ l. Exists (λ x. ListedBy x l) lines)
          (λ l. Exists (λ x. ListedBy x l) (line ∷ lines)) _ (λ l e. later e)
          (parse_lines_sound lines) in
      elim (outcome (parse_fields family port (fields line))) [
        | skips e ↦ rw (e, parse_lines) rest
        | fails e ↦ rw (e, parse_lines) rest
        | gives l e ↦
            rw (e, parse_lines) (now (parse_fields-Lists family port l (fields line) e), rest)
      ]

  parse_lines_complete :
      (l : Listener) (lines : List Text)
      → Exists (λ line. ListedBy line l) lines
      → Exists (λ m. m ≡ l) (parse_lines family port lines).0
  unfolding parse_lines
  parse_lines_complete l [] e = elim e [ ]
  parse_lines_complete l (line ∷ lines) (now c) =
      rw (Lists-parse_fields family port l (fields line) c, parse_lines) (now refl)
  parse_lines_complete l (line ∷ lines) (later e) =
      let rest = parse_lines_complete l lines e in
      elim (outcome (parse_fields family port (fields line))) [
        | skips q ↦ rw (q, parse_lines) rest
        | fails q ↦ rw (q, parse_lines) rest
        | gives m q ↦ rw (q, parse_lines) (later rest)
      ]

  parse_lines_flag :
      (lines : List Text)
      → ((parse_lines family port lines).1 ≡ true)
        ↔ All (λ line. parse_fields family port (fields line) ≢ LineResult.malformed) lines
  unfolding parse_lines
  parse_lines_flag [] = (λ h. tt, λ h. refl)
  parse_lines_flag (line ∷ lines) =
      let rest = parse_lines_flag lines in
      elim (outcome (parse_fields family port (fields line))) [
        | skips e ↦ rw (e, parse_lines) (λ h. (λ q. cc q, rest.0 h), λ h. rest.1 h.1)
        | fails e ↦ rw (e, parse_lines) (λ h. absurd (cc h), λ h. absurd (h.0 refl))
        | gives l e ↦ rw (e, parse_lines) (λ h. (λ q. cc q, rest.0 h), λ h. rest.1 h.1)
      ]

All-Exists :
    (P : Listener → Type 0) (l : Listener) (ms : List Listener)
    → All P ms
    → Exists (λ m. m ≡ l) ms
    → P l
All-Exists P l [] h e = elim e [ ]
All-Exists P l (m ∷ ms) (p, h) (now e) = subst P e p
All-Exists P l (m ∷ ms) (p, h) (later e) = All-Exists P l ms h e

-- From a table that is not too long, exactly those listeners are returned that a line lists: a
-- well-formed row in the listening state on the port, with the row's address, user and socket. The
-- table is complete exactly when no line is malformed.
pub parse_proc_table_iff :
    (bytes : Text) (family : AddressFamily) (port : ℕ)
    → length bytes ≤ max_proc_file_bytes
    → ((l : Listener)
        → Exists (λ m. m ≡ l) (parse_proc_table bytes family port).0
          ↔ Exists (λ line. Lists family port l (fields line)) (split_lines bytes))
      × (((parse_proc_table bytes family port).1 ≡ true)
          ↔ All
              (λ line. parse_fields family port (fields line) ≢ LineResult.malformed)
              (split_lines bytes))
unfolding parse_proc_table sort_listeners
parse_proc_table_iff bytes family port h =
    let lines = split_lines bytes in
    let small : ltb max_proc_file_bytes (length bytes) ≡ false = ground arith in
    rw small (
      λ l. (
        λ e.
            All-Exists (λ m. Exists (λ line. Lists family port m (fields line)) lines) l _
              (All-sort (λ m. Exists (λ line. Lists family port m (fields line)) lines)
                less_listener _ (parse_lines_sound family port lines))
              e,
        λ e. Exists-sort (λ m. m ≡ l) less_listener _ (parse_lines_complete family port l lines e),
      ),
      parse_lines_flag family port lines,
    )
