-- ===== src/Log/Levels.antt =====
-- The level filter, on a log that the logger has written.
use tcp_server_simulator.Prelude.{
  inl, inr, ◌⊎◌, All, Bool, Bytes, List, Result, [], ap, arith, false, if◌then◌else◌, map, not, ok,
  refl, true, ◌&&◌, ◌>>=◌, ◌∙◌, ◌∷◌, ◌≡◌,
}
use tcp_server_simulator.Log.Search.{Occurs, matches_query-lem, text_eq-lem}
use tcp_server_simulator.Log.{
  Level, Loaded, all, critical, debug, error, filter_from, filter_log_lines, info, keep_if, keeps,
  level_matches, level_of, levelname, levelno, lower, matches_query, object, parse_log_level, strip,
  text_eq, upper, warn, warning,
}

-- A line of the log, with the level of its record.
pub record Entry : Type 0 where
  pub level : Level
  pub line : Bytes

abbrev pub lines_of : List Entry → List Bytes
lines_of = map (λ (e : Entry). e.line)

-- The line is the object that the formatter wrote for its record.
abbrev pub IsWritten : (Bytes → Loaded) → Entry → Type 0
IsWritten loads e = loads e.line ≡ object (levelname e.level)

-- The lines that the tests of the loop keep: those of a level's name that hold the query.
unfoldable shown : Bytes → Bytes → List Entry → List Bytes
unfolding text_eq levelname matches_query
shown level query [] = []
shown level query (e ∷ es) =
    keep_if (matches_query query e.line && text_eq (levelname e.level) level) e.line
      (shown level query es)

upper-levelname : (l : Level) → upper (levelname l) ≡ levelname l
unfolding levelname
upper-levelname debug = refl
upper-levelname info = refl
upper-levelname warning = refl
upper-levelname error = refl
upper-levelname critical = refl

normal-levelname : (l : Level) → upper (strip (levelname l)) ≡ levelname l
unfolding levelname strip
normal-levelname debug = refl
normal-levelname info = refl
normal-levelname warning = refl
normal-levelname error = refl
normal-levelname critical = refl

normal-warn : upper (strip warn) ≡ warn
unfolding strip
normal-warn = refl

warn-all : text_eq warn all ≡ false
unfolding text_eq
warn-all = refl

levelname-all : (l : Level) → text_eq (levelname l) all ≡ false
unfolding levelname text_eq
levelname-all debug = refl
levelname-all info = refl
levelname-all warning = refl
levelname-all error = refl
levelname-all critical = refl

levelname-warn : (l : Level) → text_eq (levelname l) warn ≡ false
unfolding levelname text_eq
levelname-warn debug = refl
levelname-warn info = refl
levelname-warn warning = refl
levelname-warn error = refl
levelname-warn critical = refl

decided :
    (m a x : Bool) (r : Result Bool)
    → a ≡ false
    → r ≡ ok x
    → (if not m then ok false else if a then ok true else r) ≡ ok (m && x)
decided true a x r h k = ground (arith, h, k)
decided false a x r h k = refl

keeps-written :
    (loads : Bytes → Loaded) (level query : Bytes) (e : Entry)
    → text_eq level all ≡ false
    → IsWritten loads e
    → keeps loads level query e.line
      ≡ ok (matches_query query e.line && text_eq (levelname e.level) level)
unfolding keeps level_matches
keeps-written loads level query e n w =
    decided (matches_query query e.line) (text_eq level all) (text_eq (levelname e.level) level)
      (level_matches (loads e.line) level) n
      (ap (λ o. level_matches o level) w ∙ ap (λ t. ok (text_eq t level)) (upper-levelname e.level))

filter_from-shown :
    (loads : Bytes → Loaded) (level query : Bytes) (es : List Entry)
    → text_eq level all ≡ false
    → All (IsWritten loads) es
    → filter_from loads level query (lines_of es) ≡ ok (shown level query es)
unfolding filter_from shown
filter_from-shown loads level query [] n w = refl
filter_from-shown loads level query (e ∷ es) n w =
    let b = matches_query query e.line && text_eq (levelname e.level) level in
    let rest = filter_from loads level query (lines_of es) in
    ap (λ x. x >>= λ kept. rest >>= λ filtered. ok (keep_if kept e.line filtered))
      (keeps-written loads level query e n w.0)
    ∙ ap (λ y. y >>= λ filtered. ok (keep_if b e.line filtered))
        (filter_from-shown loads level query es n w.1)

drops_line :
    (m a : Bool) (line : Bytes) (lines : List Bytes)
    → a ≡ false
    → lines ≡ []
    → keep_if (m && a) line lines ≡ []
drops_line true a line lines h k = ground (arith, h, k)
drops_line false a line lines h k = k

shown-warn : (query : Bytes) (es : List Entry) → shown warn query es ≡ []
unfolding shown
shown-warn query [] = refl
shown-warn query (e ∷ es) =
    drops_line (matches_query query e.line) (text_eq (levelname e.level) warn) e.line
      (shown warn query es) (levelname-warn e.level) (shown-warn query es)

-- A line that the panel should show: of a record of this level, with the query in its text in lower case.
pub record Fits (l : Level) (query : Bytes) (e : Entry) : Type 0 where
  pub level_eq : levelname e.level ≡ levelname l
  pub found : Occurs query (lower e.line)

-- These lines are those of the entries that fit, in order.
unfoldable pub Selects : Level → Bytes → List Entry → List Bytes → Type 0
Selects l query [] lines = lines ≡ []
Selects l query (e ∷ es) lines =
    (Fits l query e × ((rest : List Bytes) × (lines ≡ e.line ∷ rest) × Selects l query es rest))
    ⊎ (¬ (Fits l query e) × Selects l query es lines)

shown-Selects :
    (l : Level) (query : Bytes) (es : List Entry)
    → Selects l query es (shown (levelname l) query es)
unfolding Selects shown
shown-Selects l query [] = refl
shown-Selects l query (e ∷ es) =
    let rest = shown-Selects l query es in
    elim (matches_query-lem query e.line) [
      | inr (m, k) ↦ inr (λ fits. k fits.found, rw m rest)
      | inl (m, found) ↦ elim (text_eq-lem (levelname e.level) (levelname l)) [
        | inr (t, k) ↦ inr (λ fits. k fits.level_eq, rw (m, t) rest)
        | inl (t, same) ↦ inl (
          record { level_eq = same; found = found },
          (shown (levelname l) query es, rw (m, t) refl, rest),
        )
      ]
    ]

parse-levelname : (l : Level) → parse_log_level (levelname l) ≡ levelno l
unfolding parse_log_level level_of levelno strip levelname text_eq
parse-levelname debug = refl
parse-levelname info = refl
parse-levelname warning = refl
parse-levelname error = refl
parse-levelname critical = refl

-- What the panel shows, and what the logger makes of the same names.
pub record Filtered (es : List Entry) (l : Level) (query : Bytes)
    (by_level by_warn : Result (List Bytes)) : Type 0 where
  pub lines : List Bytes
  pub shows : by_level ≡ ok lines
  pub selects : Selects l query es lines
  pub no_warn : by_warn ≡ ok []
  pub level_taken : parse_log_level (levelname l) ≡ levelno l
  pub warn_taken : parse_log_level warn ≡ levelno warning

-- On a log whose lines the formatter has written, the filter raises nothing; for the name of a level it shows,
-- in order, the lines of that level whose text in lower case holds the stripped search text in lower case, and
-- no other; but for WARN, which the panel offers, it shows no line. The logger takes the name of each level for
-- the level, and WARN for WARNING.
pub filter_log_lines-levels :
    (loads : Bytes → Loaded) (es : List Entry) (search_text : Bytes) (l : Level)
    → All (IsWritten loads) es
    → Filtered es l
        (lower (strip search_text))
        (filter_log_lines loads (lines_of es) (levelname l) search_text)
        (filter_log_lines loads (lines_of es) warn search_text)
unfolding filter_log_lines
filter_log_lines-levels loads es search_text l w =
    let query = lower (strip search_text) in
    record {
      lines = shown (levelname l) query es;
      shows =
          ap (λ level. filter_from loads level query (lines_of es)) (normal-levelname l)
          ∙ filter_from-shown loads (levelname l) query es (levelname-all l) w;
      selects = shown-Selects l query es;
      no_warn =
          ap (λ level. filter_from loads level query (lines_of es)) normal-warn
          ∙ filter_from-shown loads warn query es warn-all w
          ∙ ap (λ lines. ok lines) (shown-warn query es);
      level_taken = parse-levelname l;
      warn_taken = unfold parse_log_level level_of levelno strip levelname text_eq in refl;
    }
