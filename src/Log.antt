-- ===== src/Log.antt =====
-- The log: src/tcp_sim/logging/json_logger.py, which parses levels, and src/tcp_sim/gui/log_panel.py, which
-- loads, filters and exports its lines. The text is ASCII, as `JsonFormatter` writes it; what json.loads makes
-- of a line is an argument.
pub mod Search
pub mod Levels
mod Tests
use tcp_server_simulator.Prelude.{
  Bool, Bytes, List, Option, Result, [], attribute_error, drop, false, if◌then◌else◌, leb, length,
  map, none, not, ok, raise, some, suc, true, zero, ℕ, ◌&&◌, ◌++◌, ◌+◌, ◌-◌, ◌==◌, ◌>>=◌, ◌>>◌,
  ◌||◌, ◌∷◌,
}
use tcp_server_simulator.Framer.{starts_with}

abbrev lower_char : ℕ → ℕ
lower_char c = if leb b'A' c && leb c b'Z' then c + 32 else c

abbrev upper_char : ℕ → ℕ
upper_char c = if leb b'a' c && leb c b'z' then c - 32 else c

-- `text.lower()`, and `text.upper()`.
abbrev pub lower : Bytes → Bytes
lower = map lower_char

abbrev pub upper : Bytes → Bytes
upper = map upper_char

-- The white space of ASCII text.
abbrev is_space : ℕ → Bool
is_space c = (leb 9 c && leb c 13) || (leb 28 c && leb c 32)

abbrev pub strip_left : Bytes → Bytes
strip_left [] = []
strip_left (c ∷ cs) = let rest = strip_left cs in if is_space c then rest else c ∷ cs

abbrev drop_blank : ℕ → Bytes → Bytes
drop_blank c [] = if is_space c then [] else c ∷ []
drop_blank c (d ∷ ds) = c ∷ d ∷ ds

abbrev pub strip_right : Bytes → Bytes
strip_right [] = []
strip_right (c ∷ cs) = drop_blank c (strip_right cs)

-- `text.strip()`
unfoldable pub strip : Bytes → Bytes
strip text = strip_right (strip_left text)

-- `query in text`
unfoldable pub contains : Bytes → Bytes → Bool
unfolding starts_with
contains query [] = starts_with query []
contains query (c ∷ cs) = let rest = contains query cs in starts_with query (c ∷ cs) || rest

unfoldable pub text_eq : Bytes → Bytes → Bool
text_eq [] [] = true
text_eq [] (b ∷ bs) = false
text_eq (a ∷ as_) [] = false
text_eq (a ∷ as_) (b ∷ bs) = let rest = text_eq as_ bs in a == b && rest

-- The names of the levels of Python's logging, and WARN, which the filter offers.
pub data Level : Type 0 where
  debug info warning error critical : Level

unfoldable pub levelname : Level → Bytes
levelname debug = b'D' ∷ b'E' ∷ b'B' ∷ b'U' ∷ b'G' ∷ []
levelname info = b'I' ∷ b'N' ∷ b'F' ∷ b'O' ∷ []
levelname warning = b'W' ∷ b'A' ∷ b'R' ∷ b'N' ∷ b'I' ∷ b'N' ∷ b'G' ∷ []
levelname error = b'E' ∷ b'R' ∷ b'R' ∷ b'O' ∷ b'R' ∷ []
levelname critical = b'C' ∷ b'R' ∷ b'I' ∷ b'T' ∷ b'I' ∷ b'C' ∷ b'A' ∷ b'L' ∷ []

abbrev pub warn : Bytes
warn = b'W' ∷ b'A' ∷ b'R' ∷ b'N' ∷ []

abbrev pub all : Bytes
all = b'A' ∷ b'L' ∷ b'L' ∷ []

unfoldable pub levelno : Level → ℕ
levelno debug = 10
levelno info = 20
levelno warning = 30
levelno error = 40
levelno critical = 50

-- `mapping.get(normalized, logging.INFO)`
unfoldable pub level_of : Bytes → Level
unfolding text_eq levelname
level_of name =
    if text_eq name (levelname debug)
    then debug
    else if text_eq name (levelname info)
    then info
    else if text_eq name warn
    then warning
    else if text_eq name (levelname warning)
    then warning
    else if text_eq name (levelname error)
    then error
    else if text_eq name (levelname critical)
    then critical
    else info

-- `parse_log_level` of a text.
unfoldable pub parse_log_level : Bytes → ℕ
unfolding level_of levelno strip
parse_log_level level = levelno (level_of (upper (strip level)))

-- `load_log_lines`, with the lines of the file, if there is one: `lines[-0:]` is all of them.
unfoldable pub load_log_lines : Option (List Bytes) → ℕ → List Bytes
load_log_lines none max_lines = []
load_log_lines (some lines) zero = lines
load_log_lines (some lines) (suc n) = drop (length lines - suc n) lines

-- What `json.loads` makes of a line: an error, a value with no `get`, or an object, with the text of its
-- level, which is empty if there is none.
pub data Loaded : Type 0 where
  not_json no_object : Loaded
  object : Bytes → Loaded

abbrev pub level_matches : Loaded → Bytes → Result Bool
unfolding text_eq
level_matches not_json level = ok (text_eq [] level)
level_matches no_object level = raise attribute_error
level_matches (object event_level) level = ok (text_eq (upper event_level) level)

abbrev is_empty : Bytes → Bool
is_empty [] = true
is_empty (c ∷ cs) = false

-- The tests of the loop, on the level and the query behind their normalization.
unfoldable pub matches_query : Bytes → Bytes → Bool
unfolding contains
matches_query query line = is_empty query || contains query (lower line)

unfoldable pub keeps : (Bytes → Loaded) → Bytes → Bytes → Bytes → Result Bool
unfolding matches_query level_matches text_eq
keeps loads level query line =
    if not (matches_query query line)
    then ok false
    else if text_eq level all
    then ok true
    else level_matches (loads line) level

abbrev pub keep_if : Bool → Bytes → List Bytes → List Bytes
keep_if b line lines = if b then line ∷ lines else lines

unfoldable pub filter_from : (Bytes → Loaded) → Bytes → Bytes → List Bytes → Result (List Bytes)
unfolding keeps
filter_from loads level query [] = ok []
filter_from loads level query (line ∷ lines) = do
  kept ← keeps loads level query line
  filtered ← filter_from loads level query lines
  ok (keep_if kept line filtered)

-- `filter_log_lines`
unfoldable pub filter_log_lines :
    (Bytes → Loaded) → List Bytes → Bytes → Bytes → Result (List Bytes)
unfolding filter_from strip
filter_log_lines loads lines level_filter search_text =
    filter_from loads (upper (strip level_filter)) (lower (strip search_text)) lines

-- The text that `export_log_lines` writes.
unfoldable pub export_log_lines : List Bytes → Bytes
export_log_lines [] = b'\n' ∷ []
export_log_lines (line ∷ []) = line ++ b'\n' ∷ []
export_log_lines (line ∷ next ∷ lines) = line ++ b'\n' ∷ export_log_lines (next ∷ lines)
