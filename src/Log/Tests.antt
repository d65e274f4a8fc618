-- ===== src/Log/Tests.antt =====
-- A log of two records.
use tcp_server_simulator.Prelude.{
  Bytes, List, [], attribute_error, if◌then◌else◌, ok, raise, refl, some, ◌==◌, ◌∷◌, ◌≡◌,
}
use tcp_server_simulator.Log.{
  Loaded, error, filter_log_lines, levelname, load_log_lines, lower, no_object, not_json, object,
  strip, warn, warning,
}
use tcp_server_simulator.Log.Levels.{Entry, filter_log_lines-levels, lines_of, Filtered}

-- Lines that stand for two objects, and one for a number.
abbrev loads : Bytes → Loaded
loads [] = not_json
loads (c ∷ cs) =
    if c == b'w'
    then object (levelname warning)
    else if c == b'e'
    then object (levelname error)
    else no_object

abbrev two : List Entry
two =
    record { level = warning; line = b'w' ∷ b'A' ∷ [] }
    ∷ record { level = error; line = b'e' ∷ b'B' ∷ [] }
    ∷ []

filter_log_lines-levels_example :
    Filtered two warning
      (lower (strip (b' ' ∷ b'a' ∷ [])))
      (filter_log_lines loads (lines_of two) (levelname warning) (b' ' ∷ b'a' ∷ []))
      (filter_log_lines loads (lines_of two) warn (b' ' ∷ b'a' ∷ []))
filter_log_lines-levels_example =
    filter_log_lines-levels loads two (b' ' ∷ b'a' ∷ []) warning (refl, (refl, tt))

one_shown :
    filter_log_lines loads (lines_of two) (levelname warning) (b' ' ∷ b'a' ∷ [])
    ≡ ok ((b'w' ∷ b'A' ∷ []) ∷ [])
unfolding filter_log_lines levelname
one_shown = refl

-- A line that is a number ends the filter with an exception.
number_raises :
    filter_log_lines loads ((b'7' ∷ []) ∷ []) (levelname error) [] ≡ raise attribute_error
unfolding filter_log_lines levelname
number_raises = refl

last_line : load_log_lines (some ((b'w' ∷ []) ∷ (b'e' ∷ []) ∷ [])) 1 ≡ (b'e' ∷ []) ∷ []
unfolding load_log_lines
last_line = refl
