-- ===== src/Timestamp/Tests.antt =====
-- A rewriter of values that are their numbers of bytes.
use tcp_server_simulator.Prelude.{[], arith, length, ok, refl, ◌∷◌, ◌≡◌}
use tcp_server_simulator.Timestamp.{
  rewrite_timestamp, Datetime, epoch_seconds_int, format_timestamp, init, parse_timestamp, rewrite,
}
use tcp_server_simulator.Timestamp.Drift.{rewrite-drift}

abbrev by_length : Datetime
by_length = record {
  parse_iso8601 = λ t. ok (length t);
  parse_millis = λ t. ok (length t);
  parse_seconds = λ t. ok (length t);
  parse_fractional = λ t. ok (length t);
  format_iso8601 = λ n. n ∷ [];
  format_millis = λ n. n ∷ [];
  format_seconds = λ n. n ∷ [];
  format_fractional = λ n. n ∷ [];
  through_float = λ n. n;
}

-- Two values that are one apart, rewritten five apart, become six apart.
rewrite-drift_example :
    let (r, text) = rewrite by_length 0 100 (b'a' ∷ []) (init epoch_seconds_int) in
    (text ≡ format_timestamp by_length epoch_seconds_int 100)
    × ((rewrite by_length 5 105 (b'a' ∷ b'b' ∷ []) r).1
        ≡ format_timestamp by_length epoch_seconds_int 106)
unfolding parse_timestamp
rewrite-drift_example =
    rewrite-drift by_length epoch_seconds_int (b'a' ∷ []) (b'a' ∷ b'b' ∷ []) 0 5 100 105 1 2 106
      (λ n h. refl) refl refl (omega arith) (omega arith) (omega arith) (omega arith) (omega arith)
      (omega arith)

one_value : rewrite_timestamp by_length 0 100 (b'a' ∷ []) epoch_seconds_int ≡ ok (100 ∷ [])
unfolding rewrite_timestamp
one_value = refl
