-- ===== src/Timestamp/Drift.antt =====
-- The offset between two rewritten timestamps.
use tcp_server_simulator.Prelude.{
  Bool-cases, inl, inr, leb, ◌-◌, Bytes, ap, arith, ok, refl, some, ℕ, ◌+◌, ◌∙◌, ◌≡◌, ◌≤◌,
}
use tcp_server_simulator.Timestamp.{
  Datetime, Format, TimestampRewriter, format_timestamp, formatted, init, last_instant,
  parse_timestamp, rewrite, rewrite_parsed, shifted,
}

-- A float of seconds is exact to the microsecond up to 2 ^ 33 seconds, about 272 years.
abbrev pub exact_span : ℕ
exact_span = 8589934592000000

shifted-eq :
    (d : Datetime) (now b a y : ℕ)
    → d.through_float (b - a) ≡ b - a
    → d.through_float (a - b) ≡ a - b
    → y + a ≡ now + b
    → now ≤ last_instant
    → y ≤ last_instant
    → shifted d now b a ≡ ok y
unfolding shifted
shifted-eq d now b a y p q h n l = elim (Bool-cases (leb a b)) [
  | inl c ↦ rw (c, p) (ground (arith, c, h, l))
  | inr c ↦ rw (c, q) (ground (arith, c, h, n))
]

-- When the passage of an offset through a float is exact up to 2 ^ 33 seconds, two values in a row, of
-- instants a and b that are no further apart, are rewritten at two times to those times plus the offset of
-- the value to a: so the offset of the two texts is the original one plus the time that has passed in between.
pub rewrite-drift :
    (d : Datetime) (f : Format) (first second : Bytes) (m m' now now' a b y : ℕ)
    → ((offset : ℕ) → offset ≤ exact_span → d.through_float offset ≡ offset)
    → parse_timestamp d f first ≡ ok a
    → parse_timestamp d f second ≡ ok b
    → b ≤ a + exact_span
    → a ≤ b + exact_span
    → now ≤ last_instant
    → now' ≤ last_instant
    → y + a ≡ now' + b
    → y ≤ last_instant
    → let (r, text) = rewrite d m now first (init f) in
      (text ≡ format_timestamp d f now) × ((rewrite d m' now' second r).1 ≡ format_timestamp d f y)
unfolding rewrite init formatted
rewrite-drift d f first second m m' now now' a b y x p q u v n n' h l =
    let r : TimestampRewriter = record {
      timestamp_format = f;
      base_original = some a;
      base_monotonic = some m;
    } in
    let e : (rewrite d m now first (init f)).0 ≡ r =
      ap (λ t. (rewrite_parsed d m now t (init f)).0) p in
    (
      ap (λ t. (rewrite_parsed d m now t (init f)).1) p
          ∙ ap (formatted d f) (
              shifted-eq d now a a now (x (a - a) (omega arith)) (x (a - a) (omega arith)) refl n
                n),
      ap (λ s. (rewrite d m' now' second s).1) e
          ∙ ap (λ t. (rewrite_parsed d m' now' t r).1) q
          ∙ ap (formatted d f) (
              shifted-eq d now' b a y (x (b - a) (omega (arith, u))) (x (a - b) (omega (arith, v)))
                h n' l),
    )
