-- ===== src/Backoff.antt =====
-- src/tcp_sim/transport/base.py: the backoff of the transports that reconnect. Seconds are counted in
-- a unit of which they are whole multiples.
mod Tests
use native.Mathlib.Nat.{mul_assoc}
use tcp_server_simulator.Prelude.{
  Result, ap, arith, leb, min, ok, raise_if, refl, suc, sym, value_error, zero, ℕ, ◌*◌, ◌<◌, ◌>>◌,
  ◌∙◌, ◌≡◌, ◌≤◌,
}

pub record ReconnectBackoff : Type 0 where
  pub initial : ℕ
  pub max_seconds : ℕ
  pub current : ℕ

-- `__init__`
unfoldable pub init : ℕ → ℕ → Result ReconnectBackoff
init initial_seconds max_seconds = do
  raise_if (leb initial_seconds 0) value_error
  raise_if (leb max_seconds 0) value_error
  ok (record {
    initial = min initial_seconds max_seconds;
    max_seconds = max_seconds;
    current = min initial_seconds max_seconds;
  })

-- `reset`
unfoldable pub reset : ReconnectBackoff → ReconnectBackoff
reset b = record b { current = b.initial }

-- `advance`
unfoldable pub advance : ReconnectBackoff → ReconnectBackoff × ℕ
advance b = (record b { current = min (b.current * 2) b.max_seconds }, b.current)

-- The state after n failures in a row, and the delay before the next attempt.
unfoldable pub fail : ℕ → ReconnectBackoff → ReconnectBackoff
unfolding advance
fail zero b = b
fail (suc n) b = fail n ((advance b).0)

abbrev pub power : ℕ → ℕ
power zero = 1
power (suc n) = 2 * power n

abbrev doubled : ℕ → ℕ → ℕ
doubled zero x = x
doubled (suc n) x = doubled n (x * 2)

doubled-power : (n x : ℕ) → doubled n x ≡ x * power n
doubled-power zero x = omega arith
doubled-power (suc n) x = doubled-power n (x * 2) ∙ mul_assoc x 2 (power n)

-- Under a cut, only the cut numbers count.
doubled-cut : (n a b m : ℕ) → min a m ≡ min b m → min (doubled n a) m ≡ min (doubled n b) m
doubled-cut zero a b m h = h
doubled-cut (suc n) a b m h = doubled-cut n (a * 2) (b * 2) m (omega (arith, h))

doubled-positive : (n x : ℕ) → 0 < x → 0 < doubled n x
doubled-positive zero x h = h
doubled-positive (suc n) x h = doubled-positive n (x * 2) (omega (arith, h))

fail-current :
    (n : ℕ) (b : ReconnectBackoff)
    → b.current ≤ b.max_seconds
    → (fail n b).current ≡ min (doubled n b.current) b.max_seconds
unfolding fail advance
fail-current zero b h = omega (arith, h)
fail-current (suc n) b h =
    fail-current n ((advance b).0) (omega arith)
    ∙ doubled-cut n (min (b.current * 2) b.max_seconds) (b.current * 2) b.max_seconds (omega arith)

fail-fixed :
    (n : ℕ) (b : ReconnectBackoff)
    → ((fail n b).initial ≡ b.initial) × ((fail n b).max_seconds ≡ b.max_seconds)
unfolding fail advance
fail-fixed zero b = (refl, refl)
fail-fixed (suc n) b = fail-fixed n ((advance b).0)

-- What `__init__` makes, if it raises nothing.
record IsNew (initial_seconds max_seconds : ℕ) (b : ReconnectBackoff) : Type 0 where
  current_eq : b.current ≡ min initial_seconds max_seconds
  initial_eq : b.initial ≡ min initial_seconds max_seconds
  max_eq : b.max_seconds ≡ max_seconds
  initial_positive : 0 < initial_seconds
  max_positive : 0 < max_seconds

init-IsNew :
    (initial_seconds max_seconds : ℕ) (b : ReconnectBackoff)
    → init initial_seconds max_seconds ≡ ok b
    → IsNew initial_seconds max_seconds b
unfolding init
init-IsNew initial_seconds max_seconds b e = ground arith

reset-equal :
    (a b : ReconnectBackoff)
    → a.initial ≡ b.initial
    → a.max_seconds ≡ b.max_seconds
    → b.current ≡ b.initial
    → reset a ≡ b
unfolding reset
reset-equal a b i m c = λ k. record { initial = i k; max_seconds = m k; current = (i ∙ sym c) k }

-- After the construction, the delay behind n failures in a row is the initial one, doubled n times and
-- cut to the maximum; it is never 0; and a reset leads back to the beginning.
pub fail-doubles :
    (initial_seconds max_seconds n : ℕ) (b : ReconnectBackoff)
    → init initial_seconds max_seconds ≡ ok b
    → ((advance (fail n b)).1 ≡ min (initial_seconds * power n) max_seconds)
      × ((0 < (advance (fail n b)).1) × (reset (fail n b) ≡ b))
unfolding advance
fail-doubles initial_seconds max_seconds n b e =
    let h = init-IsNew initial_seconds max_seconds b e in
    let f = fail-fixed n b in
    let c = fail-current n b (omega (arith, h.current_eq, h.max_eq)) in
    let d : min (doubled n b.current) b.max_seconds ≡ min (doubled n initial_seconds) max_seconds =
      ap (λ m. min (doubled n b.current) m) h.max_eq
      ∙ doubled-cut n b.current initial_seconds max_seconds (omega (arith, h.current_eq)) in
    (
      c ∙ d ∙ ap (λ x. min x max_seconds) (doubled-power n initial_seconds),
      (
        omega (arith, c, d, doubled-positive n initial_seconds h.initial_positive, h.max_positive),
        reset-equal (fail n b) b (f.0) (f.1) (h.current_eq ∙ sym h.initial_eq),
      ),
    )
