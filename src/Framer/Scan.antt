-- ===== src/Framer/Scan.antt =====
-- One round of the framer's loop, for any separator.
use tcp_server_simulator.Prelude.{ℕ, suc, ◌≡◌, Bool, false, none, some, [], Bytes, if◌then◌else◌}
use tcp_server_simulator.Framer.{clamp, split_at, scan, emit}

module _ (fuel max : ℕ) (sep : Bytes) (overflow : Bool) (xs : Bytes) where
  pub scan-next :
      (raw rest : Bytes)
      → split_at sep xs ≡ some (raw, rest)
      → scan (suc fuel) max sep overflow xs ≡ (
          let next = scan fuel max sep false rest in
          if overflow then next else emit (clamp max raw) next)
  unfolding scan
  scan-next raw rest e = rw (e, scan)

  pub scan-last :
      split_at sep xs ≡ none
      → scan (suc fuel) max sep overflow xs ≡ record { out = []; tail = xs; overflow = overflow }
  unfolding scan
  scan-last e = rw (e, scan)
