-- ===== src/Sink/Files.antt =====
-- The files of the sink on a disk that does not fail: for each path the file itself, under number 0,
-- and its backups `.1`, `.2`, ...
use tcp_server_simulator.Prelude.{
  Bytes, Option, String, String-discrete, [], ite, none, some, suc, zero, ℕ, ℕ_discrete, ◌++◌,
}

-- The files that belong to one path.
abbrev pub Family : Type 0
Family = ℕ → Option Bytes

abbrev pub Disk : Type 0
Disk = String → Family

unfoldable pub set_file : ℕ → Option Bytes → Family → Family
set_file i content f j = ite (ℕ_discrete i j) content (f j)

unfoldable pub set_family : String → Family → Disk → Disk
set_family path f disk q = ite (String-discrete path q) f (disk q)

-- `open(path, "ab")`: the file is there afterwards, with what it held.
unfoldable pub touch_of : Option Bytes → Family → Family
unfolding set_file
touch_of none f = set_file 0 (some []) f
touch_of (some content) f = f

unfoldable pub touch : Family → Family
unfolding touch_of
touch f = touch_of (f 0) f

abbrev pub content_of : Option Bytes → Bytes
content_of none = []
content_of (some content) = content

-- `fh.write(blob)`
unfoldable pub append_file : Bytes → Family → Family
unfolding set_file
append_file blob f = set_file 0 (some (content_of (f 0) ++ blob)) f

-- `if src.exists(): if dst.exists(): dst.unlink(); os.replace(src, dst)`
unfoldable pub move : ℕ → ℕ → Option Bytes → Family → Family
unfolding set_file
move src dst none f = f
move src dst (some content) f = set_file src none (set_file dst (some content) f)

-- The loop `for i in range(backup_count - 1, 0, -1)`.
unfoldable pub shift : ℕ → Family → Family
unfolding move
shift zero f = f
shift (suc i) f = shift i (move (suc i) (suc (suc i)) (f (suc i)) f)

-- The files after `_rotate`, with an empty file for `open(base, "ab")` at its end.
unfoldable pub rotate_family : ℕ → Family → Family
unfolding shift touch
rotate_family zero f = touch (set_file 0 none f)
rotate_family (suc n) f =
    let shifted = shift n f in touch (move 0 1 (shifted 0) (set_file 1 none shifted))
