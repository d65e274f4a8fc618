-- ===== src/Sink/Archive.antt =====
-- The bytes of the sink's files: what a write does to them, and their sizes.
use tcp_server_simulator.Prelude.{
  Bool, Bytes, Option, String, [], ap, append-nil, append_assoc, ap₂, arith, false, if◌then◌else◌,
  inl, inr, length, length-append, ltb, ltb-false→le, lt→ltb, none, refl, some, suc, sym, true,
  zero, ℕ, ◌&&◌, ◌++◌, ◌+◌, ◌<◌, ◌∙◌, ◌∷◌, ◌≡◌, ◌≤◌, ◌⊎◌,
}
use tcp_server_simulator.Sink.{Codec, QueueItem, SinkWriter}
use tcp_server_simulator.Sink.Files.{
  Disk, Family, append_file, content_of, rotate_family, set_family,
}
use tcp_server_simulator.Sink.Drain.{encode, must_rotate, rotate_file, write_blob, write_record}
use tcp_server_simulator.Sink.Rotation.{
  replaced_by, rotate_family-rotated, rotated, rotated-below, rotated-last, set_file-other,
  set_file-same,
}

-- The file that is open: it exists, its size is known, and it passes the limit at most with a single
-- record.
pub record IsOpenAt (path : String) (content : Bytes) (w : SinkWriter) : Type 0 where
  pub here : w.disk path 0 ≡ some content
  pub size : w.stats.current_file_size ≡ length content

-- The backups and the base file, the oldest first: the records in the order of their arrival.
abbrev pub archive : ℕ → Family → Bytes
archive zero f = content_of (f 0)
archive (suc n) f = content_of (f (suc n)) ++ archive n f

-- What is lost of a backup when a file takes its place.
abbrev pub replaced : Option Bytes → Bytes → Bytes
replaced none old = []
replaced (some content) old = old

-- What a rotation throws away.
abbrev pub thrown_away : ℕ → Family → Bytes
thrown_away zero f = content_of (f 0)
thrown_away (suc n) f = replaced (f n) (content_of (f (suc n)))

archive-ap : (n : ℕ) (f g : Family) → ((j : ℕ) → f j ≡ g j) → archive n f ≡ archive n g
archive-ap zero f g h = ap content_of (h 0)
archive-ap (suc n) f g h = ap₂ (λ x y. content_of x ++ y) (h (suc n)) (archive-ap n f g h)

-- The younger part of a rotated archive.
archive-first : (n : ℕ) (old : Family) → 1 < n → archive 1 (rotated n old) ≡ content_of (old 0)
archive-first n old h =
    ap (λ o. content_of o ++ []) (rotated-below n 0 old h) ∙ append-nil (content_of (old 0))

archive-younger :
    (m n : ℕ) (old : Family) → suc m < n → archive (suc m) (rotated n old) ≡ archive m old
archive-younger zero n old h = archive-first n old h
archive-younger (suc m) n old h =
    ap₂ (λ o a. content_of o ++ a) (rotated-below n (suc m) old h)
      (archive-younger m n old (omega (arith, h)))

replaced-append :
    (o old : Option Bytes) (bs : Bytes)
    → replaced o (content_of old) ++ (content_of (replaced_by o old) ++ bs)
      ≡ content_of old ++ (content_of o ++ bs)
replaced-append none old bs = refl
replaced-append (some content) old bs = refl

archive-rotated :
    (n : ℕ) (old : Family) (content : Bytes)
    → old 0 ≡ some content
    → thrown_away n old ++ archive n (rotated n old) ≡ archive n old
archive-rotated zero old content e = append-nil (content_of (old 0))
archive-rotated (suc zero) old content e =
    ap (λ o. replaced (old 0) (content_of (old 1)) ++ (content_of o ++ [])) (rotated-last 0 old)
    ∙ replaced-append (old 0) (old 1) []
    ∙ ap (λ bs. content_of (old 1) ++ bs) (append-nil (content_of (old 0)))
archive-rotated (suc (suc n)) old content e =
    ap₂ (λ o bs. replaced (old (suc n)) (content_of (old (suc (suc n)))) ++ (content_of o ++ bs))
      (rotated-last (suc n) old) (archive-younger n (suc (suc n)) old (omega arith))
    ∙ replaced-append (old (suc n)) (old (suc (suc n))) (archive n old)

archive-rotate_family :
    (n : ℕ) (old : Family) (content : Bytes)
    → old 0 ≡ some content
    → thrown_away n old ++ archive n (rotate_family n old) ≡ archive n old
archive-rotate_family n old content e =
    ap (λ a. thrown_away n old ++ a)
      (archive-ap n (rotate_family n old) (rotated n old)
        (λ j. rotate_family-rotated n old content j e))
    ∙ archive-rotated n old content e

set_family-same : (path : String) (f : Family) (d : Disk) → set_family path f d path ≡ f
unfolding set_family
set_family-same path f d = ground arith

append_file-base :
    (blob : Bytes) (f : Family) → append_file blob f 0 ≡ some (content_of (f 0) ++ blob)
unfolding append_file
append_file-base blob f = set_file-same 0 (some (content_of (f 0) ++ blob)) f

append_file-archive :
    (n : ℕ) (blob : Bytes) (f : Family) → archive n (append_file blob f) ≡ archive n f ++ blob
unfolding append_file
append_file-archive zero blob f = ap content_of (append_file-base blob f)
append_file-archive (suc n) blob f =
    ap₂ (λ o a. content_of o ++ a)
      (set_file-other 0 (suc n) (some (content_of (f 0) ++ blob)) f (λ e. omega (arith, e)))
      (append_file-archive n blob f)
    ∙ sym (append_assoc (content_of (f (suc n))) (archive n f) blob)

-- A write of a blob.
write_blob-IsOpenAt :
    (path : String) (blob content : Bytes) (w : SinkWriter)
    → IsOpenAt path content w
    → IsOpenAt path (content ++ blob) (write_blob path blob w)
write_blob-IsOpenAt path blob content w h = record {
  here =
      ap (λ f. f 0) (set_family-same path (append_file blob (w.disk path)) w.disk)
      ∙ append_file-base blob (w.disk path)
      ∙ ap (λ o. some (content_of o ++ blob)) h.here;
  size = omega (arith, h.size, length-append content blob);
}

rotate_file-IsOpenAt :
    (path : String) (content : Bytes) (w : SinkWriter)
    → IsOpenAt path content w
    → IsOpenAt path [] (rotate_file path w)
unfolding rotate_file
rotate_file-IsOpenAt path content w h = record {
  here =
      ap (λ f. f 0) (set_family-same path _ w.disk)
      ∙ rotate_family-rotated w.cfg.rotation_backup_count (w.disk path) content 0 h.here;
  size = refl;
}

-- What the base file holds after a write: a file that was rotated begins with the new record.
abbrev pub written : Bool → Bytes → Bytes → Bytes
written true content blob = blob
written false content blob = content ++ blob

-- What a write throws away.
abbrev pub lost : Bool → ℕ → Family → Bytes
lost true n f = thrown_away n f
lost false n f = []

write_if-IsOpenAt :
    (b : Bool) (path : String) (blob content : Bytes) (w : SinkWriter)
    → IsOpenAt path content w
    → IsOpenAt path
        (written b content blob)
        (write_blob path blob (if b then rotate_file path w else w))
write_if-IsOpenAt true path blob content w h =
    write_blob-IsOpenAt path blob [] (rotate_file path w) (rotate_file-IsOpenAt path content w h)
write_if-IsOpenAt false path blob content w h = write_blob-IsOpenAt path blob content w h

written-bound_if :
    (b : Bool) (content blob : Bytes) (max_bytes : ℕ)
    → (b ≡ false → 0 < length content → length content + length blob ≤ max_bytes)
    → (length (written b content blob) ≤ max_bytes) ⊎ (written b content blob ≡ blob)
written-bound_if true content blob max_bytes h = inr refl
written-bound_if false [] blob max_bytes h = inr refl
written-bound_if false (x ∷ content) blob max_bytes h =
    inl (omega (arith, h refl (omega arith), length-append (x ∷ content) blob))

fits :
    (size n max_bytes : ℕ)
    → ltb 0 size && ltb max_bytes (size + n) ≡ false
    → 0 < size
    → size + n ≤ max_bytes
fits size n max_bytes e h =
    ltb-false→le max_bytes (size + n)
      (ap (λ b. b && ltb max_bytes (size + n)) (sym (lt→ltb 0 size h)) ∙ e)

written-bound :
    (content blob : Bytes) (w : SinkWriter)
    → w.stats.current_file_size ≡ length content
    → (length (written (must_rotate w blob) content blob) ≤ w.cfg.rotation_max_bytes)
      ⊎ (written (must_rotate w blob) content blob ≡ blob)
written-bound content blob w e =
    written-bound_if (must_rotate w blob) content blob w.cfg.rotation_max_bytes (λ r p. omega (
      arith,
      e,
      fits w.stats.current_file_size (length blob) w.cfg.rotation_max_bytes r (omega (arith, e, p)),
    ))

-- A record that is written to an open file of known size ends up in the open file, whose size is
-- known again; afterwards the file is not larger than `rotation_max_bytes`, or the record stands
-- alone in it.
pub write_record-IsOpenAt :
    (codec : Codec) (now : ℕ) (path : String) (item : QueueItem) (content : Bytes) (w : SinkWriter)
    → IsOpenAt path content w
    → let blob = encode codec now w.cfg item in
      let content' = written (must_rotate w blob) content blob in
      IsOpenAt path content' (write_record codec now path item w)
      × ((length content' ≤ w.cfg.rotation_max_bytes) ⊎ (content' ≡ blob))
unfolding write_record
write_record-IsOpenAt codec now path item content w h =
    let blob = encode codec now w.cfg item in
    (
      write_if-IsOpenAt (must_rotate w blob) path blob content w h,
      written-bound content blob w h.size,
    )

write_if-archive :
    (b : Bool) (path : String) (blob content : Bytes) (w : SinkWriter)
    → IsOpenAt path content w
    → let n = w.cfg.rotation_backup_count in
      lost b n (w.disk path)
        ++ archive n ((write_blob path blob (if b then rotate_file path w else w)).disk path)
      ≡ archive n (w.disk path) ++ blob
unfolding rotate_file
write_if-archive true path blob content w h =
    let n = w.cfg.rotation_backup_count in
    let old = w.disk path in
    let moved = set_family path (rotate_family n old) w.disk in
    ap (λ f. thrown_away n old ++ archive n f)
      (set_family-same path (append_file blob (moved path)) moved)
    ∙ ap (λ a. thrown_away n old ++ a) (append_file-archive n blob (moved path))
    ∙ sym (append_assoc (thrown_away n old) (archive n (moved path)) blob)
    ∙ ap (λ f. (thrown_away n old ++ archive n f) ++ blob)
        (set_family-same path (rotate_family n old) w.disk)
    ∙ ap (λ a. a ++ blob) (archive-rotate_family n old content h.here)
write_if-archive false path blob content w h =
    let n = w.cfg.rotation_backup_count in
    ap (archive n) (set_family-same path (append_file blob (w.disk path)) w.disk)
    ∙ append_file-archive n blob (w.disk path)

-- A record that is written to an open file is added at the end of what the backups and the file held,
-- from the oldest backup to the file itself, and nothing is lost but what a rotation replaces: the
-- oldest backup, or, with a backup count of 0, what the file itself held.
pub write_record-archive :
    (codec : Codec) (now : ℕ) (path : String) (item : QueueItem) (content : Bytes) (w : SinkWriter)
    → IsOpenAt path content w
    → let blob = encode codec now w.cfg item in
      let n = w.cfg.rotation_backup_count in
      lost (must_rotate w blob) n (w.disk path)
        ++ archive n ((write_record codec now path item w).disk path)
      ≡ archive n (w.disk path) ++ blob
unfolding write_record
write_record-archive codec now path item content w h =
    let blob = encode codec now w.cfg item in
    write_if-archive (must_rotate w blob) path blob content w h
