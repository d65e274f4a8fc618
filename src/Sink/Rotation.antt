-- ===== src/Sink/Rotation.antt =====
-- What a rotation makes of the files of a path.
use tcp_server_simulator.Prelude.{
  Bytes, Option, [], ap, arith, dec_lt, if◌then◌else◌, ite, ltb, none, refl, some, subst, suc, sym,
  zero, ℕ, ℕ_discrete, ◌<◌, ◌∙◌, ◌≡◌,
}
use tcp_server_simulator.Sink.Files.{Family, move, rotate_family, set_file, shift, touch, touch_of}

-- What a file becomes when another is moved on it: if there is no other, it stays.
abbrev pub replaced_by : Option Bytes → Option Bytes → Option Bytes
replaced_by none old = old
replaced_by (some content) old = some content

pub set_file-same : (i : ℕ) (c : Option Bytes) (f : Family) → set_file i c f i ≡ c
unfolding set_file
set_file-same i c f = ground arith

pub set_file-other : (i j : ℕ) (c : Option Bytes) (f : Family) → ¬ (i ≡ j) → set_file i c f j ≡ f j
unfolding set_file
set_file-other i j c f n = ground arith

-- The move of a file: where it is moved to, where it came from, and elsewhere.
move-dst :
    (i j : ℕ) (o : Option Bytes) (f : Family) → ¬ (i ≡ j) → move i j o f j ≡ replaced_by o (f j)
unfolding move
move-dst i j none f n = refl
move-dst i j (some c) f n =
    set_file-other i j none (set_file j (some c) f) n ∙ set_file-same j (some c) f

move-src : (i j : ℕ) (o : Option Bytes) (f : Family) → f i ≡ o → move i j o f i ≡ none
unfolding move
move-src i j none f e = e
move-src i j (some c) f e = set_file-same i none (set_file j (some c) f)

move-other :
    (i j k : ℕ) (o : Option Bytes) (f : Family) → ¬ (i ≡ k) → ¬ (j ≡ k) → move i j o f k ≡ f k
unfolding move
move-other i j k none f m n = refl
move-other i j k (some c) f m n =
    set_file-other i k none (set_file j (some c) f) m ∙ set_file-other j k (some c) f n

-- Nothing is moved above the end of a shift, or below its beginning.
shift-above : (n k : ℕ) (f : Family) → suc n < k → shift n f k ≡ f k
unfolding shift
shift-above zero k f h = refl
shift-above (suc i) k f h =
    shift-above i k (move (suc i) (suc (suc i)) (f (suc i)) f) (omega arith)
    ∙ move-other (suc i) (suc (suc i)) k (f (suc i)) f (λ e. omega (arith, e))
        (λ e. omega (arith, e))

shift-zero : (n : ℕ) (f : Family) → shift n f 0 ≡ f 0
unfolding shift
shift-zero zero f = refl
shift-zero (suc i) f =
    shift-zero i (move (suc i) (suc (suc i)) (f (suc i)) f)
    ∙ move-other (suc i) (suc (suc i)) 0 (f (suc i)) f (λ e. omega (arith, e))
        (λ e. omega (arith, e))

-- The end of a shift, and its beginning, which becomes free.
shift-last :
    (n : ℕ) (f : Family) → shift (suc n) f (suc (suc n)) ≡ replaced_by (f (suc n)) (f (suc (suc n)))
unfolding shift
shift-last n f =
    shift-above n (suc (suc n)) (move (suc n) (suc (suc n)) (f (suc n)) f) (omega arith)
    ∙ move-dst (suc n) (suc (suc n)) (f (suc n)) f (λ e. omega (arith, e))

shift-one : (n : ℕ) (f : Family) → shift (suc n) f 1 ≡ none
unfolding shift
shift-one zero f = move-src 1 2 (f 1) f refl
shift-one (suc n) f = shift-one n (move (suc (suc n)) (suc (suc (suc n))) (f (suc (suc n))) f)

replaced_by-none : (o : Option Bytes) → replaced_by o none ≡ o
replaced_by-none none = refl
replaced_by-none (some c) = refl

-- Between its beginning and its end a shift moves every file one number up.
shift-up : (n j : ℕ) (f : Family) → 0 < j → j < n → shift n f (suc j) ≡ f j
unfolding shift
shift-up zero j f p h = let no : ⊥ = omega (arith, h) in elim no [ ]
shift-up (suc zero) j f p h = let no : ⊥ = omega (arith, h, p) in elim no [ ]
shift-up (suc (suc i)) j f p h =
    let m = move (suc (suc i)) (suc (suc (suc i))) (f (suc (suc i))) f in
    let stays =
      move-other (suc (suc i)) (suc (suc (suc i))) j (f (suc (suc i))) f (λ e. omega (arith, e))
        (λ e. omega (arith, e)) in
    elim (ℕ_discrete (suc i) j) [
      | yes e ↦
          subst (λ x. shift (suc i) m (suc x) ≡ m x) e
            (shift-last i m
              ∙ ap (replaced_by (m (suc i)))
                  (move-src (suc (suc i)) (suc (suc (suc i))) (f (suc (suc i))) f refl)
              ∙ replaced_by-none (m (suc i)))
          ∙ stays
      | no e ↦ shift-up (suc i) j m p (omega (arith, e)) ∙ stays
    ]

-- A rotation as one simultaneous move: the base file becomes empty, every backup below the last takes
-- the place of the next, and the last is replaced if there is a file before it.
abbrev pub rotated : ℕ → Family → Family
rotated n old zero = some []
rotated n old (suc j) =
    ite (ℕ_discrete (suc j) n) (replaced_by (old j) (old (suc j)))
      (if ltb (suc j) n then old j else old (suc j))

touch_of-base : (o : Option Bytes) (f : Family) → o ≡ none → touch_of o f 0 ≡ some []
unfolding touch_of
touch_of-base none f e = set_file-same 0 (some []) f
touch_of-base (some c) f e = cc

touch-base : (f : Family) → f 0 ≡ none → touch f 0 ≡ some []
unfolding touch
touch-base f e = touch_of-base (f 0) f e

touch_of-suc : (o : Option Bytes) (f : Family) (j : ℕ) → touch_of o f (suc j) ≡ f (suc j)
unfolding touch_of
touch_of-suc none f j = set_file-other 0 (suc j) (some []) f (λ e. omega (arith, e))
touch_of-suc (some c) f j = refl

touch-suc : (f : Family) (j : ℕ) → touch f (suc j) ≡ f (suc j)
unfolding touch
touch-suc f j = touch_of-suc (f 0) f j

-- The three parts of `rotated`.
pub rotated-below : (n j : ℕ) (old : Family) → suc j < n → rotated n old (suc j) ≡ old j
rotated-below n j old h = ground (arith, h)

pub rotated-last :
    (j : ℕ) (old : Family) → rotated (suc j) old (suc j) ≡ replaced_by (old j) (old (suc j))
rotated-last j old = ground arith

pub rotated-above : (n j : ℕ) (old : Family) → n < suc j → rotated n old (suc j) ≡ old (suc j)
rotated-above n j old h = ground (arith, h)

shift-rotated :
    (n j : ℕ) (old : Family) → shift n old (suc (suc j)) ≡ rotated (suc n) old (suc (suc j))
shift-rotated n j old = elim (ℕ_discrete (suc j) n) [
  | yes e ↦
      subst (λ m. shift m old (suc (suc j)) ≡ rotated (suc m) old (suc (suc j))) e
        (shift-last j old ∙ sym (rotated-last (suc j) old))
  | no e ↦ elim (dec_lt (suc j) n) [
    | yes h ↦
        shift-up n (suc j) old (omega arith) h
        ∙ sym (rotated-below (suc n) (suc j) old (omega (arith, h)))
    | no h ↦
        shift-above n (suc (suc j)) old (omega (arith, e, h))
        ∙ sym (rotated-above (suc n) (suc j) old (omega (arith, e, h)))
  ]
]

rotated-one :
    (n : ℕ) (old : Family) (content : Bytes)
    → old 0 ≡ some content
    → rotated (suc n) old 1 ≡ some content
rotated-one zero old content e = rotated-last 0 old ∙ ap (λ o. replaced_by o (old 1)) e
rotated-one (suc n) old content e = rotated-below (suc (suc n)) 0 old (omega arith) ∙ e

-- The rotation of `_rotate`, which moves the backups one at a time from the last to the first, on a
-- path whose base file exists: under each number stands what the simultaneous move puts there.
pub rotate_family-rotated :
    (n : ℕ) (old : Family) (content : Bytes) (j : ℕ)
    → old 0 ≡ some content
    → rotate_family n old j ≡ rotated n old j
unfolding rotate_family
rotate_family-rotated zero old content zero e =
    touch-base (set_file 0 none old) (set_file-same 0 none old)
rotate_family-rotated zero old content (suc j) e =
    touch-suc (set_file 0 none old) j
    ∙ set_file-other 0 (suc j) none old (λ h. omega (arith, h))
    ∙ sym (rotated-above 0 j old (omega arith))
rotate_family-rotated (suc n) old content zero e =
    let cleared = set_file 1 none (shift n old) in
    touch-base (move 0 1 (shift n old 0) cleared) (
      move-src 0 1 (shift n old 0) cleared
        (set_file-other 1 0 none (shift n old) (λ h. omega (arith, h))))
rotate_family-rotated (suc n) old content (suc zero) e =
    let cleared = set_file 1 none (shift n old) in
    touch-suc (move 0 1 (shift n old 0) cleared) 0
    ∙ move-dst 0 1 (shift n old 0) cleared (λ h. omega (arith, h))
    ∙ ap (λ o. replaced_by o (cleared 1)) (shift-zero n old ∙ e)
    ∙ sym (rotated-one n old content e)
rotate_family-rotated (suc n) old content (suc (suc j)) e =
    let cleared = set_file 1 none (shift n old) in
    touch-suc (move 0 1 (shift n old 0) cleared) (suc j)
    ∙ move-other 0 1 (suc (suc j)) (shift n old 0) cleared (λ h. omega (arith, h))
        (λ h. omega (arith, h))
    ∙ set_file-other 1 (suc (suc j)) none (shift n old) (λ h. omega (arith, h))
    ∙ shift-rotated n j old
