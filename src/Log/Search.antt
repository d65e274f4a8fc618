-- ===== src/Log/Search.antt =====
-- The search of src/tcp_sim/gui/log_panel.py, against the texts that hold a query.
use tcp_server_simulator.Prelude.{
  Bool-cases, Bytes, [], ap, ap₂, arith, false, inl, inr, refl, sym, true, ℕ, ◌++◌, ◌==◌, ◌∷◌, ◌≡◌,
  ◌⊎◌,
}
use tcp_server_simulator.Framer.{starts_with}
use tcp_server_simulator.Log.{contains, lower, matches_query, text_eq}

-- A text that begins with a query, and one that holds it somewhere.
abbrev pub Begins : Bytes → Bytes → Type 0
Begins query text = (post : Bytes) × (text ≡ query ++ post)

abbrev pub Occurs : Bytes → Bytes → Type 0
Occurs query text = (pre : Bytes) × (post : Bytes) × (text ≡ pre ++ query ++ post)

tail_eq : (a b : ℕ) (xs ys : Bytes) → a ∷ xs ≡ b ∷ ys → (a ≡ b) × (xs ≡ ys)
tail_eq a b xs ys h = (cc h, cc h)

==-sound : (a b : ℕ) → a == b ≡ true → a ≡ b
==-sound a b h = ground (arith, h)

differ : (a b : ℕ) → a == b ≡ false → ¬ (a ≡ b)
differ a b h = ground (arith, h)

starts_with-lem :
    (query text : Bytes)
    → ((starts_with query text ≡ true) × Begins query text)
      ⊎ ((starts_with query text ≡ false) × ¬ (Begins query text))
unfolding starts_with
starts_with-lem [] text = inl (refl, (text, refl))
starts_with-lem (a ∷ query) [] = inr (refl, λ (post, e). absurd (cc e))
starts_with-lem (a ∷ query) (b ∷ text) = elim (Bool-cases (a == b)) [
  | inr n ↦
      inr (rw n refl, λ (post, e). differ a b n (sym ((tail_eq b a text (query ++ post) e).0)))
  | inl y ↦ elim (starts_with-lem query text) [
    | inl (t, (post, e)) ↦
        let same = ==-sound a b y in inl (rw (y, t) refl, (post, ap₂ ◌∷◌ (sym same) e))
    | inr (t, k) ↦
        inr (rw (y, t) refl, λ (post, e). k (post, (tail_eq b a text (query ++ post) e).1))
  ]
]

no_text : (query pre post : Bytes) → ¬ (Begins query []) → ¬ ([] ≡ pre ++ query ++ post)
no_text query [] post k e = k (post, e)
no_text query (c ∷ pre) post k e = absurd (cc e)

no_place :
    (query : Bytes) (c : ℕ) (text pre post : Bytes)
    → ¬ (Begins query (c ∷ text))
    → ¬ (Occurs query text)
    → ¬ (c ∷ text ≡ pre ++ query ++ post)
no_place query c text [] post k l e = k (post, e)
no_place query c text (d ∷ pre) post k l e =
    l (pre, post, (tail_eq c d text (pre ++ query ++ post) e).1)

contains-lem :
    (query text : Bytes)
    → ((contains query text ≡ true) × Occurs query text)
      ⊎ ((contains query text ≡ false) × ¬ (Occurs query text))
unfolding contains
contains-lem query [] = elim (starts_with-lem query []) [
  | inl (t, (post, e)) ↦ inl (t, ([], post, e))
  | inr (t, k) ↦ inr (t, λ (pre, post, e). no_text query pre post k e)
]
contains-lem query (c ∷ text) = elim (starts_with-lem query (c ∷ text)) [
  | inl (t, (post, e)) ↦ inl (rw t refl, ([], post, e))
  | inr (t, k) ↦ elim (contains-lem query text) [
    | inl (u, (pre, post, e)) ↦ inl (rw (t, u) refl, (c ∷ pre, post, ap (◌∷◌ c) e))
    | inr (u, l) ↦ inr (rw (t, u) refl, λ (pre, post, e). no_place query c text pre post k l e)
  ]
]

pub matches_query-lem :
    (query line : Bytes)
    → ((matches_query query line ≡ true) × Occurs query (lower line))
      ⊎ ((matches_query query line ≡ false) × ¬ (Occurs query (lower line)))
unfolding matches_query
matches_query-lem [] line = inl (refl, ([], lower line, refl))
matches_query-lem (c ∷ query) line = contains-lem (c ∷ query) (lower line)

pub text_eq-lem :
    (a b : Bytes) → ((text_eq a b ≡ true) × (a ≡ b)) ⊎ ((text_eq a b ≡ false) × ¬ (a ≡ b))
unfolding text_eq
text_eq-lem [] [] = inl (refl, refl)
text_eq-lem [] (b ∷ bs) = inr (refl, λ e. absurd (cc e))
text_eq-lem (a ∷ as_) [] = inr (refl, λ e. absurd (cc e))
text_eq-lem (a ∷ as_) (b ∷ bs) = elim (Bool-cases (a == b)) [
  | inr n ↦ inr (rw n refl, λ e. differ a b n ((tail_eq a b as_ bs e).0))
  | inl y ↦ elim (text_eq-lem as_ bs) [
    | inl (t, e) ↦ inl (rw (y, t) refl, ap₂ ◌∷◌ (==-sound a b y) e)
    | inr (t, k) ↦ inr (rw (y, t) refl, λ e. k ((tail_eq a b as_ bs e).1))
  ]
]
