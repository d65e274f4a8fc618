-- ===== src/Config/Dictionaries.antt =====
-- Python's dictionaries as the configuration uses them: their order is never read, so a dictionary is the
-- function that finds a value, and two dictionaries are equal if they find the same.
use mathlib.Core.Path.{fun_ext}
use tcp_server_simulator.Prelude.{
  Bool, List, Option, String, String-discrete, arith, ite, lookup, none, refl, some, ℕ, ◌≡◌, ◌≢◌,
}

abbrev pub Dict {ℓ} : Type ℓ → Type ℓ
Dict V = String → Option V

pub data ℤ : Type 0 where
  pos negsuc : ℕ → ℤ

-- A JSON value that the code does not look into: of an array, a float and, as deep as the code does not
-- reach, an object, the model has the text.
pub data Atom : Type 0 where
  null : Atom
  boolean : Bool → Atom
  integer : ℤ → Atom
  string other : String → Atom

-- A JSON value of which the code sees whether it is an object, and what is in the object.
pub data Node (V : Type 0) : Type 0 where
  atom : Atom → Node V
  object : (String → Option V) → Node V

module _ {V : Type 0} where
  abbrev pub or_else : Option V → Option V → Option V
  or_else none o = o
  or_else (some v) o = some v

  -- A display of keys and values.
  unfoldable pub from_items : List (String × V) → Dict V
  unfolding lookup
  from_items items k = lookup String-discrete k items

  -- `d[k] = v`
  unfoldable pub set : String → V → Dict V → Dict V
  set k v d j = ite (String-discrete j k) (some v) (d j)

  -- `d.pop(k)`
  unfoldable pub pop : String → Dict V → Dict V
  pop k d j = ite (String-discrete j k) none (d j)

  -- `d.update(e)`
  unfoldable pub update : Dict V → Dict V → Dict V
  update d e j = or_else (e j) (d j)

  -- `d.setdefault(k, v)`
  unfoldable pub set_default : String → V → Dict V → Dict V
  unfolding set
  set_default k v d = elim (d k) [ none ↦ set k v d | some w ↦ d ]

  pub set_self : (k : String) (v : V) (d : Dict V) → set k v d k ≡ some v
  unfolding set
  set_self k v d = ground arith

  pub set-other : (k j : String) (v : V) (d : Dict V) → j ≢ k → set k v d j ≡ d j
  unfolding set
  set-other k j v d ne = ground arith

  pub or_else-again : (e d : Option V) → or_else (or_else e d) d ≡ or_else e d
  or_else-again none none = refl
  or_else-again none (some v) = refl
  or_else-again (some v) d = refl

  -- An update of the same dictionary by its outcome gives it again.
  pub update-again : (d e : Dict V) → update d (update d e) ≡ update d e
  unfolding update
  update-again d e = fun_ext λ j. or_else-again (e j) (d j)

  -- Setting a key of the outcome and updating again gives the outcome, with the key set.
  pub set-update-set :
      (k : String) (v : V) (d e : Dict V)
      → set k v (update d (set k v (update d e))) ≡ set k v (update d e)
  unfolding set update
  set-update-set k v d e = fun_ext λ j. ground (arith, or_else-again (e j) (d j))

-- `x if isinstance(x, dict) else {}`, for a value that may be missing.
abbrev pub as_dict : {V : Type 0} → Option (Node V) → Dict V
as_dict none = λ k. none
as_dict (some (atom a)) = λ k. none
as_dict (some (object d)) = d
