-- ===== src/Recipients/Cache.antt =====
-- The entries of the recipient cache: one for each address, and no more than the limit.
use tcp_server_simulator.Prelude.{
  All, All-append, All-remove, Bool, Bool-cases, List, [], ap, arith, dec_lt, drop, false, if_neg,
  if_pos, if◌then◌else◌, inl, inr, ite, length, max, refl, remove, suc, sym, true, zero, ℕ, ◌++◌,
  ◌-◌, ◌<◌, ◌∙◌, ◌∷◌, ◌≡◌, ◌≤◌,
}
use tcp_server_simulator.Recipients.{
  Address, SenderEvent, address_discrete, evict, expired, is_expired, refresh, remove_all,
  udp_recipient_evicted,
}

abbrev pub IsFresh : Address → List (Address × ℕ) → Type 0
IsFresh addr = All (λ e. ¬ (addr ≡ e.0))

abbrev pub IsDistinct : List (Address × ℕ) → Type 0
IsDistinct [] = Unit
IsDistinct (e ∷ cache) = IsFresh (e.0) cache × IsDistinct cache

pub remove-IsFresh :
    (addr : Address) (cache : List (Address × ℕ))
    → IsFresh addr (remove address_discrete addr cache)
unfolding remove
remove-IsFresh addr [] = tt
remove-IsFresh addr ((a, n) ∷ cache) =
    elim (address_discrete a addr)
      as (λ d. IsFresh addr (
        ite d (remove address_discrete addr cache) ((a, n) ∷ remove address_discrete addr cache))) [
          | yes e ↦ remove-IsFresh addr cache
          | no e ↦ ((λ p. e (sym p)), remove-IsFresh addr cache)
        ]

pub remove_fresh :
    (addr : Address) (cache : List (Address × ℕ))
    → IsFresh addr cache
    → remove address_discrete addr cache ≡ cache
unfolding remove
remove_fresh addr [] h = refl
remove_fresh addr ((a, n) ∷ cache) h =
    if_neg (address_discrete a addr) (λ p. h.0 (sym p)) (remove address_discrete addr cache)
      ((a, n) ∷ remove address_discrete addr cache)
    ∙ ap (◌∷◌ (a, n)) (remove_fresh addr cache (h.1))

pub remove-IsDistinct :
    (addr : Address) (cache : List (Address × ℕ))
    → IsDistinct cache
    → IsDistinct (remove address_discrete addr cache)
unfolding remove
remove-IsDistinct addr [] h = tt
remove-IsDistinct addr ((a, n) ∷ cache) h =
    elim (address_discrete a addr)
      as (λ d. IsDistinct (
        ite d (remove address_discrete addr cache) ((a, n) ∷ remove address_discrete addr cache))) [
          | yes e ↦ remove-IsDistinct addr cache (h.1)
          | no e ↦ (
            All-remove address_discrete (λ x. ¬ (a ≡ x.0)) addr cache (h.0),
            remove-IsDistinct addr cache (h.1),
          )
        ]

append-IsDistinct :
    (addr : Address) (now : ℕ) (cache : List (Address × ℕ))
    → IsFresh addr cache
    → IsDistinct cache
    → IsDistinct (cache ++ (addr, now) ∷ [])
append-IsDistinct addr now [] f h = (tt, tt)
append-IsDistinct addr now (e ∷ cache) f h = (
  All-append (λ x. ¬ (e.0 ≡ x.0)) cache ((addr, now) ∷ []) (h.0) ((λ p. f.0 (sym p)), tt),
  append-IsDistinct addr now cache (f.1) (h.1),
)

pub refresh-IsDistinct :
    (addr : Address) (now : ℕ) (cache : List (Address × ℕ))
    → IsDistinct cache
    → IsDistinct (refresh addr now cache)
unfolding refresh
refresh-IsDistinct addr now cache h =
    append-IsDistinct addr now (remove address_discrete addr cache) (remove-IsFresh addr cache)
      (remove-IsDistinct addr cache h)

pub drop-IsDistinct :
    (n : ℕ) (cache : List (Address × ℕ)) → IsDistinct cache → IsDistinct (drop n cache)
drop-IsDistinct zero cache h = h
drop-IsDistinct (suc n) [] h = h
drop-IsDistinct (suc n) (e ∷ cache) h = drop-IsDistinct n cache (h.1)

evict-more :
    (max : ℕ) (e : Address × ℕ) (cache : List (Address × ℕ)) (events : List SenderEvent)
    → max < suc (length cache)
    → evict max (e ∷ cache) events ≡ evict max cache (events ++ udp_recipient_evicted ∷ [])
unfolding evict
evict-more max e cache events h = ground (arith, h)

evict-less :
    (max : ℕ) (e : Address × ℕ) (cache : List (Address × ℕ)) (events : List SenderEvent)
    → suc (length cache) ≤ max
    → evict max (e ∷ cache) events ≡ (e ∷ cache, events)
unfolding evict
evict-less max e cache events h = ground (arith, h)

drop-suc :
    (m n : ℕ) (e : Address × ℕ) (cache : List (Address × ℕ))
    → n ≡ suc m
    → drop m cache ≡ drop n (e ∷ cache)
drop-suc m n e cache h = ap (λ k. drop k (e ∷ cache)) (sym h)

drop-zero : (n : ℕ) (cache : List (Address × ℕ)) → n ≡ 0 → cache ≡ drop n cache
drop-zero n cache h = ap (λ k. drop k cache) (sym h)

-- The eviction keeps the end of the cache, as much as the limit allows.
pub evict-drop :
    (limit : ℕ) (cache : List (Address × ℕ)) (events : List SenderEvent)
    → (evict limit cache events).0 ≡ drop (length cache - limit) cache
evict-drop limit [] events =
    let n : 0 ≡ 0 - limit = omega arith in unfold evict in ap (λ k. drop k []) n
evict-drop limit (e ∷ cache) events = elim (dec_lt limit (suc (length cache))) [
  | yes h ↦
      ap (λ r. r.0) (evict-more limit e cache events h)
      ∙ evict-drop limit cache (events ++ udp_recipient_evicted ∷ [])
      ∙ drop-suc (length cache - limit) (suc (length cache) - limit) e cache (omega (arith, h))
  | no h ↦
      ap (λ r. r.0) (evict-less limit e cache events (omega (arith, h)))
      ∙ drop-zero (suc (length cache) - limit) (e ∷ cache) (omega (arith, h))
]

-- What `cleanup_expired` is to keep.
abbrev pub keep_recent : ℕ → ℕ → List (Address × ℕ) → List (Address × ℕ)
keep_recent ttl now [] = []
keep_recent ttl now (e ∷ cache) =
    let rest = keep_recent ttl now cache in if is_expired ttl now e then rest else e ∷ rest

remove_all-other :
    (addrs : List Address) (e : Address × ℕ) (cache : List (Address × ℕ))
    → All (λ a. ¬ (e.0 ≡ a)) addrs
    → remove_all addrs (e ∷ cache) ≡ e ∷ remove_all addrs cache
unfolding remove_all remove
remove_all-other [] e cache h = refl
remove_all-other (a ∷ addrs) e cache h =
    ap (remove_all addrs) (
      if_neg (address_discrete (e.0) a) (h.0) (remove address_discrete a cache)
        (e ∷ remove address_discrete a cache))
    ∙ remove_all-other addrs e (remove address_discrete a cache) (h.1)

remove_all-first :
    (addrs : List Address) (e : Address × ℕ) (cache : List (Address × ℕ))
    → IsFresh (e.0) cache
    → remove_all (e.0 ∷ addrs) (e ∷ cache) ≡ remove_all addrs cache
unfolding remove_all remove
remove_all-first addrs e cache h = ap (remove_all addrs) (
    if_pos (address_discrete (e.0) (e.0)) refl (remove address_discrete (e.0) cache)
      (e ∷ remove address_discrete (e.0) cache)
    ∙ remove_fresh (e.0) cache h)

All-if :
    (b : Bool) (P : Address → Type 0) (xs ys : List Address)
    → All P xs
    → All P ys
    → All P (if b then xs else ys)
All-if true P xs ys h k = h
All-if false P xs ys h k = k

expired-IsFresh :
    (ttl now : ℕ) (addr : Address) (cache : List (Address × ℕ))
    → IsFresh addr cache
    → All (λ a. ¬ (addr ≡ a)) (expired ttl now cache)
unfolding expired
expired-IsFresh ttl now addr [] h = tt
expired-IsFresh ttl now addr (e ∷ cache) h =
    let rest = expired-IsFresh ttl now addr cache (h.1) in
    All-if (is_expired ttl now e) (λ a. ¬ (addr ≡ a)) (e.0 ∷ expired ttl now cache)
      (expired ttl now cache) (h.0, rest) rest

expired-if :
    (ttl now : ℕ) (e : Address × ℕ) (cache : List (Address × ℕ)) (b : Bool)
    → is_expired ttl now e ≡ b
    → (expired ttl now (e ∷ cache)
        ≡ (if b then e.0 ∷ expired ttl now cache else expired ttl now cache))
      × (keep_recent ttl now (e ∷ cache)
          ≡ (if b then keep_recent ttl now cache else e ∷ keep_recent ttl now cache))
unfolding expired
expired-if ttl now e cache b h = (
  ap (λ c. if c then e.0 ∷ expired ttl now cache else expired ttl now cache) h,
  ap (λ c. if c then keep_recent ttl now cache else e ∷ keep_recent ttl now cache) h,
)

-- To remove the expired addresses is to keep the recent entries.
pub remove_all-expired :
    (ttl now : ℕ) (cache : List (Address × ℕ))
    → IsDistinct cache
    → remove_all (expired ttl now cache) cache ≡ keep_recent ttl now cache
remove_all-expired ttl now [] h = unfold remove_all expired in refl
remove_all-expired ttl now (e ∷ cache) h = elim (Bool-cases (is_expired ttl now e)) [
  | inl x ↦
      ap (λ a. remove_all a (e ∷ cache)) ((expired-if ttl now e cache true x).0)
      ∙ remove_all-first (expired ttl now cache) e cache (h.0)
      ∙ remove_all-expired ttl now cache (h.1)
      ∙ sym ((expired-if ttl now e cache true x).1)
  | inr x ↦
      ap (λ a. remove_all a (e ∷ cache)) ((expired-if ttl now e cache false x).0)
      ∙ remove_all-other (expired ttl now cache) e cache (expired-IsFresh ttl now (e.0) cache (h.0))
      ∙ ap (◌∷◌ e) (remove_all-expired ttl now cache (h.1))
      ∙ sym ((expired-if ttl now e cache false x).1)
]
