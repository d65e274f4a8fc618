-- ===== src/Recipients/Recent.antt =====
-- What the UDP sender keeps, evicts and reaches.
use tcp_server_simulator.Prelude.{
  leb, ◌+◌, Bool, Bytes, List, Result, [], ap, arith, drop, false, if◌then◌else◌, length,
  length-drop, not, ok, raise, refl, remove, runtime_error, subst, sym, true, ℕ, ◌++◌, ◌-◌, ◌∙◌,
  ◌∷◌, ◌≡◌, ◌≤◌,
}
use tcp_server_simulator.Recipients.{
  Address, UdpServerSender, address_discrete, cleanup_expired, datagrams, emit_event, expired,
  is_expired, note_expired, refresh, register_sender, remove_all, send, start, stop, udp_send_reply,
}
use tcp_server_simulator.Recipients.Cache.{
  IsDistinct, IsFresh, drop-IsDistinct, evict-drop, keep_recent, refresh-IsDistinct,
  remove_all-expired,
}

pub record IsValid (s : UdpServerSender) : Type 0 where
  pub distinct : IsDistinct s.recipient_cache
  pub bounded : length s.recipient_cache ≤ s.config.recipient_cache_max_entries

-- The methods of the sender; what the loop of `_cleanup_loop` does is `cleans_up`.
pub data Action : Type 0 where
  starts : ℕ → Action
  stops : Action
  registers : Address → ℕ → Action
  cleans_up : ℕ → Action
  sends : Bytes → ℕ → Action

unfoldable pub act : Action → UdpServerSender → UdpServerSender
unfolding start stop register_sender cleanup_expired send
act (starts port) s = start port s
act stops s = stop s
act (registers addr now) s = register_sender addr now s
act (cleans_up now) s = cleanup_expired now s
act (sends payload now) s = (send payload now s).0

register_sender-IsValid :
    (addr : Address) (now : ℕ) (s : UdpServerSender)
    → IsValid s
    → IsValid (register_sender addr now s)
unfolding register_sender
register_sender-IsValid addr now s v =
    let limit = s.config.recipient_cache_max_entries in
    let l = refresh addr now s.recipient_cache in
    let e = evict-drop limit l s.events in
    record {
      distinct = subst IsDistinct (sym e) (
          drop-IsDistinct (length l - limit) l
            (refresh-IsDistinct addr now s.recipient_cache v.distinct));
      bounded = omega (arith, ap length e, length-drop (length l - limit) l);
    }

keep_recent-IsFresh :
    (ttl now : ℕ) (addr : Address) (cache : List (Address × ℕ))
    → IsFresh addr cache
    → IsFresh addr (keep_recent ttl now cache)
keep_recent-IsFresh ttl now addr [] h = tt
keep_recent-IsFresh ttl now addr (e ∷ cache) h =
    let rest = keep_recent-IsFresh ttl now addr cache (h.1) in
    fresh-if (is_expired ttl now e) rest (h.0, rest)
  where
    fresh-if :
        (b : Bool)
        → IsFresh addr (keep_recent ttl now cache)
        → IsFresh addr (e ∷ keep_recent ttl now cache)
        → IsFresh addr (if b then keep_recent ttl now cache else e ∷ keep_recent ttl now cache)
    fresh-if true x y = x
    fresh-if false x y = y

keep_recent-IsDistinct :
    (ttl now : ℕ) (cache : List (Address × ℕ))
    → IsDistinct cache
    → IsDistinct (keep_recent ttl now cache)
keep_recent-IsDistinct ttl now [] h = tt
keep_recent-IsDistinct ttl now (e ∷ cache) h =
    let rest = keep_recent-IsDistinct ttl now cache (h.1) in
    distinct-if (is_expired ttl now e) rest (keep_recent-IsFresh ttl now (e.0) cache (h.0), rest)
  where
    distinct-if :
        (b : Bool)
        → IsDistinct (keep_recent ttl now cache)
        → IsDistinct (e ∷ keep_recent ttl now cache)
        → IsDistinct (if b then keep_recent ttl now cache else e ∷ keep_recent ttl now cache)
    distinct-if true x y = x
    distinct-if false x y = y

keep_recent-length :
    (ttl now : ℕ) (cache : List (Address × ℕ)) → length (keep_recent ttl now cache) ≤ length cache
keep_recent-length ttl now [] = omega arith
keep_recent-length ttl now (e ∷ cache) = ground (arith, keep_recent-length ttl now cache)

note_expired-cache :
    (gone : List Address) (s : UdpServerSender)
    → ((note_expired gone s).recipient_cache ≡ s.recipient_cache)
      × (((note_expired gone s).config ≡ s.config) × ((note_expired gone s).sent ≡ s.sent))
note_expired-cache [] s = (refl, (refl, refl))
note_expired-cache (addr ∷ addrs) s = (refl, (refl, refl))

-- `cleanup_expired` keeps the entries that are not older than the time to live.
cleanup_expired-keep :
    (now : ℕ) (s : UdpServerSender)
    → IsDistinct s.recipient_cache
    → (cleanup_expired now s).recipient_cache
      ≡ keep_recent s.config.recipient_cache_ttl now s.recipient_cache
unfolding cleanup_expired
cleanup_expired-keep now s h =
    let ttl = s.config.recipient_cache_ttl in
    let gone = expired ttl now s.recipient_cache in
    (note_expired-cache gone (record s { recipient_cache = remove_all gone s.recipient_cache })).0
    ∙ remove_all-expired ttl now s.recipient_cache h

cleanup_expired-same :
    (now : ℕ) (s : UdpServerSender)
    → ((cleanup_expired now s).config ≡ s.config) × ((cleanup_expired now s).sent ≡ s.sent)
unfolding cleanup_expired
cleanup_expired-same now s = (note_expired-cache _ _).1

cleanup_expired-IsValid :
    (now : ℕ) (s : UdpServerSender) → IsValid s → IsValid (cleanup_expired now s)
cleanup_expired-IsValid now s v =
    let ttl = s.config.recipient_cache_ttl in
    let k = cleanup_expired-keep now s v.distinct in
    let n = keep_recent-length ttl now s.recipient_cache in
    let c = ap (λ cfg. cfg.recipient_cache_max_entries) ((cleanup_expired-same now s).0) in
    record {
      distinct =
          subst IsDistinct (sym k) (keep_recent-IsDistinct ttl now s.recipient_cache v.distinct);
      bounded = omega (arith, ap length k, n, v.bounded, c);
    }

IsValid-if :
    (b : Bool) (s t : UdpServerSender) → IsValid s → IsValid t → IsValid (if b then s else t)
IsValid-if true s t v w = v
IsValid-if false s t v w = w

IsValid-if_pair :
    (b : Bool) (p q : UdpServerSender × Result (Unit {0}))
    → IsValid (p.0)
    → IsValid (q.0)
    → IsValid ((if b then p else q).0)
IsValid-if_pair true p q v w = v
IsValid-if_pair false p q v w = w

send-IsValid :
    (payload : Bytes) (now : ℕ) (s : UdpServerSender) → IsValid s → IsValid ((send payload now s).0)
unfolding send
send-IsValid payload now s v =
    let c = cleanup_expired-IsValid now s v in
    IsValid-if_pair (not s.running) (s, raise runtime_error) _ v
      (IsValid-if_pair s.config.multicast _ _
        (record { distinct = c.distinct; bounded = c.bounded })
        (record { distinct = c.distinct; bounded = c.bounded }))

-- Every method of the sender keeps the recipients in its cache distinct and within the limit.
pub act-IsValid : (c : Action) (s : UdpServerSender) → IsValid s → IsValid (act c s)
unfolding act
act-IsValid (starts port) s v =
    unfold start in
    (IsValid-if s.running s _ v (record { distinct = v.distinct; bounded = v.bounded }))
act-IsValid stops s v =
    unfold stop in
    (IsValid-if (not s.running) s _ v (record { distinct = tt; bounded = omega arith }))
act-IsValid (registers addr now) s v = register_sender-IsValid addr now s v
act-IsValid (cleans_up now) s v = cleanup_expired-IsValid now s v
act-IsValid (sends payload now) s v = send-IsValid payload now s v

abbrev reply : Bytes → UdpServerSender → UdpServerSender × Result (Unit {0})
reply payload s' = (
  emit_event (udp_send_reply (length s'.recipient_cache) (length payload))
      (record s' { sent = s'.sent ++ datagrams payload s'.recipient_cache }),
  ok tt,
)

-- The entries that are at most the time to live behind the clock.
abbrev pub recent_in : ℕ → ℕ → List (Address × ℕ) → List (Address × ℕ)
recent_in ttl now [] = []
recent_in ttl now (e ∷ cache) =
    let rest = recent_in ttl now cache in if leb now (e.1 + ttl) then e ∷ rest else rest

-- A datagram makes its sender the most recent recipient: the cache is what it was without that
-- sender, with the sender at its end, cut at its beginning to the limit.
pub register_sender-recent :
    (addr : Address) (now : ℕ) (s : UdpServerSender)
    → let l = remove address_discrete addr s.recipient_cache ++ (addr, now) ∷ [] in
      (register_sender addr now s).recipient_cache
      ≡ drop (length l - s.config.recipient_cache_max_entries) l
unfolding register_sender refresh
register_sender-recent addr now s =
    evict-drop s.config.recipient_cache_max_entries (refresh addr now s.recipient_cache) s.events
