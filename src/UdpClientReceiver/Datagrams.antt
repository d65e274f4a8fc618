-- ===== src/UdpClientReceiver/Datagrams.antt =====
-- The records and the counters of the UDP client receiver.
use tcp_server_simulator.Framer.{FramedRecord, clamp}
use tcp_server_simulator.Recipients.{Address, address_discrete}
use tcp_server_simulator.UdpClientReceiver.{
  UdpClientReceiver, UdpClientReceiverConfig, is_accepted, on_datagram,
}
use tcp_server_simulator.Prelude.{
  Bool, Bool-cases, inl, inr, ite, leb, true, false, subst, Bytes, List, Option, [], ap, ap₂, arith,
  if◌then◌else◌, length, length-append, map, none, refl, some, suc, sym, ℕ, ◌++◌, ◌+◌, ◌∙◌, ◌∷◌,
  ◌≡◌,
}

abbrev pub emitted {ℓ} : {A : Type ℓ} → Option A → List A
emitted none = []
emitted (some a) = a ∷ []

-- A run of datagrams, each with its sender.
unfoldable pub on_datagrams :
    List (Bytes × Address) → UdpClientReceiver → UdpClientReceiver × List (Address × FramedRecord)
unfolding on_datagram
on_datagrams [] u = (u, [])
on_datagrams ((data_, src) ∷ rest) u =
    let first = on_datagram data_ src u in
    let later = on_datagrams rest first.0 in (later.0, emitted first.1 ++ later.1)

-- The datagrams that the filter lets pass.
abbrev accepted : UdpClientReceiverConfig → List (Bytes × Address) → List (Bytes × Address)
accepted config [] = []
accepted config (d ∷ rest) =
    let later = accepted config rest in if is_accepted config d.1 then d ∷ later else later

abbrev pub record_of : ℕ → Bytes × Address → Address × FramedRecord
record_of cap d = (d.1, clamp cap d.0)

abbrev pub size_of : List (Bytes × Address) → ℕ
size_of [] = 0
size_of (d ∷ rest) = length d.0 + size_of rest

-- How many of them do not fit under the limit.
abbrev pub cut_of : ℕ → List (Bytes × Address) → ℕ
cut_of cap [] = 0
cut_of cap (d ∷ rest) =
    let later = cut_of cap rest in if leb (length d.0) cap then later else suc later

-- What a run of n datagrams does of which these pass: the records that come out and the counters.
pub record Taken (passed : List (Bytes × Address)) (n : ℕ) (u u' : UdpClientReceiver)
    (out : List (Address × FramedRecord)) : Type 0 where
  out_eq : out ≡ map (record_of u.config.max_record_bytes) passed
  records_eq : u'.records_received ≡ u.records_received + length passed
  bytes_eq : u'.bytes_received ≡ u.bytes_received + size_of passed
  truncated_eq : u'.truncations ≡ u.truncations + cut_of u.config.max_record_bytes passed
  filtered_eq : u'.packets_filtered + length passed ≡ u.packets_filtered + n
  config_eq : u'.config ≡ u.config

on_datagram-Taken :
    (data_ : Bytes) (src : Address) (u : UdpClientReceiver)
    → let r = on_datagram data_ src u in
      Taken (accepted u.config ((data_, src) ∷ [])) 1 u r.0 (emitted r.1)
unfolding on_datagram clamp
on_datagram-Taken data_ src u = ground arith

accepted-cons :
    (config : UdpClientReceiverConfig) (d : Bytes × Address) (rest : List (Bytes × Address))
    → accepted config (d ∷ rest) ≡ accepted config (d ∷ []) ++ accepted config rest
accepted-cons config d rest = ground arith

size_of-append : (ds es : List (Bytes × Address)) → size_of (ds ++ es) ≡ size_of ds + size_of es
size_of-append [] es = omega arith
size_of-append (d ∷ ds) es = omega (arith, size_of-append ds es)

cut_of-append :
    (cap : ℕ) (ds es : List (Bytes × Address))
    → cut_of cap (ds ++ es) ≡ cut_of cap ds + cut_of cap es
cut_of-append cap [] es = omega arith
cut_of-append cap (d ∷ ds) es = ground (arith, cut_of-append cap ds es)

map-append {ℓ ℓ'} :
    {A : Type ℓ} {B : Type ℓ'} (f : A → B) (xs ys : List A)
    → map f (xs ++ ys) ≡ map f xs ++ map f ys
map-append f [] ys = refl
map-append f (x ∷ xs) ys = ap (λ zs. f x ∷ zs) (map-append f xs ys)

Taken-cons :
    (d : Bytes × Address) (rest : List (Bytes × Address)) {n : ℕ} {u u' u'' : UdpClientReceiver}
    {out later : List (Address × FramedRecord)}
    → Taken (accepted u.config (d ∷ [])) 1 u u' out
    → Taken (accepted u'.config rest) n u' u'' later
    → Taken (accepted u.config (d ∷ rest)) (suc n) u u'' (out ++ later)
Taken-cons d rest {n} {u} {u'} {u''} t h =
    let one = accepted u.config (d ∷ []) in
    let others = accepted u.config rest in
    let cap = u.config.max_record_bytes in
    let split = accepted-cons u.config d rest in
    let lengths = ap length split ∙ length-append one others in
    let sizes = ap size_of split ∙ size_of-append one others in
    let same = ap (λ c. length (accepted c rest)) t.config_eq in
    let cuts = ap (cut_of cap) split ∙ cut_of-append cap one others in
    let same_cuts = ap (λ c. cut_of c.max_record_bytes (accepted c rest)) t.config_eq in
    let same_size = ap (λ c. size_of (accepted c rest)) t.config_eq in
    record {
      out_eq =
          ap₂ (λ xs ys. xs ++ ys) t.out_eq
            (h.out_eq ∙ ap (λ c. map (record_of c.max_record_bytes) (accepted c rest)) t.config_eq)
          ∙ sym (ap (map (record_of cap)) split ∙ map-append (record_of cap) one others);
      records_eq = omega (arith, h.records_eq, t.records_eq, lengths, same);
      bytes_eq = omega (arith, h.bytes_eq, t.bytes_eq, sizes, same_size);
      truncated_eq = omega (arith, h.truncated_eq, t.truncated_eq, cuts, same_cuts);
      filtered_eq = omega (arith, h.filtered_eq, t.filtered_eq, lengths, same);
      config_eq = h.config_eq ∙ t.config_eq;
    }

accepted_run :
    (ds : List (Bytes × Address)) (u : UdpClientReceiver)
    → Taken (accepted u.config ds) (length ds) u (on_datagrams ds u).0 (on_datagrams ds u).1
unfolding on_datagrams
accepted_run [] u = record {
  out_eq = refl;
  records_eq = omega arith;
  bytes_eq = omega arith;
  truncated_eq = omega arith;
  filtered_eq = omega arith;
  config_eq = refl;
}
accepted_run ((data_, src) ∷ rest) u =
    Taken-cons (data_, src) rest (on_datagram-Taken data_ src u)
      (accepted_run rest (on_datagram data_ src u).0)

-- The datagrams of the remote peer.
abbrev pub from_peer : Address → List (Bytes × Address) → List (Bytes × Address)
from_peer remote [] = []
from_peer remote (d ∷ rest) =
    let later = from_peer remote rest in ite (address_discrete d.1 remote) (d ∷ later) later

-- The datagrams that are to pass: all, or those of the peer.
abbrev pub passed_by : UdpClientReceiverConfig → List (Bytes × Address) → List (Bytes × Address)
passed_by config ds = if config.filter_remote_peer then from_peer config.remote ds else ds

pass_one :
    (filters : Bool) (p : Bool) (d : Bytes × Address) (later : List (Bytes × Address))
    → (if (if filters then p else true) then d ∷ later else later)
      ≡ (if filters then (if p then d ∷ later else later) else d ∷ later)
pass_one true p d later = refl
pass_one false p d later = refl

decided :
    {P : Type 0} (c : Dec P) (xs ys : List (Bytes × Address))
    → (if ite c true false then xs else ys) ≡ ite c xs ys
decided (yes h) xs ys = refl
decided (no h) xs ys = refl

passed_cons :
    (filters : Bool) (remote : Address) (d : Bytes × Address) (rest : List (Bytes × Address))
    → (let later = if filters then from_peer remote rest else rest in
        if filters then ite (address_discrete d.1 remote) (d ∷ later) later else d ∷ later)
      ≡ (if filters then from_peer remote (d ∷ rest) else d ∷ rest)
passed_cons true remote d rest = refl
passed_cons false remote d rest = refl

accepted-passed :
    (config : UdpClientReceiverConfig) (ds : List (Bytes × Address))
    → accepted config ds ≡ passed_by config ds
unfolding is_accepted
accepted-passed config [] = elim (Bool-cases config.filter_remote_peer) [
  | inl e ↦ rw e refl
  | inr e ↦ rw e refl
]
accepted-passed config (d ∷ rest) =
    let filters = config.filter_remote_peer in
    let later = passed_by config rest in
    let c = address_discrete d.1 config.remote in
    ap (λ ls. if is_accepted config d.1 then d ∷ ls else ls) (accepted-passed config rest)
    ∙ pass_one filters (ite c true false) d later
    ∙ ap (λ x. if filters then x else d ∷ later) (decided c (d ∷ later) later)
    ∙ passed_cons filters config.remote d rest

-- The receiver makes a record of each datagram that passes its filter, in order, with its payload cut
-- to the limit: of all, or of those that come from the remote peer. Records, bytes and truncations are counted
-- for those, each other datagram is counted as filtered, and the settings stay.
pub on_datagrams-Taken :
    (ds : List (Bytes × Address)) (u : UdpClientReceiver)
    → Taken (passed_by u.config ds) (length ds) u (on_datagrams ds u).0 (on_datagrams ds u).1
on_datagrams-Taken ds u =
    subst (λ passed. Taken passed (length ds) u (on_datagrams ds u).0 (on_datagrams ds u).1)
      (accepted-passed u.config ds) (accepted_run ds u)
