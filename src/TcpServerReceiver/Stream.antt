-- ===== src/TcpServerReceiver/Stream.antt =====
-- What a handler delivers, against the framer on the chunks it has read.
use tcp_server_simulator.Prelude.{
  Bool, Bytes, List, String, [], ap, append-nil, append_assoc, false, if◌then◌else◌, length, not,
  refl, subst, sym, true, ◌++◌, ◌+◌, ◌∙◌, ◌∷◌, ◌≡◌,
}
use tcp_server_simulator.Framer.{FramedRecord, Framer, feed, flush}
use tcp_server_simulator.Framer.Stream.{feed_all, of_option, records_of, records_of-cons}
use tcp_server_simulator.TcpServerReceiver.{
  Event, Peer, Phase, Reason, Served, TcpServerReceiver, Turn, cancelled, cancels, chunk,
  deliver_all, end_read, ended, enter, eof, error, fails, finish_peer, idle, meanwhile, read_chunk,
  reading, reads, resumes, serve, takes, turn, turn_in, waiting,
}

-- The chunk that a turn takes from its socket.
abbrev pub chunk_in : Phase → Turn → List Bytes
chunk_in reading (reads (chunk (b ∷ bs))) = (b ∷ bs) ∷ []
chunk_in _ _ = []

-- The chunks that a handler reads in its life.
abbrev pub chunks : List Event → Peer → TcpServerReceiver → List Bytes
chunks [] p t = []
chunks (takes u ∷ events) p t =
    let s = turn u p t in chunk_in p.phase u ++ chunks events s.peer s.server
chunks (meanwhile f ∷ events) p t = chunks events p (f t)

-- What has been delivered, by the phase that a handler with a new framer f is in.
abbrev pub Delivers : Phase → Framer → List Bytes → Framer → List FramedRecord → Type 0
Delivers (ended cancelled) f cs framer out = out ≡ (feed_all f cs).1
Delivers (ended reason) f cs framer out = out ≡ records_of f cs
Delivers _ f cs framer out = feed_all f cs ≡ (framer, out)

abbrev peer_in : Phase → String → Framer → Peer
peer_in phase src framer = record { src = src; framer = framer; phase = phase }

-- A handler at its end stays there.
serve-ended :
    (events : List Event) (reason : Reason) (src : String) (f : Framer) (t : TcpServerReceiver)
    → let p = peer_in (ended reason) src f in
      ((serve events p t).delivered ≡ [])
      × (((serve events p t).peer ≡ p) × (chunks events p t ≡ []))
unfolding serve turn turn_in
serve-ended [] reason src f t = (refl, (refl, refl))
serve-ended (takes u ∷ events) reason src f t = serve-ended events reason src f t
serve-ended (meanwhile g ∷ events) reason src f t = serve-ended events reason src f (g t)

-- A life that goes on at its end delivers no more.
Delivers-end :
    (f framer : Framer) (reason : Reason) (phase : Phase) (cs : List Bytes)
    (out later : List FramedRecord)
    → phase ≡ ended reason
    → cs ≡ []
    → later ≡ []
    → Delivers (ended reason) f [] framer out
    → Delivers phase f cs framer (out ++ later)
Delivers-end f framer reason phase cs out later e c l h =
    subst (λ ph. Delivers ph f cs framer (out ++ later)) (sym e)
      (subst (λ ds. Delivers (ended reason) f ds framer (out ++ later)) (sym c)
        (subst (Delivers (ended reason) f [] framer) (sym (ap (λ d. out ++ d) l ∙ append-nil out))
          h))

-- One chunk more at the beginning.
Delivers-chunk :
    (f framer : Framer) (phase : Phase) (c : Bytes) (cs : List Bytes) (later : List FramedRecord)
    → Delivers phase ((feed f c).0) cs framer later
    → Delivers phase f (c ∷ cs) framer ((feed f c).1 ++ later)
unfolding feed_all
Delivers-chunk f framer waiting c cs later h = ap (λ r. (r.0, (feed f c).1 ++ r.1)) h
Delivers-chunk f framer reading c cs later h = ap (λ r. (r.0, (feed f c).1 ++ r.1)) h
Delivers-chunk f framer (ended cancelled) c cs later h = ap (λ d. (feed f c).1 ++ d) h
Delivers-chunk f framer (ended eof) c cs later h =
    ap (λ d. (feed f c).1 ++ d) h ∙ sym (records_of-cons f c cs)
Delivers-chunk f framer (ended (error name)) c cs later h =
    ap (λ d. (feed f c).1 ++ d) h ∙ sym (records_of-cons f c cs)

-- What a turn with no chunk leads to.
abbrev Goes : List Event → Framer → Served → Type 0
Goes events f s =
    let later = serve events s.peer s.server in
    Delivers later.peer.phase f (chunks events s.peer s.server) later.peer.framer
      (s.delivered ++ later.delivered)

Goes-if :
    (b : Bool) (events : List Event) (f : Framer) (u v : Served)
    → Goes events f u
    → Goes events f v
    → Goes events f (if b then u else v)
Goes-if true events f u v h k = h
Goes-if false events f u v h k = k

Goes-ended :
    (events : List Event) (reason : Reason) (src : String) (f f' : Framer) (t : TcpServerReceiver)
    (out : List FramedRecord)
    → Delivers
        (ended reason)
        f
        []
        ((serve events (peer_in (ended reason) src f') t).peer.framer)
        out
    → Goes events f (record { server = t; peer = peer_in (ended reason) src f'; delivered = out })
Goes-ended events reason src f f' t out h =
    let e = serve-ended events reason src f' t in
    let p = peer_in (ended reason) src f' in
    let later = serve events p t in
    Delivers-end f later.peer.framer reason later.peer.phase (chunks events p t) out later.delivered
      (ap (λ q. q.phase) (e.1.0)) (e.1.1) (e.0) h

-- The end of the stream, and an error, lead to the trailing record.
abbrev Flushes : Reason → Type 0
Flushes cancelled = ⊥
Flushes reason = Unit

Delivers-flush :
    (reason : Reason) (f framer : Framer)
    → Flushes reason
    → Delivers (ended reason) f [] framer (of_option ((flush f).1))
unfolding records_of feed_all
Delivers-flush eof f framer h = refl
Delivers-flush (error name) f framer h = refl
Delivers-flush cancelled f framer h = elim h [ ]

finish_peer-Goes :
    (events : List Event) (reason : Reason) (phase : Phase) (src : String) (f : Framer)
    (t : TcpServerReceiver)
    → Flushes reason
    → Goes events f (finish_peer reason (peer_in phase src f) t)
unfolding finish_peer
finish_peer-Goes events reason phase src f t h =
    Goes-ended events reason src f ((flush f).0) _ (of_option ((flush f).1))
      (Delivers-flush reason f _ h)

abbrev pub IsLive : Phase → Type 0
IsLive (ended reason) = ⊥
IsLive phase = Unit

-- The head of the loop, where a handler that goes on delivers as it should.
enter-Goes :
    (events : List Event) (src : String) (f : Framer) (t : TcpServerReceiver)
    → Goes events f (idle (peer_in waiting src f) t)
    → Goes events f (idle (peer_in reading src f) t)
    → Goes events f (enter (peer_in reading src f) t)
unfolding enter
enter-Goes events src f t w r =
    Goes-if (not t.running) events f (finish_peer eof (peer_in reading src f) t) _
      (finish_peer-Goes events eof reading src f t tt)
      (Goes-if t.paused events f (idle (peer_in waiting src f) t) (idle (peer_in reading src f) t) w
        r)

serve-from :
    (events : List Event) (phase : Phase) (src : String) (f : Framer) (t : TcpServerReceiver)
    → IsLive phase
    → let p = peer_in phase src f in
      let s = serve events p t in
      Delivers s.peer.phase f (chunks events p t) s.peer.framer s.delivered
unfolding serve turn turn_in end_read read_chunk feed_all feed
serve-from events (ended reason) src f t n = elim n [ ]
serve-from [] waiting src f t n = refl
serve-from [] reading src f t n = refl
serve-from (meanwhile g ∷ events) waiting src f t n = serve-from events waiting src f (g t) n
serve-from (meanwhile g ∷ events) reading src f t n = serve-from events reading src f (g t) n
serve-from (takes resumes ∷ events) waiting src f t n = serve-from events reading src f t tt
serve-from (takes resumes ∷ events) reading src f t n = serve-from events reading src f t tt
serve-from (takes cancels ∷ events) waiting src f t n =
    Goes-ended events cancelled src f f _ [] refl
serve-from (takes cancels ∷ events) reading src f t n =
    Goes-ended events cancelled src f f _ [] refl
serve-from (takes (reads r) ∷ events) waiting src f t n = serve-from events waiting src f t tt
serve-from (takes (reads (chunk [])) ∷ events) reading src f t n =
    finish_peer-Goes events eof reading src f t tt
serve-from (takes (reads (chunk (b ∷ bs))) ∷ events) reading src f t n =
    let fed = feed f (b ∷ bs) in
    let t' =
      deliver_all src fed.1 (record t { bytes_received = t.bytes_received + length (b ∷ bs) }) in
    let next = enter (peer_in reading src fed.0) t' in
    let later = serve events next.peer next.server in
    let cs = chunks events next.peer next.server in
    subst (Delivers later.peer.phase f ((b ∷ bs) ∷ cs) later.peer.framer)
      (sym (append_assoc fed.1 next.delivered later.delivered))
      (Delivers-chunk f later.peer.framer later.peer.phase (b ∷ bs) cs
        (next.delivered ++ later.delivered)
        (enter-Goes events src fed.0 t' (serve-from events waiting src fed.0 t' tt)
          (serve-from events reading src fed.0 t' tt)))
serve-from (takes (reads (fails name)) ∷ events) reading src f t n =
    finish_peer-Goes events (error name) reading src f t tt

-- From the moment a peer is connected, whatever its handler reads, and whatever pauses, stops and
-- other peers do to the server in between: while the handler is in its loop, and at its end if it was
-- cancelled, it has delivered what its framer makes of the chunks read so far; at an end by the end of
-- the stream, a stop that the loop sees or an error it has delivered all the records of these chunks, the trailing one
-- included.
pub serve-Delivers :
    (events : List Event) (p : Peer) (t : TcpServerReceiver)
    → IsLive p.phase
    → let s = serve events p t in
      Delivers s.peer.phase p.framer (chunks events p t) s.peer.framer s.delivered
serve-Delivers events p t n = serve-from events p.phase p.src p.framer t n
