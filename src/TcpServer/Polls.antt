-- ===== src/TcpServer/Polls.antt =====
-- What `poll` of source/llbase/tcp_server.cpp leaves in the sets of sockets.
use nitek.Base.{
  ◌≡◌, refl, arith, inl, inr, Bool, Bool-cases, false, List, [], ◌∷◌, All, All-mono, subst,
}
use nitek.Base.Run.{ok}
use nitek.TcpServer.{
  TcpServer, Event, Connection, push_if_absent, handle_event, handle_events, accept_all, poll,
}
use nitek.TcpServer.Laws.{
  IsValid, Keeps, Keeps-refl, Keeps-trans, IsRecorded, IsRecorded-Keeps, Handled,
  handle_event-Handled, push_if_absent-Distinct, push_if_absent-keeps,
}

handle_events-Handled :
    (es : List Event) (new : Bool) (s : TcpServer)
    → IsValid s
    → Handled es s (handle_events es (new, s)).1
unfolding handle_events
handle_events-Handled [] new s v = record { valid = v; keeps = Keeps-refl s; recorded = tt }
handle_events-Handled (e ∷ es) new s v =
    let r = handle_event e (new, s) in
    let one : Handled (e ∷ []) s r.1 = handle_event-Handled e new s v in
    let rest : Handled es r.1 (handle_events es (r.0, r.1)).1 =
      handle_events-Handled es r.0 r.1 one.valid in
    record {
      valid = rest.valid;
      keeps = Keeps-trans s r.1 (handle_events es r).1 one.keeps rest.keeps;
      recorded =
          (IsRecorded-Keeps r.1 (handle_events es r).1 e rest.keeps one.recorded.0, rest.recorded);
    }

accept_all-IsValid :
    (cs : List Connection) (s s' : TcpServer)
    → accept_all cs s ≡ ok s'
    → IsValid s
    → IsValid s' × Keeps s s'
unfolding accept_all
accept_all-IsValid [] s s' h v =
    let same : s ≡ s' = ground (arith, h) in
    subst (λ (t : TcpServer). IsValid t × Keeps s t) same (v, Keeps-refl s)
accept_all-IsValid (c ∷ cs) s s' h v =
    let s1 : TcpServer = record s { rx_sockets = push_if_absent c.socket s.rx_sockets } in
    let rest : accept_all cs s1 ≡ ok s' = ground (arith, h) in
    let v1 : IsValid s1 = record {
      rx = push_if_absent-Distinct c.socket s.rx_sockets v.rx;
      tx = v.tx;
      dx = v.dx;
    } in
    let k1 : Keeps s s1 = record {
      listener = refl;
      rx = push_if_absent-keeps c.socket s.rx_sockets;
      tx = λ x g. g;
      dx = λ x g. g;
    } in
    let (v', k') = accept_all-IsValid cs s1 s' rest v1 in (v', Keeps-trans s s1 s' k1 k')

-- A poll that does not end the process keeps the sets free of duplicates and loses no socket; every
-- event is recorded, but for what comes with a new connection: a socket that can be read is among the
-- receiving ones, one that can be written among the sending ones, and one that is lost among those.
pub poll-IsRecorded :
    (events : List Event) (connections : List Connection) (s s' : TcpServer)
    → IsValid s
    → poll events connections s ≡ ok s'
    → IsValid s' × Keeps s s' × All (IsRecorded s') events
unfolding poll
poll-IsRecorded events connections s s' v h =
    let r = handle_events events (false, s) in
    let handled : Handled events s r.1 = handle_events-Handled events false s v in
    elim (Bool-cases r.0) [
      | inl new ↦
          let accepts : accept_all connections r.1 ≡ ok s' = ground (arith, h, new) in
          let (v', k) = accept_all-IsValid connections r.1 s' accepts handled.valid in
          (
            v',
            Keeps-trans s r.1 s' handled.keeps k,
            All-mono events (λ e. IsRecorded-Keeps r.1 s' e k) handled.recorded,
          )
      | inr old ↦
          let same : r.1 ≡ s' = ground (arith, h, old) in
          subst (λ (t : TcpServer). IsValid t × Keeps s t × All (IsRecorded t) events) same
            (handled.valid, handled.keeps, handled.recorded)
    ]
