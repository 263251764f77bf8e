-- ===== src/TcpMig/Peer/Laws.antt =====
-- What a peer does to the migrations of its server.
use capybara.Base.{
  ℕ, ◌≡◌, refl, sym, ap, ◌∙◌, arith, List, [], ◌∷◌, false, Option, none, some, Result,
}
use capybara.Base.Panic.{>>=-eq_some}
use capybara.Base.Fallible.{ok, err}
use capybara.TcpMig.Active.{
  ActiveMigration, Outcome, TcpmigReceiveStatus, received, sent_reject, rejected_by_target,
  returned_by_switch, prepare_migration_acked, state_received, migration_completed,
  heartbeat_answered, process_packet,
}
use capybara.TcpMig.Fragmenter.{TcpMigSegment}
use capybara.TcpMig.Header.{
  TcpMigHeader, MigrationStage, prepare_migration, prepare_migration_ack, connection_state,
  heartbeat_response,
}
use capybara.TcpMig.Active.Moves.{answered, bare}
use capybara.TcpMig.Handshake.{ack_header, process_packet-accepts}
use capybara.TcpMig.Peer.{
  TcpMigPeer, PeerOutcome, with_active, without_active, active_for, settle, conclude, dispatch,
  receive_request, receive_at, receive_parsed,
}
use capybara.Wire.{SocketAddrV4, NetworkEndian, addr_eq}
use capybara.Wire.Addrs.{insert-same, insert-other, remove-same}

-- No status changes the migration of another client.
settle-other :
    (remote k : SocketAddrV4) (status status' : TcpmigReceiveStatus) (p p' : TcpMigPeer)
    → addr_eq remote k ≡ false
    → settle remote status p ≡ some (status', p')
    → p'.active_migrations k ≡ p.active_migrations k
unfolding settle
settle-other remote k received s' p p' other e = ground (arith, other, e)
settle-other remote k sent_reject s' p p' other e = ground (arith, other, e)
settle-other remote k (rejected_by_target a b) s' p p' other e = ground (arith, other, e)
settle-other remote k (returned_by_switch a b) s' p p' other e = cc
settle-other remote k (prepare_migration_acked qd) s' p p' other e = ground (arith, other, e)
settle-other remote k (state_received s) s' p p' other e = ground (arith, other, e)
settle-other remote k migration_completed s' p p' other e = ground (arith, other, e)
settle-other remote k (heartbeat_answered n) s' p p' other e = cc

conclude-other :
    (remote k : SocketAddrV4) (p : TcpMigPeer) (sent : List TcpMigSegment)
    (result : Result TcpmigReceiveStatus) (o : PeerOutcome)
    → addr_eq remote k ≡ false
    → conclude remote p sent result ≡ some o
    → o.peer.active_migrations k ≡ p.active_migrations k
unfolding conclude
conclude-other remote k p sent (err failure) o other e = ground (arith, e)
conclude-other remote k p sent (ok status) o other e =
    let ((s', p'), settled, left) = >>=-eq_some (settle remote status p) _ e in
    let same : p'.active_migrations k ≡ o.peer.active_migrations k = ground (arith, left) in
    sym same ∙ settle-other remote k status s' p p' other settled

module _ (ne : NetworkEndian) where
  dispatch-other :
      (p : TcpMigPeer) (remote k : SocketAddrV4) (hdr : TcpMigHeader) (buf : List ℕ)
      (o : PeerOutcome)
      → addr_eq remote k ≡ false
      → dispatch ne p remote hdr buf ≡ some o
      → o.peer.active_migrations k ≡ p.active_migrations k
  unfolding dispatch
  dispatch-other p remote k hdr buf o other e =
      let (a, there, left) = >>=-eq_some (p.active_migrations remote) _ e in
      let (o', processed, concluded) = >>=-eq_some (process_packet ne a hdr buf) _ left in
      conclude-other remote k (with_active remote o'.active p) o'.sent o'.result o other concluded
      ∙ insert-other remote k o'.active p.active_migrations other

  receive_request-other :
      (p : TcpMigPeer) (k : SocketAddrV4) (entry : Option ActiveMigration) (hdr : TcpMigHeader)
      (buf : List ℕ) (o : PeerOutcome)
      → addr_eq hdr.client k ≡ false
      → receive_request ne entry p hdr buf ≡ some o
      → o.peer.active_migrations k ≡ p.active_migrations k
  unfolding receive_request
  receive_request-other p k (some a) hdr buf o other e = ground (arith, other, e)
  receive_request-other p k none hdr buf o other e =
      let a = active_for p hdr.origin.port hdr.origin hdr.client none in
      dispatch-other (with_active hdr.client a p) hdr.client k hdr buf o other e
      ∙ insert-other hdr.client k a p.active_migrations other

  receive_at-other :
      (p : TcpMigPeer) (k : SocketAddrV4) (stage : MigrationStage) (hdr : TcpMigHeader)
      (buf : List ℕ) (o : PeerOutcome)
      → addr_eq hdr.client k ≡ false
      → receive_at ne stage p hdr buf ≡ some o
      → o.peer.active_migrations k ≡ p.active_migrations k
  unfolding receive_at
  receive_at-other p k heartbeat_response hdr buf o other e = ground (arith, e)
  receive_at-other p k prepare_migration hdr buf o other e =
      receive_request-other p k (p.active_migrations hdr.client) hdr buf o other e
  receive_at-other p k _ hdr buf o other e = dispatch-other p hdr.client k hdr buf o other e

  -- A segment changes no migration but that of its client, whatever the segment is and whatever the
  -- call reports.
  pub receive_parsed-other :
      (p : TcpMigPeer) (k : SocketAddrV4) (hdr : TcpMigHeader) (buf : List ℕ) (o : PeerOutcome)
      → addr_eq hdr.client k ≡ false
      → receive_parsed ne p hdr buf ≡ some o
      → o.peer.active_migrations k ≡ p.active_migrations k
  unfolding receive_parsed
  receive_parsed-other p k hdr buf o other e = receive_at-other p k hdr.stage hdr buf o other e

  dispatch_lem :
      (p : TcpMigPeer) (a : ActiveMigration) (remote : SocketAddrV4) (hdr : TcpMigHeader)
      (buf : List ℕ) (o : Outcome)
      → p.active_migrations remote ≡ some a
      → process_packet ne a hdr buf ≡ some o
      → dispatch ne p remote hdr buf
        ≡ conclude remote (with_active remote o.active p) o.sent o.result
  unfolding dispatch
  dispatch_lem p a remote hdr buf o there processed = rw there (rw processed refl)

  dispatch-none :
      (p : TcpMigPeer) (remote : SocketAddrV4) (hdr : TcpMigHeader) (buf : List ℕ)
      → p.active_migrations remote ≡ none
      → dispatch ne p remote hdr buf ≡ none
  unfolding dispatch
  dispatch-none p remote hdr buf free = rw free refl

  -- The first request is answered, and the migration waits for the state.
  receive_request-answers :
      (p : TcpMigPeer) (hdr : TcpMigHeader)
      → hdr.stage ≡ prepare_migration
      → let a = active_for p hdr.origin.port hdr.origin hdr.client none in
        let reply = answered received a (ack_header hdr) prepare_migration_ack in
        receive_request ne none p hdr []
        ≡ some (record {
          result = ok received;
          peer = with_active hdr.client reply.active (with_active hdr.client a p);
          sent = reply.sent;
        })
  unfolding receive_request conclude settle
  receive_request-answers p hdr request =
      let a = active_for p hdr.origin.port hdr.origin hdr.client none in
      let reply = answered received a (ack_header hdr) prepare_migration_ack in
      dispatch_lem (with_active hdr.client a p) a hdr.client hdr [] reply
        (insert-same hdr.client a p.active_migrations)
        (process_packet-accepts ne a hdr refl request)

  receive_at-request :
      (p : TcpMigPeer) (hdr : TcpMigHeader) (buf : List ℕ) (entry : Option ActiveMigration)
      → hdr.stage ≡ prepare_migration
      → p.active_migrations hdr.client ≡ entry
      → receive_at ne hdr.stage p hdr buf ≡ receive_request ne entry p hdr buf
  unfolding receive_at
  receive_at-request p hdr buf entry request there =
      ap (λ stage. receive_at ne stage p hdr buf) request
      ∙ ap (λ e. receive_request ne e p hdr buf) there

  receive_at-state :
      (p : TcpMigPeer) (hdr : TcpMigHeader) (buf : List ℕ)
      → hdr.stage ≡ connection_state
      → receive_at ne hdr.stage p hdr buf ≡ dispatch ne p hdr.client hdr buf
  unfolding receive_at
  receive_at-state p hdr buf state = ap (λ stage. receive_at ne stage p hdr buf) state

  returns :
      (a : ActiveMigration) (p : TcpMigPeer) (hdr : TcpMigHeader) (buf : List ℕ)
      → receive_request ne (some a) p hdr buf
        ≡ some (record {
          result = ok (returned_by_switch hdr.origin hdr.client);
          peer = without_active hdr.client p;
          sent = [];
        })
  unfolding receive_request
  returns a p hdr buf = refl

  -- A request for a migration of a client that has none, that arrives twice: the first is answered
  -- with one acknowledgement, the second removes the migration, and every segment of the state that comes then is a panic.
  pub receive_parsed-repeated :
      (p : TcpMigPeer) (hdr state_hdr : TcpMigHeader) (buf : List ℕ)
      → p.active_migrations hdr.client ≡ none
      → hdr.stage ≡ prepare_migration
      → state_hdr.client ≡ hdr.client
      → state_hdr.stage ≡ connection_state
      → (first second : PeerOutcome) × (receive_parsed ne p hdr [] ≡ some first)
        × (first.result ≡ ok received)
        × (first.sent
            ≡ bare (active_for p hdr.origin.port hdr.origin hdr.client none) (ack_header hdr) ∷ [])
        × (receive_parsed ne first.peer hdr [] ≡ some second)
        × (second.result ≡ ok (returned_by_switch hdr.origin hdr.client))
        × (second.peer.active_migrations hdr.client ≡ none)
        × (receive_parsed ne second.peer state_hdr buf ≡ none)
  unfolding receive_parsed
  receive_parsed-repeated p hdr state_hdr buf free request same state =
      let a = active_for p hdr.origin.port hdr.origin hdr.client none in
      let reply = answered received a (ack_header hdr) prepare_migration_ack in
      let q = with_active hdr.client reply.active (with_active hdr.client a p) in
      let there =
        insert-same hdr.client reply.active (with_active hdr.client a p).active_migrations in
      let gone = remove-same hdr.client q.active_migrations in
      (
        record { result = ok received; peer = q; sent = reply.sent },
        record {
          result = ok (returned_by_switch hdr.origin hdr.client);
          peer = without_active hdr.client q;
          sent = [];
        },
        receive_at-request p hdr [] none request free ∙ receive_request-answers p hdr request,
        refl,
        refl,
        receive_at-request q hdr [] (some reply.active) request there
            ∙ returns reply.active q hdr [],
        refl,
        gone,
        receive_at-state (without_active hdr.client q) state_hdr buf state
            ∙ dispatch-none (without_active hdr.client q) state_hdr.client state_hdr buf
                (ap (without_active hdr.client q).active_migrations same ∙ gone),
      )
