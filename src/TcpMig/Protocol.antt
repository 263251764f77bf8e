-- ===== src/TcpMig/Protocol.antt =====
-- A migration between two servers, over a network that may lose, repeat, reorder and misdeliver what
-- was ever sent: the operations of tcpmig/active.rs on both sides as steps.
pub mod Stages
pub mod Safety
use capybara.Base.{ℕ, ◌+◌, ◌≡◌, List, [], ◌∷◌, ◌++◌, length, get_elem?, Option, none, some, Result}
use capybara.Base.Fallible.{ok, err}
use capybara.Tcp.Migration.TcpState.{TcpState}
use capybara.TcpMig.Active.{
  ActiveMigration, Outcome, TcpmigReceiveStatus, received, sent_reject, rejected_by_target,
  returned_by_switch, prepare_migration_acked, state_received, migration_completed,
  heartbeat_answered, initiate_migration, send_connection_state, process_packet,
}
use capybara.TcpMig.Active.Moves.{states_in}
use capybara.TcpMig.Fragmenter.{TcpMigSegment}
use capybara.TcpMig.Header.{no_stage}
use capybara.TcpMig.Defragmenter.{new_defragmenter}
use capybara.Wire.{NetworkEndian}

-- The side that gives the connection away, the side that takes it, all segments that were ever sent,
-- the states that the first side was given to send, and the states that the second side has handed to
-- its TCP peer.
pub record World : Type 0 where
  pub giver : ActiveMigration
  pub taker : ActiveMigration
  pub network : List TcpMigSegment
  pub given : List TcpState
  pub accepted : List TcpState

module _ (ne : NetworkEndian) where
  pub data Step : World → World → Type 0 where
    initiate :
        {w : World} {a : ActiveMigration} {sent : List TcpMigSegment}
        → initiate_migration w.giver ≡ some (a, sent)
        → Step w (record w { giver = a; network = w.network ++ sent })
    send_state :
        {w : World} {a : ActiveMigration} {sent : List TcpMigSegment} (s : TcpState)
        → send_connection_state ne w.giver s ≡ some (a, sent)
        → Step w (record w { giver = a; network = w.network ++ sent; given = w.given ++ (s ∷ []) })
    giver_receives :
        {w : World} (i : ℕ) (m : TcpMigSegment) {o : Outcome}
        → get_elem? w.network i ≡ some m
        → process_packet ne w.giver m.tcpmig_hdr m.payload ≡ some o
        → Step w (record w { giver = o.active; network = w.network ++ o.sent })
    taker_receives :
        {w : World} (i : ℕ) (m : TcpMigSegment) {o : Outcome}
        → get_elem? w.network i ≡ some m
        → process_packet ne w.taker m.tcpmig_hdr m.payload ≡ some o
        → Step w (record w {
          taker = o.active;
          network = w.network ++ o.sent;
          accepted = w.accepted ++ states_in o.result;
        })

  pub data Reach (w : World) : World → Type 0 where
    here : Reach w w
    next : {u v : World} → Reach w u → Step u v → Reach w v

-- Before the first step: neither side has sent or received anything, and the network is empty.
pub record IsInitial (w : World) : Type 0 where
  pub giver_idle : w.giver.last_sent_stage ≡ no_stage
  pub taker_idle : w.taker.last_sent_stage ≡ no_stage
  pub taker_fresh : w.taker.defragmenter ≡ new_defragmenter
  pub nothing_sent : w.network ≡ []
  pub nothing_given : w.given ≡ []
  pub nothing_accepted : w.accepted ≡ []
