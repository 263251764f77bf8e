-- ===== src/TcpMig/Protocol/Safety.antt =====
-- What a completed migration means: the state that was sent is the one that was accepted.
use capybara.Base.{ℕ, ◌≤◌, ◌≡◌, ◌⊎◌, List, [], ◌∷◌, false, some}
use capybara.Tcp.Migration.Laws.{StateFits}
use capybara.Tcp.Migration.TcpState
use capybara.Tcp.Migration.TcpState.{TcpState, carried_state, serialized_size}
use capybara.TcpMig.Active.{ActiveMigration, Outcome, state_received, next_header}
use capybara.TcpMig.Active.Moves.{answered}
use capybara.TcpMig.Defragmenter.{new_defragmenter, reset}
use capybara.TcpMig.Fragmenter.{TcpMigSegment, max_fragment_size}
use capybara.TcpMig.Header.{
  MigrationStage, no_stage, prepare_migration_ack, connection_state, connection_state_ack,
  TcpMigHeader,
}
use capybara.TcpMig.Protocol.{World}
use capybara.TcpMig.Transfer.{taken_over}
use capybara.Wire.{NetworkEndian}

-- A state of the right widths that goes on the network in one segment.
pub record IsSmall (s : TcpState) : Type 0 where
  pub fits : StateFits s.cb
  pub one_segment : serialized_size s ≤ max_fragment_size

abbrev pub AllSmall : List TcpState → Type 0
AllSmall [] = Unit
AllSmall (s ∷ given) = IsSmall s × AllSmall given

module _ (ne : NetworkEndian) where
  -- A segment is the whole of a state.
  abbrev IsWhole : TcpState → TcpMigHeader → List ℕ → Type 0
  IsWhole s hdr buf =
      (TcpState.deserialize ne buf ≡ some (carried_state s))
      × (hdr.flag_next_fragment ≡ false)
      × (hdr.fragment_offset ≡ 0)

  -- A segment at the stage of a state brings the one state that was given.
  abbrev Brings : List TcpState → TcpMigSegment → Type 0
  Brings given m =
      m.tcpmig_hdr.stage ≡ connection_state
      → (s : TcpState) × (given ≡ s ∷ []) × IsWhole s m.tcpmig_hdr m.payload

  abbrev AllBring : List TcpState → List TcpMigSegment → Type 0
  AllBring given [] = Unit
  AllBring given (m ∷ network) = Brings given m × AllBring given network

  -- What the giver has given.
  abbrev GiverHas : MigrationStage → List TcpState → Type 0
  GiverHas stage given = (given ≡ []) ⊎ (stage ≡ connection_state)

  -- What the taker has taken of it.
  abbrev TakerHas : List TcpState → ActiveMigration → List TcpState → Type 0
  TakerHas given t accepted =
      (((t.last_sent_stage ≡ no_stage) ⊎ (t.last_sent_stage ≡ prepare_migration_ack))
        × (t.defragmenter ≡ new_defragmenter)
        × (accepted ≡ []))
      ⊎ ((t.last_sent_stage ≡ connection_state_ack)
          × ((s : TcpState) × (given ≡ s ∷ []) × (accepted ≡ taken_over ne t s ∷ [])))

  record Has (w : World) : Type 0 where
    giver_has : GiverHas w.giver.last_sent_stage w.given
    taker_has : TakerHas w.given w.taker w.accepted
    network_has : AllBring w.given w.network

  -- What a call of the taker hands on and keeps, at each of its stages.
  module _ (a : ActiveMigration) (hdr : TcpMigHeader) (buf : List ℕ) where
    -- The outcome of a call that is given the whole state.
    abbrev accepting : TcpState → Outcome
    accepting s =
        answered (state_received (taken_over ne a s))
          (record a { defragmenter = reset a.defragmenter }) (next_header hdr connection_state_ack)
          connection_state_ack
