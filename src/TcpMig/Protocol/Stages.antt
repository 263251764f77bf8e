-- ===== src/TcpMig/Protocol/Stages.antt =====
-- The stages of both sides of a migration, and of what is on the network, in every world that its
-- steps reach.
use capybara.Base.{
  ℕ, zero, suc, ◌≡◌, ◌⊎◌, inl, inr, sym, ap₂, arith, List, [], ◌∷◌, ◌++◌, append-nil, get_elem?,
  some,
}
use mathlib.Core.Path.{subst}
use capybara.Tcp.Migration.TcpState.{TcpState}
use capybara.TcpMig.Active.{Outcome}
use capybara.TcpMig.Active.Laws.{AllAt}
use capybara.TcpMig.Active.Moves.{
  TakerMove, stays, prepares, accepts, states_in, initiate_migration_lem, send_connection_state_lem,
  process_packet-giver, process_packet-TakerMove,
}
use capybara.TcpMig.Fragmenter.{TcpMigSegment}
use capybara.TcpMig.Header.{
  MigrationStage, no_stage, prepare_migration, prepare_migration_ack, connection_state,
  connection_state_ack,
}
use capybara.TcpMig.Protocol.{
  World, Step, initiate, send_state, giver_receives, taker_receives, Reach, here, next, IsInitial,
}
use capybara.Wire.{NetworkEndian}

-- What may be on the network when the side that takes the connection has a given stage.
abbrev pub Allowed : MigrationStage → MigrationStage → Type 0
Allowed taker prepare_migration = Unit
Allowed taker prepare_migration_ack = Unit
Allowed taker connection_state = Unit
Allowed taker connection_state_ack = taker ≡ connection_state_ack
Allowed taker _ = ⊥

abbrev pub AllAllowed : MigrationStage → List TcpMigSegment → Type 0
AllAllowed taker [] = Unit
AllAllowed taker (m ∷ network) = Allowed taker m.tcpmig_hdr.stage × AllAllowed taker network

abbrev pub GiverIs : MigrationStage → List TcpMigSegment → Type 0
GiverIs stage network =
    ((stage ≡ no_stage) × (network ≡ [])) ⊎ (stage ≡ prepare_migration) ⊎ (stage ≡ connection_state)

abbrev pub TakerIs : MigrationStage → List TcpState → Type 0
TakerIs stage accepted =
    ((stage ≡ no_stage) × (accepted ≡ []))
    ⊎ ((stage ≡ prepare_migration_ack) × (accepted ≡ []))
    ⊎ ((stage ≡ connection_state_ack) × ((s : TcpState) × (accepted ≡ s ∷ [])))

pub record Inv (w : World) : Type 0 where
  pub giver_is : GiverIs w.giver.last_sent_stage w.network
  pub taker_is : TakerIs w.taker.last_sent_stage w.accepted
  pub sent : AllAllowed w.taker.last_sent_stage w.network

AllAllowed-append :
    (taker stage : MigrationStage) (network segments : List TcpMigSegment)
    → Allowed taker stage
    → AllAllowed taker network
    → AllAt stage segments
    → AllAllowed taker (network ++ segments)
AllAllowed-append taker stage [] [] may before at = tt
AllAllowed-append taker stage [] (s ∷ segments) may before (at, left) =
    (subst (Allowed taker) (sym at) may, AllAllowed-append taker stage [] segments may tt left)
AllAllowed-append taker stage (m ∷ network) segments may (first, before) at =
    (first, AllAllowed-append taker stage network segments may before at)

-- An acknowledgement that is on the network stays allowed while the taker stays at its end.
Allowed-later :
    (before after stage : MigrationStage)
    → (before ≡ after) ⊎ (after ≡ connection_state_ack) ⊎ (before ≡ no_stage)
    → Allowed before stage
    → Allowed after stage
Allowed-later before after no_stage moves may = may
Allowed-later before after connection_state_ack moves may = ground arith
Allowed-later before after _ moves may = may

AllAllowed-later :
    (before after : MigrationStage) (network : List TcpMigSegment)
    → (before ≡ after) ⊎ (after ≡ connection_state_ack) ⊎ (before ≡ no_stage)
    → AllAllowed before network
    → AllAllowed after network
AllAllowed-later before after [] moves may = tt
AllAllowed-later before after (m ∷ network) moves (may, others) = (
  Allowed-later before after m.tcpmig_hdr.stage moves may,
  AllAllowed-later before after network moves others,
)

pub Allowed-get_elem? :
    (taker : MigrationStage) (network : List TcpMigSegment) (i : ℕ) (m : TcpMigSegment)
    → AllAllowed taker network
    → get_elem? network i ≡ some m
    → Allowed taker m.tcpmig_hdr.stage
Allowed-get_elem? taker [] i m may there = cc
Allowed-get_elem? taker (n ∷ network) zero m may there =
    let same : n ≡ m = ground (arith, there) in
    subst (λ (k : TcpMigSegment). Allowed taker k.tcpmig_hdr.stage) same may.0
Allowed-get_elem? taker (n ∷ network) (suc i) m may there =
    Allowed-get_elem? taker network i m may.1 there

pub giver_started :
    (stage : MigrationStage) (network : List TcpMigSegment) (i : ℕ) (m : TcpMigSegment)
    → GiverIs stage network
    → get_elem? network i ≡ some m
    → (stage ≡ prepare_migration) ⊎ (stage ≡ connection_state)
giver_started stage network i m (inl (at, empty)) there = absurd (ground (arith, empty, there))
giver_started stage network i m (inr started) there = started

pub taker_stage :
    (stage : MigrationStage) (accepted : List TcpState)
    → TakerIs stage accepted
    → (stage ≡ no_stage) ⊎ (stage ≡ prepare_migration_ack) ⊎ (stage ≡ connection_state_ack)
taker_stage stage accepted (inl (at, empty)) = inl at
taker_stage stage accepted (inr (inl (at, empty))) = inr (inl at)
taker_stage stage accepted (inr (inr (at, one))) = inr (inr at)

-- Nothing is accepted before the end.
accepted_before :
    (stage : MigrationStage) (accepted : List TcpState)
    → TakerIs stage accepted
    → (stage ≡ no_stage) ⊎ (stage ≡ prepare_migration_ack)
    → accepted ≡ []
accepted_before stage accepted (inl (at, empty)) early = empty
accepted_before stage accepted (inr (inl (at, empty))) early = empty
accepted_before stage accepted (inr (inr (at, one))) (inl early) = absurd (cc (at, early))
accepted_before stage accepted (inr (inr (at, one))) (inr early) = absurd (cc (at, early))

pub accepted_at_end :
    (stage : MigrationStage) (accepted : List TcpState)
    → TakerIs stage accepted
    → stage ≡ connection_state_ack
    → (s : TcpState) × (accepted ≡ s ∷ [])
accepted_at_end stage accepted (inl (at, empty)) ended = absurd (cc (at, ended))
accepted_at_end stage accepted (inr (inl (at, empty))) ended = absurd (cc (at, ended))
accepted_at_end stage accepted (inr (inr (at, one))) ended = one

after_move :
    (w : World) (o : Outcome)
    → Inv w
    → TakerMove w.taker o
    → TakerIs o.active.last_sent_stage (w.accepted ++ states_in o.result)
      × AllAllowed o.active.last_sent_stage (w.network ++ o.sent)
after_move w o inv (stays same quiet nothing) = (
  subst (λ l. TakerIs o.active.last_sent_stage (w.accepted ++ l)) (sym nothing)
      (subst (TakerIs o.active.last_sent_stage) (sym (append-nil w.accepted))
        (subst (λ stage. TakerIs stage w.accepted) (sym same) inv.taker_is)),
  subst (λ l. AllAllowed o.active.last_sent_stage (w.network ++ l)) (sym quiet)
      (subst (AllAllowed o.active.last_sent_stage) (sym (append-nil w.network)) (
        AllAllowed-later w.taker.last_sent_stage o.active.last_sent_stage w.network (inl (sym same))
          inv.sent)),
)
after_move w o inv (prepares idle at sent nothing) =
    let none_yet = accepted_before w.taker.last_sent_stage w.accepted inv.taker_is (inl idle) in
    (
      inr (inl (at, ap₂ ◌++◌ none_yet nothing)),
      AllAllowed-append o.active.last_sent_stage prepare_migration_ack w.network o.sent tt
          (AllAllowed-later w.taker.last_sent_stage o.active.last_sent_stage w.network
            (inr (inr idle)) inv.sent)
          sent,
    )
after_move w o inv (accepts s prepared at sent one) =
    let none_yet = accepted_before w.taker.last_sent_stage w.accepted inv.taker_is (inr prepared) in
    (
      inr (inr (at, (s, ap₂ ◌++◌ none_yet one))),
      AllAllowed-append o.active.last_sent_stage connection_state_ack w.network o.sent at
          (AllAllowed-later w.taker.last_sent_stage o.active.last_sent_stage w.network
            (inr (inl at)) inv.sent)
          sent,
    )

module _ (ne : NetworkEndian) where
  Step-Inv : {w v : World} → Step ne w v → Inv w → Inv v
  Step-Inv (initiate {w} {a} {sent} e) inv =
      let (idle, begun, at) = initiate_migration_lem w.giver a sent e in
      record {
        giver_is = inr (inl begun);
        taker_is = inv.taker_is;
        sent =
            AllAllowed-append w.taker.last_sent_stage prepare_migration w.network sent tt inv.sent
              at;
      }
  Step-Inv (send_state {w} {a} {sent} s e) inv =
      let (prepared, moved, at) = send_connection_state_lem ne w.giver a s sent e in
      record {
        giver_is = inr (inr moved);
        taker_is = inv.taker_is;
        sent =
            AllAllowed-append w.taker.last_sent_stage connection_state w.network sent tt inv.sent
              at;
      }
  Step-Inv (giver_receives {w} i m {o} there e) inv =
      let started = giver_started w.giver.last_sent_stage w.network i m inv.giver_is there in
      let (same, quiet) = process_packet-giver ne w.giver m.tcpmig_hdr m.payload o started e in
      record {
        giver_is = subst (λ stage. GiverIs stage (w.network ++ o.sent)) (sym same) (inr started);
        taker_is = inv.taker_is;
        sent =
            subst (λ l. AllAllowed w.taker.last_sent_stage (w.network ++ l)) (sym quiet)
              (subst (AllAllowed w.taker.last_sent_stage) (sym (append-nil w.network)) inv.sent);
      }
  Step-Inv (taker_receives {w} i m {o} there e) inv =
      let started = giver_started w.giver.last_sent_stage w.network i m inv.giver_is there in
      let move =
        process_packet-TakerMove ne w.taker m.tcpmig_hdr m.payload o
          (taker_stage w.taker.last_sent_stage w.accepted inv.taker_is) e in
      let (taker_is, sent) = after_move w o inv move in
      record { giver_is = inr started; taker_is = taker_is; sent = sent }

  pub Reach-Inv : {w v : World} → Inv w → Reach ne w v → Inv v
  Reach-Inv inv here = inv
  Reach-Inv inv (next reached step) = Step-Inv step (Reach-Inv inv reached)

  pub initial-Inv : (w : World) → IsInitial w → Inv w
  initial-Inv w init = record {
    giver_is = inl (init.giver_idle, init.nothing_sent);
    taker_is = inl (init.taker_idle, init.nothing_accepted);
    sent = subst (AllAllowed w.taker.last_sent_stage) (sym init.nothing_sent) tt;
  }
