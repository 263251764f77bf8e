-- ===== src/TcpMig/Arrivals.antt =====
-- The segments of a state as they arrive at the taker, one after the other, tcpmig/active.rs with
-- segment/defragmenter.rs.
use capybara.Base.{
  ℕ, zero, suc, ◌<◌, ◌≡◌, inl, inr, refl, sym, ap, ◌∙◌, arith, List, [], ◌∷◌, length, get_or, true,
  false, Option, none, some, Option-cases,
}
use mathlib.Core.Path.{subst}
use capybara.Base.Panic.{◌>>=◌}
use capybara.Base.Fallible.{ok, err}
use capybara.Tcp.Migration.TcpState.{TcpState}
use capybara.TcpMig.Active.{
  ActiveMigration, Outcome, received, state_received, quietly, process_packet, take_state,
}
use capybara.TcpMig.Active.Laws.{AllAt}
use capybara.TcpMig.Defragmenter.{TcpMigDefragmenter, new_defragmenter, defragment}
use capybara.TcpMig.Defragmenter.Laws.{whole_header, true-false}
use capybara.TcpMig.Defragmenter.Slots.{Slots, mark, count}
use capybara.TcpMig.Defragmenter.Slots
use capybara.TcpMig.Fragmenter.{TcpMigSegment}
use capybara.TcpMig.Fragmenter.Laws.{AreFragments, last, more}
use capybara.TcpMig.Header.{TcpMigHeader, connection_state, prepare_migration_ack}
use capybara.TcpMig.Shuffled.{
  reassemble, slots_of, Shuffled, complete, arrival, reassemble_first, counted,
}
use capybara.Wire.{NetworkEndian}

module _ (base : TcpMigSegment) (x : TcpMigSegment) where
  nothing_left :
      (slots : Slots) (bytes : List ℕ) (order : List TcpMigSegment)
      → slots ≡ (true, bytes) ∷ []
      → Shuffled base (x ∷ []) slots order
      → order ≡ []
  nothing_left slots bytes order is (complete full) = refl
  nothing_left slots bytes order is (arrival zero inside fresh rest) =
      absurd (true-false (Slots.received slots 0) (ap (λ l. Slots.received l 0) is) fresh)
  nothing_left slots bytes order is (arrival (suc i) inside fresh rest) = absurd (omega arith)

  single_order :
      (slots : Slots) (bytes : List ℕ) (order : List TcpMigSegment)
      → slots ≡ (false, bytes) ∷ []
      → Shuffled base (x ∷ []) slots order
      → order ≡ x ∷ []
  single_order slots bytes order is (complete full) =
      absurd (omega (arith, full, ap count is, ap (λ (l : Slots). length l) is))
  single_order slots bytes order is (arrival zero {others} inside fresh rest) =
      ap (◌∷◌ x) (nothing_left (mark 0 slots) bytes others (ap (mark 0) is) rest)
  single_order slots bytes order is (arrival (suc i) inside fresh rest) = absurd (omega arith)

get_or-default :
    (segments : List TcpMigSegment) (i : ℕ) (c b : TcpMigSegment)
    → i < length segments
    → get_or segments i c ≡ get_or segments i b
get_or-default [] i c b inside = absurd (omega arith)
get_or-default (s ∷ segments) zero c b inside = refl
get_or-default (s ∷ segments) (suc i) c b inside =
    get_or-default segments i c b (omega (arith, inside))

get_or-AllAt :
    (segments : List TcpMigSegment) (i : ℕ) (base : TcpMigSegment)
    → i < length segments
    → AllAt connection_state segments
    → (get_or segments i base).tcpmig_hdr.stage ≡ connection_state
get_or-AllAt [] i base inside at = absurd (omega arith)
get_or-AllAt (s ∷ segments) zero base inside at = at.0
get_or-AllAt (s ∷ segments) (suc i) base inside at =
    get_or-AllAt segments i base (omega (arith, inside)) at.1

-- Where the fragments of a segment are said to come from does not matter.
pub Shuffled-base :
    (b c : TcpMigSegment) (segments : List TcpMigSegment) {slots : Slots}
    {order : List TcpMigSegment}
    → Shuffled b segments slots order
    → Shuffled c segments slots order
Shuffled-base b c segments (complete full) = complete full
Shuffled-base b c segments (arrival {slots} i {others} inside fresh rest) =
    subst (λ s. Shuffled c segments slots (s ∷ others)) (get_or-default segments i c b inside)
      (arrival i inside fresh (Shuffled-base b c segments rest))

pub Shuffled-AllAt :
    (base : TcpMigSegment) (segments : List TcpMigSegment) {slots : Slots}
    {order : List TcpMigSegment}
    → AllAt connection_state segments
    → Shuffled base segments slots order
    → AllAt connection_state order
Shuffled-AllAt base segments at (complete full) = tt
Shuffled-AllAt base segments at (arrival i inside fresh rest) =
    (get_or-AllAt segments i base inside at, Shuffled-AllAt base segments at rest)

-- The fragments of a segment of any length, in any order, give back its data.
pub reassemble-AreFragments :
    (base : TcpMigSegment) (payload : List ℕ) (segments order : List TcpMigSegment)
    → AreFragments base 0 payload segments
    → Shuffled base segments (slots_of segments) order
    → (d' : TcpMigDefragmenter) × (reassemble new_defragmenter order
        ≡ some (d', some (whole_header base.tcpmig_hdr, payload), []))
unfolding reassemble defragment
reassemble-AreFragments base payload [] order are shuffled = elim are [ ]
reassemble-AreFragments base payload (x ∷ []) order (last short) shuffled =
    let alone = single_order base x ((false, payload) ∷ []) payload order refl shuffled in
    subst
      (λ l.
        (d' : TcpMigDefragmenter) × (reassemble new_defragmenter l
          ≡ some (d', some (whole_header base.tcpmig_hdr, payload), [])))
      (sym alone) (new_defragmenter, refl)
reassemble-AreFragments base payload (x ∷ []) order (more split full left are) shuffled =
    elim are [ ]
reassemble-AreFragments base payload (x ∷ y ∷ segments) order are shuffled = (
  counted (length payload),
  reassemble_first base payload (x ∷ y ∷ segments) order are (omega arith) shuffled,
)

message_of :
    (d d' : TcpMigDefragmenter) (message message' : TcpMigHeader × List ℕ)
    (order : List TcpMigSegment)
    → ◌≡◌ {A = Option (TcpMigDefragmenter × Option (TcpMigHeader × List ℕ) × List TcpMigSegment)}
        (some (d, some message, order))
        (some (d', some message', []))
    → ◌≡◌ {A = TcpMigDefragmenter × (TcpMigHeader × List ℕ)} (d, message) (d', message')
message_of d d' message message' order e = cc

module _ (ne : NetworkEndian) where
  -- The segments of a state as they arrive, up to the first call that has something to report.
  unfoldable pub receive_state : ActiveMigration → List TcpMigSegment → Option Outcome
  receive_state a [] = quietly (ok received) a
  receive_state a (m ∷ segments) = do
    o ← process_packet ne a m.tcpmig_hdr m.payload
    let rest = receive_state o.active segments
    elim o.result [
      | err failure ↦ some o
      | ok status ↦ elim status [ received ↦ rest | _ ↦ some o ]
    ]

  module _ (a : ActiveMigration) (hdr : TcpMigHeader) (buf : List ℕ) (d : TcpMigDefragmenter) where
    process_packet-waits :
        a.last_sent_stage ≡ prepare_migration_ack
        → hdr.stage ≡ connection_state
        → defragment a.defragmenter hdr buf ≡ some (d, none)
        → process_packet ne a hdr buf ≡ quietly (ok received) (record a { defragmenter = d })
    unfolding process_packet take_state
    process_packet-waits prepared is waits = ground (arith, prepared, is, waits)

    process_packet-comes :
        (message : TcpMigHeader × List ℕ)
        → a.last_sent_stage ≡ prepare_migration_ack
        → hdr.stage ≡ connection_state
        → defragment a.defragmenter hdr buf ≡ some (d, some message)
        → process_packet ne a hdr buf ≡ take_state ne (record a { defragmenter = d }) (some message)
    unfolding process_packet
    process_packet-comes message prepared is comes = ground (arith, prepared, is, comes)

  reported :
      (a : ActiveMigration) (m : TcpMigSegment) (order : List TcpMigSegment) (o : Outcome)
      (s : TcpState)
      → process_packet ne a m.tcpmig_hdr m.payload ≡ some o
      → o.result ≡ ok (state_received s)
      → receive_state a (m ∷ order) ≡ some o
  unfolding receive_state
  reported a m order o s e done = rw e (ground (arith, done))

  waited :
      (a b : ActiveMigration) (m : TcpMigSegment) (order : List TcpMigSegment)
      → process_packet ne a m.tcpmig_hdr m.payload ≡ quietly (ok received) b
      → receive_state a (m ∷ order) ≡ receive_state b order
  unfolding receive_state
  waited a b m order e = rw e refl

  pub receive_state-reassemble :
      (a : ActiveMigration) (d : TcpMigDefragmenter) (order : List TcpMigSegment)
      (d' : TcpMigDefragmenter) (hdr : TcpMigHeader) (bytes : List ℕ) (s : TcpState) (o : Outcome)
      → AllAt connection_state order
      → a.last_sent_stage ≡ prepare_migration_ack
      → reassemble d order ≡ some (d', some (hdr, bytes), [])
      → take_state ne (record a { defragmenter = d' }) (some (hdr, bytes)) ≡ some o
      → o.result ≡ ok (state_received s)
      → receive_state (record a { defragmenter = d }) order ≡ some o
  unfolding receive_state reassemble
  receive_state-reassemble a d [] d' hdr bytes s o at prepared e taken done =
      absurd (ground (arith, e))
  receive_state-reassemble a d (m ∷ order) d' hdr bytes s o (is, at) prepared e taken done =
      elim (Option-cases (defragment d m.tcpmig_hdr m.payload)) [
        | inl failed ↦ absurd (ground (arith, failed, e))
        | inr ((d1, none), waits) ↦
            waited (record a { defragmenter = d }) (record a { defragmenter = d1 }) m order
              (process_packet-waits (record a { defragmenter = d }) m.tcpmig_hdr m.payload d1
                prepared is waits)
            ∙ receive_state-reassemble a d1 order d' hdr bytes s o at prepared
                (ground (arith, waits, e)) taken done
        | inr ((d1, some message), comes) ↦
            let same = message_of d1 d' message (hdr, bytes) order (ground (arith, comes, e)) in
            reported (record a { defragmenter = d }) m order o s
              (process_packet-comes (record a { defragmenter = d }) m.tcpmig_hdr m.payload d1
                  message prepared is comes
                ∙ ap (λ p. take_state ne (record a { defragmenter = p.0 }) (some p.1)) same
                ∙ taken)
              done
      ]
