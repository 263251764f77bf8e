-- ===== src/Tcp/Established/OutOfOrder/Tests.antt =====
-- The laws of the out-of-order store at concrete segments of a stream whose byte at offset `n` is
-- `n`, with a base sequence number that is about to wrap around.
use capybara.Base.{
  ◌⊎◌, inr, length, take, ℕ, ◌+◌, ◌-◌, ◌≡◌, ◌≤◌, refl, arith, [], ◌∷◌, ◌++◌, some, true, false,
  drop,
}
use capybara.Tcp.SeqNumber
use capybara.Tcp.Established.Block.{Buffer, ControlBlock}
use capybara.Tcp.Established.Example.{no_congestion_control, fixed_rto, connection, receiver}
use capybara.Tcp.Established.OutOfOrder.{Stored, store_segment, drain, push, receive_data}
use capybara.Tcp.Established.OutOfOrder.Deliver.{contents, FrontIsNot, receive_data-Delivered}
use capybara.Tcp.Established.OutOfOrder.Overlap.{AreNear, tail_overlap_stuck, front_overlap_stuck}
use capybara.Tcp.Established.OutOfOrder.Store.{Covers, store_segment-AllCarry}
use capybara.Tcp.Established.OutOfOrder.Stream.{bytes_at, CarriesAt, AllCarry}

abbrev stream : ℕ → ℕ
stream n = n

abbrev base : ℕ
base = 0xffff_fff0

-- Offsets 20 to 22 are stored, and 24 to 25 arrive.
abbrev waiting : Stored
waiting = (SeqNumber.add base 20, 20 ∷ 21 ∷ 22 ∷ []) ∷ []

abbrev later : Buffer
later = 24 ∷ 25 ∷ []

later-CarriesAt : CarriesAt stream 10 24 later
later-CarriesAt = record {
  bytes_right = refl;
  nonempty = omega arith;
  not_old = omega arith;
  not_far = omega arith;
}

stored-CarriesAt : CarriesAt stream 10 20 (20 ∷ 21 ∷ 22 ∷ [])
stored-CarriesAt = record {
  bytes_right = refl;
  nonempty = omega arith;
  not_old = omega arith;
  not_far = omega arith;
}

waiting-AllCarry : AllCarry stream base 10 waiting
waiting-AllCarry = (record { offset = 20; seq_at = refl; carried = stored-CarriesAt }, tt)

store_segment-AllCarry_example :
    (out : Stored) × (store_segment waiting
        (SeqNumber.add base 24)
        (SeqNumber.add base (24 + 2 - 1))
        later
      ≡ some out)
    × (all' : AllCarry stream base 10 out) × (Covers stream base 10 out all' 24
        ⊎ (2048 ≤ length waiting))
store_segment-AllCarry_example =
    store_segment-AllCarry stream base 10 waiting 24 24 later later-CarriesAt waiting-AllCarry
      (inr (omega arith, omega arith))

-- The connection waits for offset 10, with 20 to 22 stored.
abbrev behind : ControlBlock no_congestion_control fixed_rto
behind =
    let cb = connection in
    let r = receiver in
    record cb {
      receiver = record r { reader_next = 0xffff_fff0; receive_next = SeqNumber.add base 10 };
      out_of_order = waiting;
    }

receive_data-Delivered_example :
    let (cb', fin) = receive_data behind (10 ∷ 11 ∷ []) in
    (k : ℕ) × (2 ≤ k)
    × (cb'.receiver.receive_next ≡ SeqNumber.add base (10 + k))
    × (cb'.receiver.reader_next ≡ 0xffff_fff0)
    × (contents cb'.receiver.recv_queue ≡ contents [] ++ bytes_at stream 10 k)
    × AllCarry stream base 10 cb'.out_of_order
    × FrontIsNot cb'.receiver.receive_next cb'.out_of_order
receive_data-Delivered_example =
    receive_data-Delivered stream base 10 behind (10 ∷ 11 ∷ []) refl refl (omega arith)
      waiting-AllCarry

abbrev three : Buffer
three = 1 ∷ 2 ∷ 3 ∷ []

near_5_7 : AreNear 5 7 three three
near_5_7 = record {
  stored_nonempty = omega arith;
  buf_nonempty = omega arith;
  stored_fits = omega arith;
  buf_fits = omega arith;
}

tail_overlap_stuck_example :
    (out : Stored) × (store_segment
        ((SeqNumber.add base 5, three) ∷ [])
        (SeqNumber.add base 7)
        (SeqNumber.add base (7 + 3 - 1))
        three
      ≡ some out)
    × (drain out (SeqNumber.add base 5) receiver false ≡ (
      (SeqNumber.add base (5 + 3 - 1), drop (5 + 3 - 1 - 7) three) ∷ [],
      SeqNumber.add base (5 + 3),
      push receiver three,
      true,
    ))
tail_overlap_stuck_example =
    tail_overlap_stuck base 5 7 three three near_5_7 receiver (omega arith) (omega arith)
      (omega arith)

near_7_5 : AreNear 7 5 three three
near_7_5 = record {
  stored_nonempty = omega arith;
  buf_nonempty = omega arith;
  stored_fits = omega arith;
  buf_fits = omega arith;
}

front_overlap_stuck_example :
    let waiting = SeqNumber.add base 5 in
    let out : Stored = (SeqNumber.add base 7, three) ∷ (waiting, take (7 - 5) three) ∷ [] in
    (store_segment
        ((SeqNumber.add base 7, three) ∷ [])
        waiting
        (SeqNumber.add base (5 + 3 - 1))
        three
      ≡ some out)
    × (1 ≤ length (take (7 - 5) three))
    × (drain out waiting receiver false ≡ (out, waiting, receiver, false))
front_overlap_stuck_example =
    front_overlap_stuck base 7 5 three three near_7_5 receiver (omega arith) (omega arith)
      (omega arith)
