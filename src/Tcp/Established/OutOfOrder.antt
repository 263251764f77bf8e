-- ===== src/Tcp/Established/OutOfOrder.antt =====
-- The out-of-order store and in-order delivery: `store_out_of_order_segment`, `receive_data` and
-- `Receiver::push`, `Receiver::pop` of tcp/established/ctrlblk.rs.
pub mod Stream
mod Scan
pub mod Store
pub mod Deliver
pub mod Overlap
mod Tests
use capybara.Base.{
  ℕ, zero, suc, ◌+◌, Bool, true, false, List, [], ◌∷◌, ◌++◌, Option, some, none, length, take,
  add32, sub32, u32, ◌==◌, if◌then◌else◌, adjust, trim,
}
use capybara.Base.Panic.{◌>>=◌}
use capybara.Tcp.SeqNumber
use capybara.Tcp.Established.Block.{
  Buffer, Receiver, CongestionControl, RtoCalculator, ControlBlock,
}

abbrev pub Stored : Type 0
Stored = List (ℕ × Buffer)

abbrev pub max_out_of_order : ℕ
max_out_of_order = 2048

-- What the comparison with one stored segment leads to: the places where the loop body of
-- `store_out_of_order_segment` breaks, returns or continues.
pub data Verdict : Type 0 where
  before : Verdict
  encompasses : Verdict
  front_overlap : ℕ → Buffer → Verdict
  duplicate : Verdict
  after : ℕ → Buffer → Verdict

-- The body of the `for` loop, at the stored segment `(stored_start, stored)`.
unfoldable pub compare_stored : ℕ → ℕ → Buffer → ℕ → Buffer → Option Verdict
compare_stored new_start new_end buf stored_start stored =
    let stored_end = SeqNumber.add stored_start (sub32 (u32 (length stored)) 1) in
    let excess = add32 (SeqNumber.sub new_end stored_start) 1 in
    let overlap = SeqNumber.sub stored_end new_start in
    if SeqNumber.lt new_start stored_start
    then (if SeqNumber.lt new_end stored_start
        then some before
        else if SeqNumber.lt stored_end new_end
        then some encompasses
        else do buf' ← trim excess buf; some (front_overlap (SeqNumber.sub new_end excess) buf'))
    else if SeqNumber.le new_end stored_end
    then some duplicate
    else if SeqNumber.lt stored_end new_start
    then some (after new_start buf)
    else do buf' ← adjust overlap buf; some (after (SeqNumber.add new_start overlap) buf')

-- How one pass of the loop over the store ends: insert at an index, drop the new segment, or
-- remove the stored segment at an index and make another pass.
pub data Pass : Type 0 where
  insert_at : ℕ → ℕ → Buffer → Pass
  drop_new : Pass
  remove_at : ℕ → ℕ → ℕ → Buffer → Pass

-- The `for` loop from `index` on; `len` is the length of the whole store, the action index that a
-- pass starts with, and that it keeps when the front of a stored segment overlaps.
pub scan : ℕ → ℕ → Stored → ℕ → ℕ → Buffer → Option Pass
scan len index [] new_start new_end buf = some (insert_at len new_start buf)
scan len index ((stored_start, stored) ∷ rest) new_start new_end buf = do
  verdict ← compare_stored new_start new_end buf stored_start stored
  elim verdict [
    | before ↦ some (insert_at index new_start buf)
    | encompasses ↦ some (remove_at index new_start new_end buf)
    | front_overlap end' buf' ↦ some (insert_at len new_start buf')
    | duplicate ↦ some drop_new
    | after start' buf' ↦ scan len (index + 1) rest start' new_end buf'
  ]

-- `VecDeque::insert` and `VecDeque::remove`.
pub insert_nth : ℕ → ℕ × Buffer → Stored → Stored
insert_nth zero x xs = x ∷ xs
insert_nth (suc i) x [] = x ∷ []
insert_nth (suc i) x (y ∷ ys) = y ∷ insert_nth i x ys

pub remove_nth : ℕ → Stored → Stored
remove_nth i [] = []
remove_nth zero (y ∷ ys) = ys
remove_nth (suc i) (y ∷ ys) = y ∷ remove_nth i ys

-- What follows a pass: the insertion, the early return, or `again` with a segment removed.
pub after_pass : Stored → (Stored → ℕ → ℕ → Buffer → Option Stored) → Pass → Option Stored
after_pass stored again (insert_at index new_start buf) =
    some (take max_out_of_order (insert_nth index (new_start, buf) stored))
after_pass stored again drop_new = some stored
after_pass stored again (remove_at index new_start new_end buf) =
    again (remove_nth index stored) new_start new_end buf

-- The `while another_pass_neeeded` loop, and the insertion. Fuel bounds the passes: each further
-- pass has removed a stored segment.
pub store_passes : ℕ → Stored → ℕ → ℕ → Buffer → Option Stored
unfolding after_pass
store_passes zero stored new_start new_end buf = none
store_passes (suc fuel) stored new_start new_end buf = do
  pass ← scan (length stored) 0 stored new_start new_end buf
  after_pass stored (store_passes fuel) pass

-- `store_out_of_order_segment` on the store.
unfoldable pub store_segment : Stored → ℕ → ℕ → Buffer → Option Stored
unfolding store_passes scan insert_nth remove_nth compare_stored
store_segment stored new_start new_end buf =
    store_passes (suc (length stored)) stored new_start new_end buf

-- `Receiver::push`.
unfoldable pub push : Receiver → Buffer → Receiver
push r buf = record r {
  receive_next = SeqNumber.add r.receive_next (u32 (length buf));
  recv_queue = r.recv_queue ++ (buf ∷ []);
}

-- `Receiver::pop`.
unfoldable pub pop : Receiver → Option (Buffer × Receiver)
unfolding SeqNumber.add
pop r = elim r.recv_queue [
  | [] ↦ none
  | buf ∷ rest ↦ some (
    buf,
    record r { reader_next = SeqNumber.add r.reader_next (u32 (length buf)); recv_queue = rest },
  )
]

-- The loop of `receive_data` that moves stored segments which have come into order: the store, the
-- next sequence number, the receiver, and whether anything was moved.
pub drain : Stored → ℕ → Receiver → Bool → Stored × ℕ × Receiver × Bool
drain [] recv_next r added = ([], recv_next, r, added)
drain ((start, buf) ∷ rest) recv_next r added =
    let moved = drain rest (SeqNumber.add recv_next (u32 (length buf))) (push r buf) true in
    if start == recv_next then moved else ((start, buf) ∷ rest, recv_next, r, added)

module _ {cc : CongestionControl} {rc : RtoCalculator} where
  -- `store_out_of_order_segment` and `store_out_of_order_fin`.
  unfoldable pub store_out_of_order_segment :
      ControlBlock cc rc → ℕ → ℕ → Buffer → Option (ControlBlock cc rc)
  store_out_of_order_segment cb new_start new_end buf = do
    stored ← store_segment cb.out_of_order new_start new_end buf
    some (record cb { out_of_order = stored })

  unfoldable pub store_out_of_order_fin : ControlBlock cc rc → ℕ → ControlBlock cc rc
  store_out_of_order_fin cb fin = record cb { out_of_order_fin = some fin }

  -- `receive_data`: the new state, and whether a stored FIN has now come into order.
  unfoldable pub receive_data : ControlBlock cc rc → Buffer → ControlBlock cc rc × Bool
  receive_data cb buf =
      let recv_next = SeqNumber.add cb.receiver.receive_next (u32 (length buf)) in
      let (stored, recv_next', receiver, added) =
        drain cb.out_of_order recv_next (push cb.receiver buf) false in
      let cb' : ControlBlock cc rc = record cb {
        out_of_order = stored;
        receiver = receiver;
        woken = if cb.waiting then cb.woken + 1 else cb.woken;
        waiting = false;
      } in
      let fin_next = elim cb.out_of_order_fin as (λ x. Bool) [
        | some fin ↦ fin == recv_next'
        | none ↦ false
      ] in
      (cb', if added then fin_next else false)

  -- `poll_recv`: `none` is `Poll::Pending`, which stores the waker.
  unfoldable pub poll_recv : ControlBlock cc rc → Option Buffer × ControlBlock cc rc
  unfolding pop
  poll_recv cb = elim (pop cb.receiver) [
    | none ↦ (none, record cb { waiting = true })
    | some (buf, r) ↦ (some buf, record cb { receiver = r })
  ]
