-- ===== src/Tcp/Established/OutOfOrder/Deliver.antt =====
-- In-order delivery: `receive_data` hands the application the peer's stream.
use capybara.Base.{
  ℕ, ◌+◌, ◌^◌, ◌≤◌, ◌<◌, ◌≡◌, ◌≢◌, refl, sym, ◌∙◌, ap, arith, List, [], ◌∷◌, ◌++◌, Bool, true,
  false, length, u32, ◌==◌, Bool-cases, inl, inr, append-nil, append_assoc, ==_iff,
}
use capybara.Tcp.SeqNumber
use mathlib.Core.Path.{subst}
use capybara.Tcp.Established.Block.{
  Buffer, Receiver, CongestionControl, RtoCalculator, ControlBlock,
}
use capybara.Tcp.Established.OutOfOrder.{Stored, push, drain, receive_data}
use capybara.Tcp.Established.OutOfOrder.Stream.{bytes_at, AllCarry, bytes_at-append}

-- The unread bytes of a receive queue.
abbrev pub contents : List Buffer → Buffer
contents [] = []
contents (buf ∷ rest) = buf ++ contents rest

pub contents-append :
    (q : List Buffer) (buf : Buffer) → contents (q ++ (buf ∷ [])) ≡ contents q ++ buf
contents-append [] buf = append-nil buf
contents-append (b ∷ q) buf =
    ap (◌++◌ b) (contents-append q buf) ∙ sym (append_assoc b (contents q) buf)

-- The front of the store is not the next segment.
abbrev pub FrontIsNot : ℕ → Stored → Type 0
FrontIsNot seq [] = Unit {0}
FrontIsNot seq ((start, buf) ∷ rest) = start ≢ seq

add_same :
    (base o m : ℕ)
    → o < m + 2 ^ 32
    → m < o + 2 ^ 32
    → SeqNumber.add base o ≡ SeqNumber.add base m
    → o ≡ m
unfolding SeqNumber.add
add_same base o m h k e = omega arith

pub add-u32 :
    (base m n : ℕ)
    → n < 2 ^ 32
    → SeqNumber.add (SeqNumber.add base m) (u32 n) ≡ SeqNumber.add base (m + n)
unfolding SeqNumber.add
add-u32 base m n h = omega arith

module _ (f : ℕ → ℕ) (base next : ℕ) where
  -- The receiver has gone from `r` at offset `m` to `r'`, `k` bytes of the stream further.
  pub record Delivered (m : ℕ) (r : Receiver) (k recv_next : ℕ) (r' : Receiver) (left : Stored)
      : Type 0 where
    pub next_seq : recv_next ≡ SeqNumber.add base (m + k)
    pub receive_next_seq : r'.receive_next ≡ SeqNumber.add base (m + k)
    pub reader_kept : r'.reader_next ≡ r.reader_next
    pub queue : contents r'.recv_queue ≡ contents r.recv_queue ++ bytes_at f m k
    pub in_window : m + k ≤ next + 2 ^ 30
    pub left_carry : AllCarry f base next left
    pub left_front : FrontIsNot recv_next left

  push-next :
      (r : Receiver) (b : Buffer) (m : ℕ)
      → r.receive_next ≡ SeqNumber.add base m
      → length b < 2 ^ 32
      → (push r b).receive_next ≡ SeqNumber.add base (m + length b)
  unfolding push
  push-next r b m e h = rw e (add-u32 base m (length b) h)

  nothing :
      (m : ℕ) (r : Receiver) (left : Stored)
      → m ≤ next + 2 ^ 30
      → AllCarry f base next left
      → FrontIsNot (SeqNumber.add base m) left
      → r.receive_next ≡ SeqNumber.add base m
      → Delivered m r 0 (SeqNumber.add base m) r left
  nothing m r left hi all front e =
      let zero_more : SeqNumber.add base m ≡ SeqNumber.add base (m + 0) =
        ap (SeqNumber.add base) (omega arith) in
      record {
        next_seq = zero_more;
        receive_next_seq = e ∙ zero_more;
        reader_kept = refl;
        queue = sym (append-nil (contents r.recv_queue));
        in_window = omega arith;
        left_carry = all;
        left_front = front;
      }

  -- A buffer pushed at offset `m`, and `k` bytes after it.
  then_more :
      (m k rn : ℕ) (r r' : Receiver) (b : Buffer) (left : Stored)
      → b ≡ bytes_at f m (length b)
      → Delivered (m + length b) (push r b) k rn r' left
      → Delivered m r (length b + k) rn r' left
  unfolding push
  then_more m k rn r r' b left right d =
      let further : SeqNumber.add base (m + length b + k)
          ≡ SeqNumber.add base (m + (length b + k)) =
        ap (SeqNumber.add base) (omega arith) in
      record {
        next_seq = d.next_seq ∙ further;
        receive_next_seq = d.receive_next_seq ∙ further;
        reader_kept = d.reader_kept;
        queue =
            d.queue
            ∙ ap (λ x. x ++ bytes_at f (m + length b) k) (contents-append r.recv_queue b)
            ∙ append_assoc (contents r.recv_queue) b (bytes_at f (m + length b) k)
            ∙ ap (λ x. contents r.recv_queue ++ (x ++ bytes_at f (m + length b) k)) right
            ∙ ap (◌++◌ (contents r.recv_queue)) (bytes_at-append f m (length b) k);
        in_window = omega (arith, d.in_window);
        left_carry = d.left_carry;
        left_front = d.left_front;
      }

  drain-Delivered :
      (stored : Stored) (m : ℕ) (r : Receiver) (added : Bool)
      → next ≤ m
      → m ≤ next + 2 ^ 30
      → AllCarry f base next stored
      → r.receive_next ≡ SeqNumber.add base m
      → (let (left, rn, r', moved) = drain stored (SeqNumber.add base m) r added in
          (k : ℕ) × Delivered m r k rn r' left)
  unfolding drain
  drain-Delivered [] m r added lo hi all e = (0, nothing m r [] hi tt tt e)
  drain-Delivered ((s, b) ∷ rest) m r added lo hi all e =
      let o = all.0.offset in
      let c = all.0.carried in
      elim (Bool-cases (s == SeqNumber.add base m)) [
        | inl here ↦
            let same : o ≡ m =
              add_same base o m (omega (arith, c)) (omega (arith, c))
                (sym all.0.seq_at ∙ (==_iff s (SeqNumber.add base m)).0 here) in
            let right : b ≡ bytes_at f m (length b) =
              subst (λ q. b ≡ bytes_at f q (length b)) same c.bytes_right in
            let seq = add-u32 base m (length b) (omega (arith, c)) in
            let ih =
              drain-Delivered rest (m + length b) (push r b) true (omega arith)
                (omega (arith, c, same)) all.1 (push-next r b m e (omega (arith, c))) in
            rw (here, seq) (length b + ih.0, then_more m ih.0 _ r _ b _ right ih.1)
        | inr there ↦
            let front : s ≢ SeqNumber.add base m = λ eq. ground (arith, there, eq) in
            rw there (0, nothing m r ((s, b) ∷ rest) hi all front e)
      ]

module _ {cc : CongestionControl} {rc : RtoCalculator} (f : ℕ → ℕ) (base next : ℕ) where
  -- With RCV.NXT at offset `next` of the peer's stream and a store that carries the stream,
  -- `receive_data` on the stream's next bytes appends to the receive queue exactly the next `k`
  -- bytes of the stream, at least those of the buffer, advances RCV.NXT by `k`, leaves the read
  -- position alone, keeps only stored segments that carry the stream, and does not stop while the
  -- front of the store is the next segment.
  pub receive_data-Delivered :
      (cb : ControlBlock cc rc) (buf : Buffer)
      → cb.receiver.receive_next ≡ SeqNumber.add base next
      → buf ≡ bytes_at f next (length buf)
      → length buf ≤ 2 ^ 30
      → AllCarry f base next cb.out_of_order
      → (let (cb', fin) = receive_data cb buf in
          (k : ℕ) × (length buf ≤ k)
          × (cb'.receiver.receive_next ≡ SeqNumber.add base (next + k))
          × (cb'.receiver.reader_next ≡ cb.receiver.reader_next)
          × (contents cb'.receiver.recv_queue
              ≡ contents cb.receiver.recv_queue ++ bytes_at f next k)
          × AllCarry f base next cb'.out_of_order
          × FrontIsNot cb'.receiver.receive_next cb'.out_of_order)
  unfolding receive_data
  receive_data-Delivered cb buf e right fits all =
      let l = length buf in
      let seq : SeqNumber.add cb.receiver.receive_next (u32 l) ≡ SeqNumber.add base (next + l) =
        ap (λ s. SeqNumber.add s (u32 l)) e ∙ add-u32 base next l (omega arith) in
      let (left, rn, r', moved) =
        drain cb.out_of_order (SeqNumber.add base (next + l)) (push cb.receiver buf) false in
      let (k, d) =
        drain-Delivered f base next cb.out_of_order (next + l) (push cb.receiver buf) false
          (omega arith) (omega arith) all
          (push-next f base next cb.receiver buf next e (omega arith)) in
      let d' = then_more f base next next k rn cb.receiver r' buf left right d in
      rw seq (
        l + k,
        omega arith,
        d'.receive_next_seq,
        d'.reader_kept,
        d'.queue,
        d'.left_carry,
        subst (λ q. FrontIsNot q left) (d'.next_seq ∙ sym d'.receive_next_seq) d'.left_front,
      )
