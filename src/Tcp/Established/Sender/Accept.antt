-- ===== src/Tcp/Established/Sender/Accept.antt =====
-- What `send` does with a buffer of the application.
use capybara.Base.{
  ℕ, ◌+◌, ◌≤◌, ◌<◌, ◌^◌, ◌≡◌, refl, sym, ◌∙◌, ap, arith, Bool, true, false, List, [], ◌∷◌, ◌++◌,
  Option, some, none, length, ltb, leb, ◌&&◌, ◌⊎◌, inl, inr, if◌then◌else◌, append-nil,
  append_assoc, add32, sub32, u32, u32_mod, Result,
}
use capybara.Base.Fallible.{ok}
use capybara.Tcp.SeqNumber
use capybara.Tcp.Established.Block.{Buffer, Sender, CongestionControl, RtoCalculator, ControlBlock}
use capybara.Tcp.Established.Output.{hdr_window_size, get_receive_window_size}
use capybara.Tcp.Established.Sender.{send, send_now, try_send, queue_unsent, unsent_queue_cutoff}
use capybara.Tcp.Established.Sender.Acknowledged.{total_span, unacked_bytes, IsOutstanding}
use capybara.Tcp.Established.Sender.Laws.{AllText, transmit_new-IsOutstanding}
use capybara.Tcp.Established.Sender.Unsent.{unsent_bytes}
use capybara.Wire.{MacAddress}

unsent_bytes-append :
    (queue : List Buffer) (buf : Buffer)
    → unsent_bytes (queue ++ (buf ∷ [])) ≡ unsent_bytes queue ++ buf
unsent_bytes-append [] buf = append-nil buf
unsent_bytes-append (b ∷ queue) buf =
    ap (◌++◌ b) (unsent_bytes-append queue buf) ∙ sym (append_assoc b (unsent_bytes queue) buf)

-- The bytes that the application has handed over and the peer has not acknowledged, in order: those
-- that are outstanding, then those that wait.
abbrev pub pending : Sender → Buffer
pending s = unacked_bytes s.unacked_queue ++ unsent_bytes s.unsent_queue

-- A buffer that goes out when nothing waits comes behind the pending bytes.
order :
    (before after buf : Buffer) (waits waits' : List Buffer)
    → after ≡ before ++ buf
    → waits' ≡ []
    → waits ≡ []
    → after ++ unsent_bytes waits' ≡ (before ++ unsent_bytes waits) ++ buf
order before after buf waits waits' bytes none_left none_before =
    rw (bytes, none_left, none_before, append-nil before) (append-nil (before ++ buf))

-- The test of the fast path bounds what is then outstanding.
in_flight :
    (s : Sender) (len : ℕ) (rest : Bool)
    → IsOutstanding s
    → total_span s.unacked_queue + len < 2 ^ 31
    → ltb 0 s.send_window
        && leb (add32 (SeqNumber.sub s.send_next s.send_unacked) len) s.send_window
        && rest
      ≡ true
    → total_span s.unacked_queue + len ≤ s.send_window
unfolding SeqNumber.sub SeqNumber.add
in_flight s len rest outstanding small e =
    let sent : sub32 s.send_next s.send_unacked ≡ total_span s.unacked_queue =
      omega (arith, outstanding.span, outstanding.una, outstanding.small) in
    ground (arith, e, sent, small)

module _ {cc : CongestionControl} {rc : RtoCalculator} where
  -- The buffer is taken, behind the pending bytes; the queue holds what is outstanding; and what is
  -- outstanding is what it was, or fits the window of the peer.
  pub IsAccepted :
      ControlBlock cc rc → Buffer → Option (Result (Unit {0}) × ControlBlock cc rc) → Type 0
  IsAccepted cb buf result =
      (cb' : ControlBlock cc rc) × (result ≡ some (ok tt, cb'))
      × IsOutstanding cb'.sender
      × (pending cb'.sender ≡ pending cb.sender ++ buf)
      × ((total_span cb'.sender.unacked_queue ≡ total_span cb.sender.unacked_queue)
          ⊎ (total_span cb'.sender.unacked_queue ≤ cb.sender.send_window))

  queue_unsent-IsAccepted :
      (cb : ControlBlock cc rc) (buf : Buffer)
      → IsOutstanding cb.sender
      → length cb.sender.unsent_queue ≤ unsent_queue_cutoff
      → IsAccepted cb buf (queue_unsent cb buf)
  unfolding queue_unsent IsAccepted
  queue_unsent-IsAccepted cb buf outstanding room =
      let s = cb.sender in
      let room' : ltb unsent_queue_cutoff (length s.unsent_queue) ≡ false = ground (arith, room) in
      let queued : ControlBlock cc rc = record cb {
        sender = record s {
          unsent_queue = s.unsent_queue ++ (buf ∷ []);
          unsent_seq_no = SeqNumber.add s.unsent_seq_no (u32 (length buf));
        };
      } in
      let kept : IsOutstanding queued.sender = record {
        una = outstanding.una;
        span = outstanding.span;
        small = outstanding.small;
        last = outstanding.last;
      } in
      rw room' (
        queued,
        refl,
        kept,
        ap (◌++◌ (unacked_bytes s.unacked_queue)) (unsent_bytes-append s.unsent_queue buf)
            ∙ sym (append_assoc (unacked_bytes s.unacked_queue) (unsent_bytes s.unsent_queue) buf),
        inl refl,
      )

  either_branch :
      (cb : ControlBlock cc rc) (buf : Buffer) (b : Bool)
      (x y : Option (Result (Unit {0}) × ControlBlock cc rc))
      → (b ≡ true → IsAccepted cb buf x)
      → (b ≡ false → IsAccepted cb buf y)
      → IsAccepted cb buf (if b then x else y)
  either_branch cb buf true x y h k = h refl
  either_branch cb buf false x y h k = k refl

  either_queue :
      (cb : ControlBlock cc rc) (buf : Buffer) (queue : List Buffer)
      (x y : Option (Result (Unit {0}) × ControlBlock cc rc))
      → (queue ≡ [] → IsAccepted cb buf x)
      → IsAccepted cb buf y
      → IsAccepted cb buf (elim queue as (λ q. Option (Result (Unit {0}) × ControlBlock cc rc)) [
        | [] ↦ x
        | _ ∷ _ ↦ y
      ])
  either_queue cb buf [] x y h k = h refl
  either_queue cb buf (_ ∷ _) x y h k = k

  either_link :
      (cb : ControlBlock cc rc) (buf : Buffer) (link : Option MacAddress)
      (x : MacAddress → Option (Result (Unit {0}) × ControlBlock cc rc))
      (y : Option (Result (Unit {0}) × ControlBlock cc rc))
      → ((addr : MacAddress) → IsAccepted cb buf (x addr))
      → IsAccepted cb buf y
      → IsAccepted cb buf (elim link as (λ l. Option (Result (Unit {0}) × ControlBlock cc rc)) [
        | some addr ↦ x addr
        | none ↦ y
      ])
  either_link cb buf (some addr) x y h k = h addr
  either_link cb buf none x y h k = k

  same_window :
      (cb : ControlBlock cc rc)
      → hdr_window_size (record cb { control = cc.on_cwnd_check_before_send cb.control })
        ≡ hdr_window_size cb
  unfolding hdr_window_size get_receive_window_size
  same_window cb = refl

  -- A buffer that goes out now.
  send_now-IsAccepted :
      (cb : ControlBlock cc rc) (sent_data : ℕ) (buf : Buffer) (window : ℕ) (addr : MacAddress)
      → IsOutstanding cb.sender
      → AllText cb.sender.unacked_queue
      → 1 ≤ length buf
      → total_span cb.sender.unacked_queue + length buf < 2 ^ 31
      → cb.sender.unsent_queue ≡ []
      → total_span cb.sender.unacked_queue + length buf ≤ cb.sender.send_window
      → hdr_window_size cb ≡ some window
      → IsAccepted cb buf (send_now cb sent_data buf addr)
  unfolding send_now IsAccepted
  send_now-IsAccepted cb sent_data buf window addr outstanding text some_buf small empty inside
        fits =
      let (out, deadline, eq, kept, next, bytes, timer, total, unsent, una) =
        transmit_new-IsOutstanding cb sent_data window true buf addr outstanding text
          (omega (arith, small, some_buf)) fits in
      rw eq (
        _,
        refl,
        record { una = kept.una; span = kept.span; small = kept.small; last = kept.last },
        order (unacked_bytes cb.sender.unacked_queue) (unacked_bytes out.sender.unacked_queue) buf
            cb.sender.unsent_queue out.sender.unsent_queue bytes (unsent ∙ empty) empty,
        inr (omega (arith, total, inside, some_buf)),
      )

  try_send-IsAccepted :
      (cb : ControlBlock cc rc) (buf : Buffer) (window : ℕ)
      → IsOutstanding cb.sender
      → AllText cb.sender.unacked_queue
      → 1 ≤ length buf
      → total_span cb.sender.unacked_queue + length buf < 2 ^ 31
      → cb.sender.unsent_queue ≡ []
      → hdr_window_size cb ≡ some window
      → IsAccepted cb buf (try_send cb buf)
  unfolding try_send IsAccepted
  try_send-IsAccepted cb buf window outstanding text some_buf small empty fits =
      let s = cb.sender in
      let checked : ControlBlock cc rc = record cb {
        control = cc.on_cwnd_check_before_send cb.control;
      } in
      let sent_data = SeqNumber.sub s.send_next s.send_unacked in
      let room : length s.unsent_queue ≤ unsent_queue_cutoff = omega (arith, ap length empty) in
      let queued = queue_unsent-IsAccepted checked buf outstanding room in
      either_branch checked buf
        (ltb 0 s.send_window
          && leb (add32 sent_data (length buf)) s.send_window
          && leb (add32 sent_data (length buf)) (
              add32 (cc.get_cwnd checked.control)
                (cc.get_limited_transmit_cwnd_increase checked.control)))
        _ _
        (λ e.
          either_link checked buf cb.link _ _
            (λ addr.
              send_now-IsAccepted checked sent_data buf window addr outstanding text some_buf small
                empty (in_flight s (length buf) _ outstanding small e) (same_window cb ∙ fits))
            queued)
        (λ e. queued)

  -- On an open connection whose receive window fits the header, with no end-of-send marker
  -- outstanding and not too much waiting, `send` takes every buffer that is not empty and leaves
  -- less than half the sequence space outstanding, without a panic: its bytes come behind all
  -- pending ones, and what is outstanding is what it was or fits the window of the peer.
  pub send-IsAccepted :
      (cb : ControlBlock cc rc) (buf : Buffer) (window : ℕ)
      → cb.user_is_done_sending ≡ false
      → IsOutstanding cb.sender
      → AllText cb.sender.unacked_queue
      → 1 ≤ length buf
      → total_span cb.sender.unacked_queue + length buf < 2 ^ 31
      → length cb.sender.unsent_queue ≤ unsent_queue_cutoff
      → hdr_window_size cb ≡ some window
      → IsAccepted cb buf (send cb buf)
  unfolding send
  send-IsAccepted cb buf window is_open outstanding text some_buf small room fits =
      let low : leb u32_mod (length buf) ≡ false = ground (arith, small) in
      either_branch cb buf cb.user_is_done_sending _ _ (λ e. absurd (ground (arith, e, is_open)))
        (λ e.
          either_branch cb buf (leb u32_mod (length buf)) _ _
            (λ e'. absurd (ground (arith, e', low)))
            (λ e'.
              either_queue cb buf cb.sender.unsent_queue _ _
                (λ empty.
                  try_send-IsAccepted cb buf window outstanding text some_buf small empty fits)
                (queue_unsent-IsAccepted cb buf outstanding room)))
