-- ===== src/Tcp/Established/Sender/Acknowledged.antt =====
-- What an acknowledgement takes off the retransmission queue.
use capybara.Base.{
  ℕ, zero, suc, false, length-append, ◌+◌, ◌-◌, ◌≤◌, ◌<◌, ◌^◌, ◌≡◌, refl, sym, ◌∙◌, ap, arith, List,
  [], ◌∷◌, ◌++◌, Option, some, none, length, drop, max, ltb, ◌==◌, Bool-cases, inl, inr, adjust_lem,
  drop-append_le, drop-append_ge, drop_all, if◌then◌else◌, length-drop,
}
use capybara.Tcp.SeqNumber
use capybara.Tcp.Established.Block.{Buffer, Sender, UnackedSegment, RtoCalculator}
use capybara.Tcp.Established.Sender.{remove_acknowledged}

-- The sequence numbers that a segment takes: its bytes, or one for the end-of-send marker.
abbrev pub span : UnackedSegment → ℕ
span segment = max 1 (length segment.bytes)

abbrev pub total_span : List UnackedSegment → ℕ
total_span [] = 0
total_span (segment ∷ rest) = span segment + total_span rest

abbrev pub unacked_bytes : List UnackedSegment → Buffer
unacked_bytes [] = []
unacked_bytes (segment ∷ rest) = segment.bytes ++ unacked_bytes rest

-- The end-of-send marker, an empty buffer, can only stand last.
abbrev pub FinIsLast : List UnackedSegment → Type 0
FinIsLast [] = Unit {0}
FinIsLast (segment ∷ []) = Unit {0}
FinIsLast (segment ∷ next ∷ rest) = (1 ≤ length segment.bytes) × FinIsLast (next ∷ rest)

-- The queue holds exactly the sequence numbers from SND.UNA to SND.NXT, at most half the sequence
-- space, with the end-of-send marker last.
pub record IsOutstanding (s : Sender) : Type 0 where
  pub una : s.send_unacked < 2 ^ 32
  pub span : s.send_next ≡ SeqNumber.add s.send_unacked (total_span s.unacked_queue)
  pub small : total_span s.unacked_queue < 2 ^ 31
  pub last : FinIsLast s.unacked_queue

FinIsLast-tail :
    (segment : UnackedSegment) (rest : List UnackedSegment)
    → FinIsLast (segment ∷ rest)
    → FinIsLast rest
FinIsLast-tail segment [] h = tt
FinIsLast-tail segment (next ∷ rest) h = h.1

-- What stands behind an empty buffer.
nothing_after :
    (segment : UnackedSegment) (rest : List UnackedSegment)
    → FinIsLast (segment ∷ rest)
    → length segment.bytes ≡ 0
    → rest ≡ []
nothing_after segment [] h e = refl
nothing_after segment (next ∷ rest) h e = absurd (omega (arith, h.0))

FinIsLast-replace :
    (segment segment' : UnackedSegment) (rest : List UnackedSegment)
    → 1 ≤ length segment'.bytes
    → FinIsLast (segment ∷ rest)
    → FinIsLast (segment' ∷ rest)
FinIsLast-replace s s' [] h fin = tt
FinIsLast-replace s s' (next ∷ rest) h fin = (h, fin.1)

suc_ne : (m : ℕ) → (suc m == 0) ≡ false
suc_ne m = ground arith

len_ne : (n : ℕ) → 1 ≤ n → (n == 0) ≡ false
len_ne n h = ground arith

module _ (rc : RtoCalculator) (now : ℕ) where
  -- What the theorem says of the result, for a queue of `total` and its bytes.
  IsRemoved : ℕ → Buffer → ℕ → Option (List UnackedSegment × rc.Estimate) → Type 0
  IsRemoved total bytes n result =
      (queue' : List UnackedSegment) × (est' : rc.Estimate) × (result ≡ some (queue', est'))
      × (total_span queue' + n ≡ total)
      × (unacked_bytes queue' ≡ drop n bytes)
      × FinIsLast queue'

  sampled : UnackedSegment → rc.Estimate → rc.Estimate
  sampled segment est = elim segment.initial_tx [
    | some t ↦ rc.add_sample est (now - t)
    | none ↦ est
  ]

  remove_whole :
      (segment : UnackedSegment) (rest : List UnackedSegment) (m : ℕ) (est : rc.Estimate)
      → FinIsLast (segment ∷ rest)
      → length segment.bytes ≤ suc m
      → suc m ≤ total_span (segment ∷ rest)
      → ((k : ℕ)
          → k ≤ total_span rest
          → IsRemoved
              (total_span rest)
              (unacked_bytes rest)
              k
              (remove_acknowledged rc now rest k (sampled segment est)))
      → IsRemoved (total_span (segment ∷ rest)) (unacked_bytes (segment ∷ rest)) (suc m) (
          remove_acknowledged rc now rest
            (if length segment.bytes == 0 then 0 else suc m - length segment.bytes)
            (sampled segment est))
  unfolding IsRemoved sampled
  remove_whole segment rest m est fin whole h rec = elim (Bool-cases (length segment.bytes == 0)) [
    | inl e ↦ rw e (
        let zero_len : length segment.bytes ≡ 0 = ground (arith, e) in
        let none_left = nothing_after segment rest fin zero_len in
        let no_span : total_span rest ≡ 0 = ap total_span none_left in
        let no_bytes : unacked_bytes rest ≡ [] = ap unacked_bytes none_left in
        let (queue, est', eq, total, bytes, last) = rec 0 (omega arith) in
        (
          queue,
          est',
          eq,
          ground arith,
          bytes
              ∙ no_bytes
              ∙ sym (
                  drop_all (suc m) (unacked_bytes (segment ∷ rest)) (
                    ground (
                      arith,
                      length-append segment.bytes (unacked_bytes rest),
                      ap length no_bytes,
                    ))),
          last,
        ))
    | inr e ↦ rw e (
        let pos_len : 1 ≤ length segment.bytes = ground (arith, e) in
        let (queue, est', eq, total, bytes, last) =
          rec (suc m - length segment.bytes) (ground arith) in
        (
          queue,
          est',
          eq,
          ground arith,
          bytes ∙ sym (drop-append_ge (suc m) segment.bytes (unacked_bytes rest) whole),
          last,
        ))
  ]

  -- An acknowledgement of `n` sequence numbers that are outstanding ends, takes exactly `n` off the
  -- span of the queue, drops exactly the first `n` bytes (the end-of-send marker has none), and
  -- leaves the marker last.
  pub remove_acknowledged_lem :
      (queue : List UnackedSegment) (n : ℕ) (est : rc.Estimate)
      → FinIsLast queue
      → n ≤ total_span queue
      → (queue' : List UnackedSegment) × (est' : rc.Estimate) × (remove_acknowledged rc now queue n
            est
          ≡ some (queue', est'))
        × (total_span queue' + n ≡ total_span queue)
        × (unacked_bytes queue' ≡ drop n (unacked_bytes queue))
        × FinIsLast queue'
  unfolding remove_acknowledged sampled IsRemoved
  remove_acknowledged_lem [] zero est fin h = ([], est, refl, refl, refl, tt)
  remove_acknowledged_lem [] (suc n) est fin h = absurd (omega arith)
  remove_acknowledged_lem (segment ∷ rest) zero est fin h =
      (segment ∷ rest, est, refl, omega arith, refl, fin)
  remove_acknowledged_lem (segment ∷ rest) (suc m) est fin h =
      rw (suc_ne m) (elim (Bool-cases (ltb (suc m) (length segment.bytes))) [
        | inl part ↦
            let short : suc m < length segment.bytes = ground (arith, part) in
            let cut = record segment { bytes = drop (suc m) segment.bytes; initial_tx = none } in
            rw (part, adjust_lem (suc m) segment.bytes (ground (arith, part)))
              (
                cut ∷ rest,
                sampled segment est,
                refl,
                ground (arith, length-drop (suc m) segment.bytes),
                sym (drop-append_le (suc m) segment.bytes (unacked_bytes rest) (ground arith)),
                FinIsLast-replace segment cut rest
                    (ground (arith, length-drop (suc m) segment.bytes)) fin,
              )
        | inr whole ↦ rw whole (
            remove_whole segment rest m est fin (ground (arith, whole)) h (λ k. λ hk.
              remove_acknowledged_lem rest k (sampled segment est) (FinIsLast-tail segment rest fin)
                hk))
      ])
