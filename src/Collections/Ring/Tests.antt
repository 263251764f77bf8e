-- ===== src/Collections/Ring/Tests.antt =====
-- A circular buffer of four elements.
use capybara.Base.{
  ℕ, zero, suc, ◌^◌, ◌≤◌, ◌<◌, ◌≡◌, ◌⊎◌, inl, inr, refl, sym, ap, ◌∙◌, arith, List, [], ◌∷◌, ◌++◌,
  length, Bool, true, false, ◌||◌, ◌==◌, ==_iff, Bool-cases, none, some, ◌≢◌,
}
use native.Mathlib.Nat.{pow-suc}
use capybara.Base.Fallible.{ok}
use capybara.Collections.Ring.{RingBuffer, PowerTest, new, capacity, step, try_enqueue, try_dequeue}
use capybara.Collections.Ring.Contents.{advance}
use capybara.Collections.Ring.Refine.{Represents, try_enqueue-Represents, try_dequeue-Represents}
use capybara.Collections.Ring.Threads.{
  Threads, Reader, has_written, Reach, here, next, started, begin_write, write, commit_write,
  begin_read, read, commit_read,
}
use capybara.Collections.Ring.Threads.States.{WriterInBounds, ReaderInBounds}
use capybara.Collections.Ring.Threads.Fifo.{Reach-fifo}

-- Two items, the second of which has wrapped around.
abbrev ring : RingBuffer ℕ
ring = record { back = 1; front = 3; buffer = 8 ∷ 0 ∷ 0 ∷ 7 ∷ []; mask = 3 }

abbrev two : List ℕ
two = 7 ∷ 8 ∷ []

ring-Represents : Represents 2 ring (7 ∷ 8 ∷ [])
unfolding advance
ring-Represents = record {
  masked = refl;
  sized = refl;
  front_in = omega arith;
  back_at = refl;
  few = omega arith;
  holds = (refl, (refl, tt));
}

try_enqueue-Represents_example :
    ((2 ≡ capacity ring) × (try_enqueue 9 ring ≡ some (false, ring)))
    ⊎ ((2 < capacity ring)
        × ((r' : RingBuffer ℕ) × (try_enqueue 9 ring ≡ some (true, r'))
            × Represents 2 r' (7 ∷ 8 ∷ 9 ∷ [])))
try_enqueue-Represents_example = try_enqueue-Represents 2 ring (7 ∷ 8 ∷ []) 9 ring-Represents

try_dequeue-Represents_example :
    ((two ≡ []) × (try_dequeue ring ≡ some (none, ring)))
    ⊎ ((item : ℕ) × (rest : List ℕ) × (r' : RingBuffer ℕ) × (two ≡ item ∷ rest)
        × (try_dequeue ring ≡ some (some item, r'))
        × Represents 2 r' rest)
try_dequeue-Represents_example = try_dequeue-Represents 2 ring (7 ∷ 8 ∷ []) ring-Represents

-- Powers of two, found by trying them.
power_below : ℕ → ℕ → Bool
power_below zero n = false
power_below (suc j) n = n == 2 ^ j || power_below j n

power_below_sound : (j n : ℕ) → power_below j n ≡ true → (k : ℕ) × (n ≡ 2 ^ k)
unfolding power_below
power_below_sound zero n h = cc
power_below_sound (suc j) n h = elim (Bool-cases (n == 2 ^ j)) [
  | inl this ↦ (j, (==_iff n (2 ^ j)).0 this)
  | inr other ↦ power_below_sound j n (rw other at h)
]

power_below_complete : (j k : ℕ) → k < j → power_below j (2 ^ k) ≡ true
unfolding power_below
power_below_complete zero k h = absurd (omega arith)
power_below_complete (suc j) k h = elim (Bool-cases (2 ^ k == 2 ^ j)) [
  | inl this ↦ rw this refl
  | inr other ↦
      let apart : k ≢ j = λ e. cc (sym other ∙ (==_iff (2 ^ k) (2 ^ j)).1 (ap (λ n. 2 ^ n) e)) in
      rw other (power_below_complete j k (omega (arith, h, apart)))
]

lt-pow : (k : ℕ) → k < 2 ^ k
lt-pow zero = omega arith
lt-pow (suc k) = omega (arith, lt-pow k, pow-suc 2 k)

abbrev powers_of_two : PowerTest
powers_of_two = record {
  is_power_of_two = λ n. power_below n n;
  power = λ n. power_below_sound n n;
  powers = λ k. power_below_complete (2 ^ k) k (lt-pow k);
}

abbrev memory : List ℕ
memory = 5 ∷ 5 ∷ 5 ∷ 5 ∷ []

abbrev empty_ring : RingBuffer ℕ
empty_ring = record { back = 0; front = 0; buffer = memory; mask = 3 }

ring_made : new powers_of_two 4 memory ≡ ok empty_ring
unfolding new power_below
ring_made = refl

-- The writer is in its second call while the reader takes the first item.
abbrev between : Threads ℕ
between = record {
  ring = record { back = 1; front = 1; buffer = 7 ∷ 8 ∷ 5 ∷ 5 ∷ []; mask = 3 };
  writer = has_written 1 8;
  reader = Reader.no_call;
  enqueued = 7 ∷ [];
  dequeued = 7 ∷ [];
}

reached : Reach (started empty_ring) between
unfolding step
reached =
    next
      (next
        (next
          (next
            (next
              (next (next (next here (begin_write 7 refl refl)) (write 0 7 5 refl refl))
                (commit_write 0 7 refl))
              (begin_write 8 refl refl))
            (begin_read refl refl))
          (read 0 7 refl refl))
        (commit_read 0 7 refl))
      (write 1 8 5 refl refl)

Reach-fifo_example :
    (queue : List ℕ) × (between.enqueued ≡ between.dequeued ++ queue)
    × (length queue ≤ capacity between.ring)
    × WriterInBounds between.ring between.writer
    × ReaderInBounds between.ring between.reader
Reach-fifo_example = Reach-fifo powers_of_two 4 memory empty_ring between refl ring_made reached
