-- ===== src/Collections/Ring/Threads.antt =====
-- A circular buffer between a thread that writes and a thread that reads: `try_enqueue` and
-- `try_dequeue` of collections/ring.rs, cut into steps at the accesses to the shared memory. The
-- steps of the two threads come in any order, and each sees what was stored before it.
pub mod States
pub mod Fifo
use capybara.Base.{
  ℕ, ◌+◌, ◌^◌, ◌≤◌, ◌<◌, ◌≡◌, inl, inr, refl, sym, ap, ◌∙◌, arith, List, [], ◌∷◌, ◌++◌,
  append_assoc, length, length-append, get_elem?, set, true, false, some,
}
use mathlib.Core.Path.{subst}
use capybara.Base.Fallible.{ok}
use capybara.Collections.Ring.{RingBuffer, PowerTest, new, capacity, step, is_full, is_empty}
use capybara.Collections.Ring.Contents.{get_elem?-set_self}
use capybara.Collections.Ring.Refine.{
  Represents, back_in, is_full_lem, is_empty_lem, pushed, written, popped, new-Represents,
}

-- Where a thread is in its call, with what it has in its registers.
pub data Writer (T : Type 0) : Type 0 where
  no_call : Writer T
  has_room : ℕ → T → Writer T
  has_written : ℕ → T → Writer T

pub data Reader (T : Type 0) : Type 0 where
  no_call : Reader T
  has_items : ℕ → Reader T
  has_read : ℕ → T → Reader T

-- The shared memory, the threads, the items that `try_enqueue` has taken and those that
-- `try_dequeue` has given.
pub record Threads (T : Type 0) : Type 0 where
  pub ring : RingBuffer T
  pub writer : Writer T
  pub reader : Reader T
  pub enqueued : List T
  pub dequeued : List T

module _ {T : Type 0} where
  pub data Step : Threads T → Threads T → Type 0 where
    refuse : {s : Threads T} → s.writer ≡ Writer.no_call → is_full s.ring ≡ true → Step s s
    begin_write :
        {s : Threads T} (item : T)
        → s.writer ≡ Writer.no_call
        → is_full s.ring ≡ false
        → Step s (record s { writer = has_room s.ring.back item })
    write :
        {s : Threads T} (back : ℕ) (item old : T)
        → s.writer ≡ has_room back item
        → get_elem? s.ring.buffer back ≡ some old
        → Step s (record s {
          ring = record (s.ring) { buffer = set s.ring.buffer back item };
          writer = has_written back item;
        })
    commit_write :
        {s : Threads T} (back : ℕ) (item : T)
        → s.writer ≡ has_written back item
        → Step s (record s {
          ring = record (s.ring) { back = step s.ring.mask back };
          writer = Writer.no_call;
          enqueued = s.enqueued ++ (item ∷ []);
        })
    find_nothing : {s : Threads T} → s.reader ≡ Reader.no_call → is_empty s.ring ≡ true → Step s s
    begin_read :
        {s : Threads T}
        → s.reader ≡ Reader.no_call
        → is_empty s.ring ≡ false
        → Step s (record s { reader = has_items s.ring.front })
    read :
        {s : Threads T} (front : ℕ) (item : T)
        → s.reader ≡ has_items front
        → get_elem? s.ring.buffer front ≡ some item
        → Step s (record s { reader = has_read front item })
    commit_read :
        {s : Threads T} (front : ℕ) (item : T)
        → s.reader ≡ has_read front item
        → Step s (record s {
          ring = record (s.ring) { front = step s.ring.mask front };
          reader = Reader.no_call;
          dequeued = s.dequeued ++ (item ∷ []);
        })

  pub data Reach (s : Threads T) : Threads T → Type 0 where
    here : Reach s s
    next : {t u : Threads T} → Reach s t → Step t u → Reach s u

  -- The threads before their first calls, on a new buffer.
  abbrev pub started : RingBuffer T → Threads T
  started r = record {
    ring = r;
    writer = Writer.no_call;
    reader = Reader.no_call;
    enqueued = [];
    dequeued = [];
  }
