-- ===== src/Collections/Ring/Threads/States.antt =====
-- What holds of the buffer and of each thread between two steps, collections/ring.rs.
use capybara.Base.{
  ℕ, ◌+◌, ◌^◌, ◌≤◌, ◌<◌, ◌≡◌, inl, inr, ap, ◌∙◌, arith, List, [], ◌∷◌, ◌++◌, length, length-append,
  get_elem?, false, some,
}
use capybara.Collections.Ring.{RingBuffer, is_full, is_empty}
use capybara.Collections.Ring.Refine.{Represents, back_in, is_full_lem, is_empty_lem}
use capybara.Collections.Ring.Threads.{
  Threads, Writer, Reader, has_room, has_written, has_items, has_read,
}

module _ {T : Type 0} where
  -- What a thread's registers say about the buffer, and the queue that it holds.
  abbrev pub WriterIs : ℕ → RingBuffer T → List T → Writer T → Type 0
  WriterIs k r queue Writer.no_call = Unit
  WriterIs k r queue (has_room back item) = (back ≡ r.back) × (length queue + 1 < 2 ^ k)
  WriterIs k r queue (has_written back item) =
      (back ≡ r.back) × (length queue + 1 < 2 ^ k) × (get_elem? r.buffer back ≡ some item)

  abbrev pub ReaderIs : RingBuffer T → List T → Reader T → Type 0
  ReaderIs r queue Reader.no_call = Unit
  ReaderIs r queue (has_items front) = (front ≡ r.front) × (1 ≤ length queue)
  ReaderIs r queue (has_read front item) =
      (front ≡ r.front) × ((rest : List T) × (queue ≡ item ∷ rest))

  pub record Inv (k : ℕ) (s : Threads T) (queue : List T) : Type 0 where
    pub rep : Represents k s.ring queue
    pub writer_is : WriterIs k s.ring queue s.writer
    pub reader_is : ReaderIs s.ring queue s.reader
    pub history : s.enqueued ≡ s.dequeued ++ queue

  -- One more item at the end does not disturb the reader, nor one fewer at the front the writer.
  pub ReaderIs-append :
      (r r' : RingBuffer T) (queue : List T) (item : T) (reader : Reader T)
      → r.front ≡ r'.front
      → ReaderIs r queue reader
      → ReaderIs r' (queue ++ (item ∷ [])) reader
  ReaderIs-append r r' queue item Reader.no_call same is = tt
  ReaderIs-append r r' queue item (has_items front) same is =
      (is.0 ∙ same, omega (arith, length-append queue (item ∷ [])))
  ReaderIs-append r r' queue item (has_read front x) same (at, (rest, is)) =
      (at ∙ same, (rest ++ (item ∷ []), ap (λ l. l ++ (item ∷ [])) is))

  pub WriterIs-tail :
      (k : ℕ) (r : RingBuffer T) (front : ℕ) (item : T) (queue : List T) (writer : Writer T)
      → WriterIs k r (item ∷ queue) writer
      → WriterIs k (record r { front = front }) queue writer
  WriterIs-tail k r front item queue Writer.no_call is = tt
  WriterIs-tail k r front item queue (has_room back x) (at, room) = (at, omega (arith, room))
  WriterIs-tail k r front item queue (has_written back x) (at, room, there) =
      (at, omega (arith, room), there)

  pub ReaderIs-front :
      (r r' : RingBuffer T) (queue : List T) (reader : Reader T)
      → r.front ≡ r'.front
      → ReaderIs r queue reader
      → ReaderIs r' queue reader
  ReaderIs-front r r' queue Reader.no_call same is = tt
  ReaderIs-front r r' queue (has_items front) same (at, many) = (at ∙ same, many)
  ReaderIs-front r r' queue (has_read front item) same (at, is) = (at ∙ same, is)

  -- The item at the front is the first of the queue.
  pub first_item :
      (k : ℕ) (r : RingBuffer T) (queue : List T) (item : T)
      → Represents k r queue
      → 1 ≤ length queue
      → get_elem? r.buffer r.front ≡ some item
      → (rest : List T) × (queue ≡ item ∷ rest)
  first_item k r [] item rep many there = absurd (omega arith)
  first_item k r (x ∷ queue) item rep many there =
      let same : x ≡ item = ground (arith, there, rep.holds.0) in (queue, ap (λ y. y ∷ queue) same)

  -- The access that a thread is about to make lies in the array.
  abbrev pub WriterInBounds : RingBuffer T → Writer T → Type 0
  WriterInBounds r (has_room back item) = back < length r.buffer
  WriterInBounds r _ = Unit

  abbrev pub ReaderInBounds : RingBuffer T → Reader T → Type 0
  ReaderInBounds r (has_items front) = front < length r.buffer
  ReaderInBounds r _ = Unit

  pub writer_in :
      (k : ℕ) (r : RingBuffer T) (queue : List T) (writer : Writer T)
      → Represents k r queue
      → WriterIs k r queue writer
      → WriterInBounds r writer
  writer_in k r queue Writer.no_call rep is = tt
  writer_in k r queue (has_room back item) rep (same, few) =
      omega (arith, back_in k r queue rep, rep.sized, same)
  writer_in k r queue (has_written back item) rep is = tt

  pub reader_in :
      (k : ℕ) (r : RingBuffer T) (queue : List T) (reader : Reader T)
      → Represents k r queue
      → ReaderIs r queue reader
      → ReaderInBounds r reader
  reader_in k r queue Reader.no_call rep is = tt
  reader_in k r queue (has_items front) rep (same, many) =
      omega (arith, rep.front_in, rep.sized, same)
  reader_in k r queue (has_read front item) rep is = tt

  pub room :
      (k : ℕ) (r : RingBuffer T) (queue : List T)
      → Represents k r queue
      → is_full r ≡ false
      → length queue + 1 < 2 ^ k
  room k r queue rep free = elim (is_full_lem k r queue rep) [
    | inl (full, all) ↦ absurd (cc (full, free))
    | inr (other, few) ↦ few
  ]

  pub items :
      (k : ℕ) (r : RingBuffer T) (queue : List T)
      → Represents k r queue
      → is_empty r ≡ false
      → 1 ≤ length queue
  items k r queue rep some_items = elim (is_empty_lem k r queue rep) [
    | inl (empty, none_there) ↦ absurd (cc (empty, some_items))
    | inr (other, many) ↦ many
  ]
