-- ===== src/Collections/Ring/Threads/Fifo.antt =====
-- Every step of the two threads keeps the order of the items, collections/ring.rs.
use capybara.Base.{
  ℕ, ◌≤◌, ◌<◌, ◌≡◌, refl, sym, ap, ◌∙◌, arith, List, [], ◌∷◌, ◌++◌, append_assoc, length, get_elem?,
  set, some,
}
use mathlib.Core.Path.{subst}
use capybara.Base.Fallible.{ok}
use capybara.Collections.Ring.{RingBuffer, PowerTest, new, capacity, step}
use capybara.Collections.Ring.Contents.{get_elem?-set_self}
use capybara.Collections.Ring.Refine.{Represents, back_in, pushed, written, popped, new-Represents}
use capybara.Collections.Ring.Threads.{
  Threads, Step, refuse, begin_write, write, commit_write, find_nothing, begin_read, read,
  commit_read, Reach, here, next, started,
}
use capybara.Collections.Ring.Threads.States.{
  WriterIs, ReaderIs, Inv, ReaderIs-append, WriterIs-tail, ReaderIs-front, first_item,
  WriterInBounds, ReaderInBounds, writer_in, reader_in, room, items,
}

module _ {T : Type 0} where
  Step-Inv :
      (k : ℕ) {s t : Threads T} (queue : List T)
      → Step s t
      → Inv k s queue
      → (queue' : List T) × Inv k t queue'
  Step-Inv k queue (refuse idle full) inv = (queue, inv)
  Step-Inv k queue (find_nothing idle empty) inv = (queue, inv)
  Step-Inv k queue (begin_write {s} item idle free) inv = (
    queue,
    record {
      rep = inv.rep;
      writer_is = (refl, room k s.ring queue inv.rep free);
      reader_is = inv.reader_is;
      history = inv.history;
    },
  )
  Step-Inv k queue (write {s} back item old at there) inv =
      let (same, few) = subst (WriterIs k s.ring queue) at inv.writer_is in
      let inside : back < length s.ring.buffer =
        omega (arith, back_in k s.ring queue inv.rep, inv.rep.sized, same) in
      (
        queue,
        record {
          rep =
              subst
                (λ b. Represents k (record (s.ring) { buffer = set s.ring.buffer b item }) queue)
                (sym same) (written k s.ring queue item inv.rep);
          writer_is = (same, few, get_elem?-set_self s.ring.buffer back item inside);
          reader_is =
              ReaderIs-front s.ring (record (s.ring) { buffer = set s.ring.buffer back item }) queue
                s.reader refl inv.reader_is;
          history = inv.history;
        },
      )
  Step-Inv k queue (commit_write {s} back item at) inv =
      let (same, few, there) = subst (WriterIs k s.ring queue) at inv.writer_is in
      let ring' : RingBuffer T = record (s.ring) { back = step s.ring.mask back } in
      (
        queue ++ (item ∷ []),
        record {
          rep =
              subst
                (λ b.
                  Represents k (record (s.ring) { back = step s.ring.mask b })
                    (queue ++ (item ∷ [])))
                (sym same)
                (pushed k s.ring queue item inv.rep few
                  (subst (λ b. get_elem? s.ring.buffer b ≡ some item) same there));
          writer_is = tt;
          reader_is = ReaderIs-append s.ring ring' queue item s.reader refl inv.reader_is;
          history =
              ap (λ l. l ++ (item ∷ [])) inv.history ∙ append_assoc s.dequeued queue (item ∷ []);
        },
      )
  Step-Inv k queue (begin_read {s} idle some_items) inv = (
    queue,
    record {
      rep = inv.rep;
      writer_is = inv.writer_is;
      reader_is = (refl, items k s.ring queue inv.rep some_items);
      history = inv.history;
    },
  )
  Step-Inv k queue (read {s} front item at there) inv =
      let (same, many) = subst (ReaderIs s.ring queue) at inv.reader_is in
      (
        queue,
        record {
          rep = inv.rep;
          writer_is = inv.writer_is;
          reader_is = (
            same,
            first_item k s.ring queue item inv.rep many
                (subst (λ f. get_elem? s.ring.buffer f ≡ some item) same there),
          );
          history = inv.history;
        },
      )
  Step-Inv k queue (commit_read {s} front item at) inv =
      let (same, (rest, is)) = subst (ReaderIs s.ring queue) at inv.reader_is in
      let ring' : RingBuffer T = record (s.ring) { front = step s.ring.mask front } in
      let shown = subst (λ q. Represents k s.ring q) is inv.rep in
      (
        rest,
        record {
          rep =
              subst (λ f. Represents k (record (s.ring) { front = step s.ring.mask f }) rest)
                (sym same) (popped k s.ring item rest shown);
          writer_is =
              WriterIs-tail k s.ring (step s.ring.mask front) item rest s.writer
                (subst (λ q. WriterIs k s.ring q s.writer) is inv.writer_is);
          reader_is = tt;
          history =
              inv.history
              ∙ ap (λ q. s.dequeued ++ q) is
              ∙ sym (append_assoc s.dequeued (item ∷ []) rest);
        },
      )

  Reach-Inv :
      (k : ℕ) {s t : Threads T} (queue : List T)
      → Inv k s queue
      → Reach s t
      → (queue' : List T) × Inv k t queue'
  Reach-Inv k queue inv here = (queue, inv)
  Reach-Inv k queue inv (next reached moved) =
      let (queue', inv') = Reach-Inv k queue inv reached in Step-Inv k queue' moved inv'

  -- On a new buffer, whatever its memory held, and in whatever order the steps of the two threads
  -- come: the items taken are those given, in the order in which they were taken, and then those
  -- still in the buffer, so that none is lost, repeated or overtaken; the buffer holds at most as many
  -- as `capacity` says; and no access is out of bounds.
  pub Reach-fifo :
      (test : PowerTest) (size : ℕ) (memory : List T) (r : RingBuffer T) (s : Threads T)
      → length memory ≡ size
      → new test size memory ≡ ok r
      → Reach (started r) s
      → (queue : List T) × (s.enqueued ≡ s.dequeued ++ queue)
        × (length queue ≤ capacity s.ring)
        × WriterInBounds s.ring s.writer
        × ReaderInBounds s.ring s.reader
  Reach-fifo test size memory r s sized made reached =
      let (k, is, rep) = new-Represents test size memory r sized made in
      let (queue, inv) =
        Reach-Inv k [] (record { rep = rep; writer_is = tt; reader_is = tt; history = refl })
          reached in
      (
        queue,
        inv.history,
        omega (arith, inv.rep.few, inv.rep.sized),
        writer_in k s.ring queue s.writer inv.rep inv.writer_is,
        reader_in k s.ring queue s.reader inv.rep inv.reader_is,
      )
