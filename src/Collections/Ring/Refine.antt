-- ===== src/Collections/Ring/Refine.antt =====
-- A circular buffer is a bounded queue, for calls one after the other.
use capybara.Base.{
  ℕ, zero, suc, ◌+◌, ◌-◌, ◌^◌, ◌≤◌, ◌<◌, ◌≡◌, ◌≢◌, ◌⊎◌, inl, inr, refl, sym, ap, ◌∙◌, arith, List,
  [], ◌∷◌, ◌++◌, length, length-append, length-set, get_elem?, set, true, false, ==_iff, Bool-cases,
  none, some,
}
use mathlib.Core.Path.{subst}
use capybara.Base.Bits.{pow_pos}
use capybara.Collections.Ring.{
  RingBuffer, PowerTest, new, capacity, step, is_full, is_empty, try_enqueue, try_dequeue,
}
use capybara.Base.Fallible.{ok}
use capybara.Collections.Ring.Contents.{
  follow, advance, step-follow, advance_lem, advance-suc, advance-lt, advance-ne, follow-lt, Holds,
  Holds-set, Holds-append, get_elem?-set_self,
}

module _ {T : Type 0} where
  -- The buffer, of 2 ^ k elements, holds the items of a queue in their order.
  pub record Represents (k : ℕ) (r : RingBuffer T) (queue : List T) : Type 0 where
    pub masked : r.mask ≡ 2 ^ k - 1
    pub sized : length r.buffer ≡ 2 ^ k
    pub front_in : r.front < 2 ^ k
    pub back_at : r.back ≡ advance (2 ^ k) r.front (length queue)
    pub few : length queue < 2 ^ k
    pub holds : Holds (2 ^ k) r.buffer r.front queue

  pub get_elem?-inside : (xs : List T) (i : ℕ) → i < length xs → (x : T) × (get_elem? xs i ≡ some x)
  get_elem?-inside [] i inside = absurd (omega arith)
  get_elem?-inside (x ∷ xs) zero inside = (x, refl)
  get_elem?-inside (x ∷ xs) (suc i) inside = get_elem?-inside xs i (omega (arith, inside))

  module _ (k : ℕ) (r : RingBuffer T) (queue : List T) (rep : Represents k r queue) where
    pub back_in : r.back < 2 ^ k
    back_in =
        subst (λ b. b < 2 ^ k) (sym rep.back_at)
          (advance-lt (2 ^ k) r.front (length queue) rep.front_in (omega (arith, rep.few)))

    -- The index behind the back is the place behind one more item.
    pub step-back : step r.mask r.back ≡ advance (2 ^ k) r.front (suc (length queue))
    step-back =
        ap (λ m. step m r.back) rep.masked
        ∙ step-follow k r.back back_in
        ∙ ap (follow (2 ^ k)) rep.back_at
        ∙ sym (advance-suc (2 ^ k) r.front (length queue))

    places :
        let n = 2 ^ k in
        let m = suc (length queue) in
        ((r.front + m < n) × (advance n r.front m ≡ r.front + m))
        ⊎ ((n ≤ r.front + m) × (advance n r.front m + n ≡ r.front + m))
    places = advance_lem (2 ^ k) r.front (suc (length queue)) rep.front_in (omega (arith, rep.few))

    -- The buffer is full when one element is free, and empty when there are no items.
    pub is_full_lem :
        ((is_full r ≡ true) × (length queue + 1 ≡ 2 ^ k))
        ⊎ ((is_full r ≡ false) × (length queue + 1 < 2 ^ k))
    is_full_lem = elim (Bool-cases (is_full r)) [
      | inl full ↦
          let same = (==_iff (step r.mask r.back) r.front).0 full in
          inl (full, ground (arith, same, step-back, places))
      | inr other ↦ inr (other, ground (arith, other, step-back, places))
    ]

  pub is_empty_lem :
      (k : ℕ) (r : RingBuffer T) (queue : List T)
      → Represents k r queue
      → ((is_empty r ≡ true) × (queue ≡ [])) ⊎ ((is_empty r ≡ false) × (1 ≤ length queue))
  unfolding advance
  is_empty_lem k r [] rep = inl (ground (arith, rep.back_at), refl)
  is_empty_lem k r (x ∷ queue) rep =
      let apart : r.back ≢ r.front = λ e.
        advance-ne (2 ^ k) r.front (suc (length queue)) rep.front_in (omega arith) rep.few
          (sym rep.back_at ∙ e) in
      inr (ground (arith, apart), omega arith)

  -- What a new item at the back does, once it is written.
  pub pushed :
      (k : ℕ) (r : RingBuffer T) (queue : List T) (item : T)
      → Represents k r queue
      → length queue + 1 < 2 ^ k
      → get_elem? r.buffer r.back ≡ some item
      → Represents k (record r { back = step r.mask r.back }) (queue ++ (item ∷ []))
  pushed k r queue item rep room there = record {
    masked = rep.masked;
    sized = rep.sized;
    front_in = rep.front_in;
    back_at =
        step-back k r queue rep
        ∙ ap (advance (2 ^ k) r.front) (omega (arith, length-append queue (item ∷ [])));
    few = omega (arith, length-append queue (item ∷ []), room);
    holds =
        Holds-append (2 ^ k) r.buffer r.front queue item rep.holds
          (subst (λ b. get_elem? r.buffer b ≡ some item) rep.back_at there);
  }

  pub written :
      (k : ℕ) (r : RingBuffer T) (queue : List T) (item : T)
      → Represents k r queue
      → Represents k (record r { buffer = set r.buffer r.back item }) queue
  written k r queue item rep = record {
    masked = rep.masked;
    sized = length-set r.buffer r.back item ∙ rep.sized;
    front_in = rep.front_in;
    back_at = rep.back_at;
    few = rep.few;
    holds =
        subst (λ b. Holds (2 ^ k) (set r.buffer b item) r.front queue) (sym rep.back_at)
          (Holds-set (2 ^ k) r.buffer r.front queue item (length queue) rep.front_in rep.few
            (omega arith) rep.holds);
  }

  pub popped :
      (k : ℕ) (r : RingBuffer T) (item : T) (queue : List T)
      → Represents k r (item ∷ queue)
      → Represents k (record r { front = step r.mask r.front }) queue
  unfolding advance
  popped k r item queue rep =
      let next : follow (2 ^ k) r.front ≡ step r.mask r.front =
        sym (ap (λ m. step m r.front) rep.masked ∙ step-follow k r.front rep.front_in) in
      record {
        masked = rep.masked;
        sized = rep.sized;
        front_in = subst (λ f. f < 2 ^ k) next (follow-lt (2 ^ k) r.front rep.front_in);
        back_at = rep.back_at ∙ ap (λ f. advance (2 ^ k) f (length queue)) next;
        few = omega (arith, rep.few);
        holds = subst (λ f. Holds (2 ^ k) r.buffer f queue) next rep.holds.1;
      }

  -- A call of `try_enqueue` on a buffer that holds a queue: if the queue has as many items as
  -- `capacity` says, the item is refused and nothing changes; if it has fewer, the item is taken and
  -- the buffer holds the queue with the item at its end. It does not panic.
  pub try_enqueue-Represents :
      (k : ℕ) (r : RingBuffer T) (queue : List T) (item : T)
      → Represents k r queue
      → ((length queue ≡ capacity r) × (try_enqueue item r ≡ some (false, r)))
        ⊎ ((length queue < capacity r)
            × ((r' : RingBuffer T) × (try_enqueue item r ≡ some (true, r'))
                × Represents k r' (queue ++ (item ∷ []))))
  unfolding try_enqueue
  try_enqueue-Represents k r queue item rep = elim (is_full_lem k r queue rep) [
    | inl (full, all) ↦ inl (omega (arith, all, rep.sized), rw full refl)
    | inr (free, room) ↦
        let inside : r.back < length r.buffer = omega (arith, back_in k r queue rep, rep.sized) in
        let (old, there) = get_elem?-inside r.buffer r.back inside in
        let r' : RingBuffer T = record r { buffer = set r.buffer r.back item } in
        inr (
          omega (arith, room, rep.sized),
          (
            record r' { back = step r.mask r.back },
            rw free (rw there refl),
            pushed k r' queue item (written k r queue item rep) room
                (get_elem?-set_self r.buffer r.back item inside),
          ),
        )
  ]

  -- A call of `try_dequeue` on a buffer that holds a queue gives the first item of the queue, if there
  -- is one, and the buffer holds the others. It does not panic.
  pub try_dequeue-Represents :
      (k : ℕ) (r : RingBuffer T) (queue : List T)
      → Represents k r queue
      → ((queue ≡ []) × (try_dequeue r ≡ some (none, r)))
        ⊎ ((item : T) × (rest : List T) × (r' : RingBuffer T) × (queue ≡ item ∷ rest)
            × (try_dequeue r ≡ some (some item, r'))
            × Represents k r' rest)
  unfolding try_dequeue
  try_dequeue-Represents k r [] rep = elim (is_empty_lem k r [] rep) [
    | inl (empty, same) ↦ inl (refl, rw empty refl)
    | inr (other, some_items) ↦ absurd (omega arith)
  ]
  try_dequeue-Represents k r (x ∷ queue) rep = elim (is_empty_lem k r (x ∷ queue) rep) [
    | inl (empty, same) ↦ absurd (cc same)
    | inr (other, some_items) ↦ inr (
      x,
      queue,
      record r { front = step r.mask r.front },
      refl,
      rw other (rw rep.holds.0 refl),
      popped k r x queue rep,
    )
  ]

  -- A new buffer holds no items, whatever the memory of its array held.
  pub new-Represents :
      (test : PowerTest) (size : ℕ) (memory : List T) (r : RingBuffer T)
      → length memory ≡ size
      → new test size memory ≡ ok r
      → (k : ℕ) × (size ≡ 2 ^ k) × Represents k r []
  unfolding new advance
  new-Represents test size memory r sized made = elim (Bool-cases (test.is_power_of_two size)) [
    | inl power ↦
        let (k, is) = test.power size power in
        let made' : RingBuffer T = record {
          back = 0;
          front = 0;
          buffer = memory;
          mask = size - 1;
        } in
        let same : made' ≡ r = ground (arith, power, made) in
        let some_room : 1 ≤ 2 ^ k = pow_pos k in
        (
          k,
          is,
          subst (λ q. Represents k q []) same
              (record {
                masked = ap (λ (n : ℕ). n - 1) is;
                sized = sized ∙ is;
                front_in = some_room;
                back_at = refl;
                few = some_room;
                holds = tt;
              }),
        )
    | inr other ↦ absurd (ground (arith, other, made))
  ]
