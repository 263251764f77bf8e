-- ===== src/Udp/Queue/Laws.antt =====
-- A shared queue keeps the last messages.
use capybara.Base.{
  ℕ, zero, suc, ◌+◌, ◌-◌, ◌/◌, ◌<◌, ◌≤◌, ◌≡◌, inl, inr, refl, sym, ap, ◌∙◌, arith, List, [], ◌∷◌,
  ◌++◌, length, length-append, drop, drop_all, length-drop, leb, Errno, fail, ◌==◌, Bool-cases,
  Option, none, some, if◌then◌else◌, Result,
}
use mathlib.Core.Path.{subst}
use capybara.Base.Fallible.{ok}
use capybara.Udp.Queue.{Channel, SharedQueue, new, try_pop, make_room, push}

omega_count : (a b n : ℕ) → a ≡ b → n + 1 - a / 2 ≡ n + 1 - b / 2
omega_count a b n e = omega (arith, e)

no_drop : (n b : ℕ) → n + 1 ≤ b → 0 ≡ n + 1 - b
no_drop n b h = omega arith

module _ {T : Type 0} (ch : Channel T) where
  open ch use {Chan, held, size, sends, receives, receives_nothing}

  -- The queue holds these messages, at most as many as its capacity.
  pub record Holds (q : SharedQueue ch) (messages : List T) : Type 0 where
    pub holds : held q.chan ≡ messages
    pub counted : q.length ≡ length messages
    pub sized : size q.chan ≡ q.capacity + 1
    pub few : length messages ≤ q.capacity

  pub new-Holds : (n : ℕ) → Holds (new ch n) []
  unfolding new
  new-Holds n = record {
    holds = ch.held-channel n;
    counted = refl;
    sized = ch.size-channel n;
    few = omega arith;
  }

  pub try_pop-Holds :
      (q : SharedQueue ch) (x : T) (messages : List T)
      → Holds q (x ∷ messages)
      → (q' : SharedQueue ch) × (try_pop ch q ≡ (some x, q'))
        × Holds q' messages
        × (q'.capacity ≡ q.capacity)
  unfolding try_pop
  try_pop-Holds q x messages h =
      let (chan, e, rest, same) = receives x messages q.chan h.holds in
      (
        record q { chan = chan; length = q.length - 1 },
        ground (arith, e),
        record {
          holds = rest;
          counted = omega (arith, h.counted);
          sized = omega (arith, same, h.sized);
          few = omega (arith, h.few);
        },
        refl,
      )

  drop_one :
      (x : T) (messages : List T) (n m : ℕ) → m ≡ suc n → drop n messages ≡ drop m (x ∷ messages)
  drop_one x messages n m e = ap (λ k. drop k (x ∷ messages)) (sym e)

  -- The loop ends when fewer messages than half the capacity are left.
  make_room-Holds :
      (fuel : ℕ) (q : SharedQueue ch) (messages : List T)
      → Holds q messages
      → 1 ≤ q.capacity / 2
      → length messages < fuel
      → (q' : SharedQueue ch) × (make_room ch fuel q ≡ some q')
        × Holds q' (drop (length messages + 1 - q.capacity / 2) messages)
        × (q'.capacity ≡ q.capacity)
  unfolding make_room
  make_room-Holds zero q messages h half enough = absurd (omega arith)
  make_room-Holds (suc fuel) q [] h half enough = (
    q,
    ground (arith, half, h.counted),
    subst (Holds q) (sym (drop_all (0 + 1 - q.capacity / 2) [] (omega arith))) h,
    refl,
  )
  make_room-Holds (suc fuel) q (x ∷ messages) h half enough =
      elim (Bool-cases (leb (q.capacity / 2) q.length)) [
        | inl many ↦
            let (q1, e, h1, same) = try_pop-Holds q x messages h in
            let left : 1 ≤ q1.capacity / 2 = omega (arith, same, half) in
            let (q2, made, h2, same') =
              make_room-Holds fuel q1 messages h1 left (omega (arith, enough)) in
            let rest : SharedQueue ch = (try_pop ch q).1 in
            (
              q2,
              rw many (ap (λ p. make_room ch fuel p.1) e ∙ made),
              subst (Holds q2)
                  (ap (λ n. drop n messages)
                      (omega_count q1.capacity q.capacity (length messages) same)
                    ∙ drop_one x messages (length messages + 1 - q.capacity / 2)
                        (suc (length messages) + 1 - q.capacity / 2)
                        (ground (arith, many, h.counted)))
                  h2,
              same' ∙ same,
            )
        | inr few ↦ (
          q,
          rw few refl,
          subst (λ n. Holds q (drop n (x ∷ messages)))
              (no_drop (suc (length messages)) (q.capacity / 2) (ground (arith, few, h.counted))) h,
          refl,
        )
      ]

  -- The end of `push`, when there is room.
  abbrev send_now : T → SharedQueue ch → Option (Result (Unit {0}) × SharedQueue ch)
  send_now msg q = elim (ch.try_send msg q.chan) [
    | some chan ↦ some (ok tt, record q { chan = chan; length = q.length + 1 })
    | none ↦ some (fail Errno.eio "failed to push to shared queue", q)
  ]

  sent :
      (q : SharedQueue ch) (messages : List T) (msg : T)
      → Holds q messages
      → length messages < q.capacity
      → (q' : SharedQueue ch) × (send_now msg q ≡ some (ok tt, q'))
        × Holds q' (messages ++ (msg ∷ []))
        × (q'.capacity ≡ q.capacity)
  sent q messages msg h free =
      let (chan, e, all, same) =
        sends msg q.chan (omega (arith, ap (λ (l : List T). length l) h.holds, h.sized, free)) in
      (
        record q { chan = chan; length = q.length + 1 },
        ground (arith, e),
        record {
          holds = all ∙ ap (λ l. l ++ (msg ∷ [])) h.holds;
          counted = omega (arith, h.counted, length-append messages (msg ∷ []));
          sized = omega (arith, same, h.sized);
          few = omega (arith, length-append messages (msg ∷ []), free);
        },
        refl,
      )

  -- A push on a queue of a capacity of two or more succeeds: the message is the last one; if the queue
  -- was full, the oldest messages are gone, all but one fewer than half the capacity, and else none.
  pub push-Holds :
      (q : SharedQueue ch) (messages : List T) (msg : T)
      → Holds q messages
      → 2 ≤ q.capacity
      → let kept =
          if q.length == q.capacity
          then drop (length messages + 1 - q.capacity / 2) messages
          else messages in
        (q' : SharedQueue ch) × (push ch msg q ≡ some (ok tt, q'))
        × Holds q' (kept ++ (msg ∷ []))
        × (q'.capacity ≡ q.capacity)
  unfolding push
  push-Holds q messages msg h two = elim (Bool-cases (q.length == q.capacity)) [
    | inl full ↦
        let (q1, made, h1, same) =
          make_room-Holds (q.length + 1) q messages h (omega (arith, two))
            (omega (arith, h.counted)) in
        let fewer : length (drop (length messages + 1 - q.capacity / 2) messages) < q1.capacity =
          omega (
            arith,
            length-drop (length messages + 1 - q.capacity / 2) messages,
            h.few,
            same,
            two,
          ) in
        let (q', e, h', same') = sent q1 _ msg h1 fewer in
        rw full (q', ground (arith, full, made, e), h', same' ∙ same)
    | inr free ↦
        let fewer : length messages < q.capacity = ground (arith, free, h.few, h.counted) in
        let (q', e, h', same') = sent q messages msg h fewer in
        rw free (q', ground (arith, free, e), h', same')
  ]
