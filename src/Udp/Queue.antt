-- ===== src/Udp/Queue.antt =====
-- Shared queues, inetstack/protocols/udp/queue.rs. `none` is a loop that does not end. Both ends of
-- a queue are in one structure, so neither is ever closed.
pub mod Laws
use capybara.Base.{
  ℕ, zero, suc, ◌+◌, ◌-◌, ◌/◌, ◌<◌, ◌≤◌, ◌≡◌, List, [], ◌∷◌, ◌++◌, length, leb, ◌==◌, Option, none,
  some, if◌then◌else◌, Errno, Result, fail,
}
use capybara.Base.Fallible.{ok}
use capybara.Base.Panic.{◌>>=◌}

-- The bounded channel of the crate `futures`, with one sender: what it holds, in the order in which
-- it was sent, and its size, which is that of its buffer and one slot for the sender.
pub record Channel (T : Type 0) : Type 1 where
  pub Chan : Type 0
  pub channel : ℕ → Chan
  pub try_send : T → Chan → Option Chan
  pub try_next : Chan → Option (T × Chan)
  pub held : Chan → List T
  pub size : Chan → ℕ
  pub held-channel : (n : ℕ) → held (channel n) ≡ []
  pub size-channel : (n : ℕ) → size (channel n) ≡ n + 1
  pub sends :
      (x : T) (c : Chan)
      → length (held c) < size c
      → (c' : Chan) × (try_send x c ≡ some c') × (held c' ≡ held c ++ (x ∷ [])) × (size c' ≡ size c)
  pub receives :
      (x : T) (rest : List T) (c : Chan)
      → held c ≡ x ∷ rest
      → (c' : Chan) × (try_next c ≡ some (x, c')) × (held c' ≡ rest) × (size c' ≡ size c)
  pub receives_nothing : (c : Chan) → held c ≡ [] → try_next c ≡ none

module _ {T : Type 0} (ch : Channel T) where
  open ch use {Chan, channel, try_send, try_next}

  -- `SharedQueue`.
  pub record SharedQueue : Type 0 where
    pub chan : Chan
    pub length : ℕ
    pub capacity : ℕ

  -- `SharedQueue::new`.
  unfoldable pub new : ℕ → SharedQueue
  new size = record { chan = channel size; length = 0; capacity = size }

  -- `SharedQueue::try_pop`.
  unfoldable pub try_pop : SharedQueue → Option T × SharedQueue
  try_pop q = elim (try_next q.chan) [
    | some (msg, chan) ↦ (some msg, record q { chan = chan; length = q.length - 1 })
    | none ↦ (none, q)
  ]

  -- `while length >= capacity / 2 { self.try_pop(); }`, with fuel.
  unfoldable pub make_room : ℕ → SharedQueue → Option SharedQueue
  make_room zero q = none
  make_room (suc fuel) q =
      let rest = make_room fuel (try_pop q).1 in
      if leb (q.capacity / 2) q.length then rest else some q

  -- `SharedQueue::push`.
  unfoldable pub push : T → SharedQueue → Option (Result (Unit {0}) × SharedQueue)
  push msg q = do
    q ← (if q.length == q.capacity then make_room (q.length + 1) q else some q)
    elim (try_send msg q.chan) [
      | some chan ↦ some (ok tt, record q { chan = chan; length = q.length + 1 })
      | none ↦ some (fail Errno.eio "failed to push to shared queue", q)
    ]
