-- ===== src/Collections/Ring.antt =====
-- The circular buffer of collections/ring.rs, for one writer and one reader.
pub mod Contents
pub mod Refine
pub mod Threads
mod Tests
use Prim.Native.Nat.{bit_and}
use capybara.Base.{
  ℕ, ◌+◌, ◌-◌, ◌^◌, ◌≡◌, List, [], ◌∷◌, length, get_elem?, set, Bool, true, false, ◌==◌,
  if◌then◌else◌, Option, none, some, Errno, Result, fail,
}
use capybara.Base.Fallible.{ok, reject, ◌>>=◌, ◌>>◌}
use mathlib.Core.Bool.{not}

-- `usize::is_power_of_two` of the standard library.
pub record PowerTest : Type 0 where
  pub is_power_of_two : ℕ → Bool
  pub power : (n : ℕ) → is_power_of_two n ≡ true → (k : ℕ) × (n ≡ 2 ^ k)
  pub powers : (k : ℕ) → is_power_of_two (2 ^ k) ≡ true

-- `RingBuffer`: the memory behind its pointers, and the mask.
pub record RingBuffer (T : Type 0) : Type 0 where
  pub back : ℕ
  pub front : ℕ
  pub buffer : List T
  pub mask : ℕ

-- `(i + 1) & self.mask`.
unfoldable pub step : ℕ → ℕ → ℕ
step mask i = bit_and (i + 1) mask

module _ {T : Type 0} where
  -- `RingBuffer::new`, with what the allocator leaves in the memory of the array.
  unfoldable pub new : PowerTest → ℕ → List T → Result (RingBuffer T)
  new test capacity memory = do
    reject (not (test.is_power_of_two capacity)) Errno.einval
        "cannot create a ring buffer that does not have a power of two capacity"
    ok (record { back = 0; front = 0; buffer = memory; mask = capacity - 1 })

  -- `RingBuffer::capacity`.
  abbrev pub capacity : RingBuffer T → ℕ
  capacity r = length r.buffer - 1

  -- `RingBuffer::is_full` and `RingBuffer::is_empty`.
  abbrev pub is_full : RingBuffer T → Bool
  is_full r = step r.mask r.back == r.front

  abbrev pub is_empty : RingBuffer T → Bool
  is_empty r = r.back == r.front

  -- `RingBuffer::try_enqueue`, with no other thread in between: whether the item was taken. A write
  -- behind the end of the array would be a panic.
  unfoldable pub try_enqueue : T → RingBuffer T → Option (Bool × RingBuffer T)
  try_enqueue item r = if is_full r then some (false, r) else elim (get_elem? r.buffer r.back) [
    | none ↦ none
    | some old ↦
        some (true, record r { buffer = set r.buffer r.back item; back = step r.mask r.back })
  ]

  -- `RingBuffer::try_dequeue`, with no other thread in between.
  unfoldable pub try_dequeue : RingBuffer T → Option (Option T × RingBuffer T)
  try_dequeue r = if is_empty r then some (none, r) else elim (get_elem? r.buffer r.front) [
    | none ↦ none
    | some item ↦ some (some item, record r { front = step r.mask r.front })
  ]
