-- ===== src/Tcp/Migration/TcpState.antt =====
-- What moves with a connection: `TcpState` of tcp/peer.rs, the state of the connection and that of
-- the application, and `MigratedApplicationState` of tcpmig/peer.rs. `none` is a panic.
use capybara.Base.{
  ℕ, zero, suc, ◌+◌, ◌<◌, ◌≡◌, ap, refl, ◌∙◌, arith, List, [], ◌∷◌, ◌++◌, length, length-append,
  drop, replicate, length-replicate, Option, none, some, ◌==◌, if◌then◌else◌, Bool-cases, inl, inr,
}
use capybara.Base.Panic.{◌>>=◌}
use capybara.Tcp.Migration.Laws.{StateFits, without_times}
use capybara.Tcp.Migration.RoundTrip.{read_state-write_state}
use capybara.Tcp.Migration.State
use capybara.Tcp.Migration.State.{ControlBlockState, write_state, read_state}
use capybara.TcpMig.Defragmenter.{new_buffer}
use capybara.Wire.{SocketAddrV4, NetworkEndian}

-- An object of the trait `ApplicationState`, which applications implement: its size, and what it
-- writes into a slice, whose length stays.
pub record ApplicationState : Type 0 where
  pub serialized_size : ℕ
  pub serialize : List ℕ → List ℕ
  pub length-serialize : (buf : List ℕ) → length (serialize buf) ≡ length buf

-- `MigratedApplicationState`.
pub data MigratedApplicationState : Type 0 where
  no_app_state : MigratedApplicationState
  registered : ApplicationState → MigratedApplicationState
  migrated_in : List ℕ → MigratedApplicationState

-- `TcpState`.
pub record TcpState : Type 0 where
  pub cb : ControlBlockState
  pub app_state : MigratedApplicationState

-- `TcpState::remote`, `TcpState::connection` and `TcpState::set_local`.
abbrev pub remote : TcpState → SocketAddrV4
remote s = s.cb.remote

abbrev pub connection : TcpState → SocketAddrV4 × SocketAddrV4
connection s = (s.cb.local, s.cb.remote)

abbrev pub set_local : SocketAddrV4 → TcpState → TcpState
set_local local s = record s { cb = record (s.cb) { local = local } }

-- `TcpState::add_app_state`.
abbrev pub add_app_state : ApplicationState → TcpState → TcpState
add_app_state app s = record s { app_state = registered app }

abbrev pub app_size : MigratedApplicationState → ℕ
app_size (registered app) = app.serialized_size
app_size _ = 0

-- `TcpState::serialized_size`.
abbrev pub serialized_size : TcpState → ℕ
serialized_size s = State.serialized_size s.cb + 1 + app_size s.app_state

-- The part of the buffer behind the connection's state.
abbrev pub write_app_state : MigratedApplicationState → List ℕ → Option (List ℕ)
write_app_state app [] = none
write_app_state (registered app) (b ∷ buf) =
    if app.serialized_size == 0 then some (0 ∷ buf) else some (1 ∷ app.serialize buf)
write_app_state _ (b ∷ buf) = some (0 ∷ buf)

abbrev pub read_app_state : List ℕ → Option MigratedApplicationState
read_app_state [] = none
read_app_state (b ∷ buf) = if b == 0 then some no_app_state else some (migrated_in buf)

-- What the state of the application is on the other server.
abbrev pub carried : MigratedApplicationState → MigratedApplicationState
carried (registered app) =
    if app.serialized_size == 0
    then no_app_state
    else migrated_in (app.serialize (replicate app.serialized_size 0))
carried _ = no_app_state

abbrev pub carried_state : TcpState → TcpState
carried_state s = record { cb = without_times s.cb; app_state = carried s.app_state }

drop-replicate : (n k : ℕ) → drop n (replicate {A = ℕ} (n + k) 0) ≡ replicate k 0
drop-replicate zero k = let e : 0 + k ≡ k = omega arith in ap (λ m. replicate {A = ℕ} m 0) e
drop-replicate (suc n) k =
    let e : suc n + k ≡ suc (n + k) = omega arith in
    ap (λ m. drop (suc n) (replicate {A = ℕ} m 0)) e ∙ drop-replicate n k

new_buffer_lem : (n : ℕ) → 0 < n → new_buffer n ≡ some (replicate n 0)
new_buffer_lem n some_bytes = ground arith

app_state-back :
    (app : MigratedApplicationState)
    → (tail : List ℕ) × (write_app_state app (replicate (suc (app_size app)) 0) ≡ some tail)
      × (length tail ≡ 1 + app_size app)
      × (read_app_state tail ≡ some (carried app))
app_state-back no_app_state = (0 ∷ [], refl, refl, refl)
app_state-back (migrated_in bytes) = (0 ∷ [], refl, refl, refl)
app_state-back (registered app) =
    let zeros : List ℕ = replicate app.serialized_size 0 in
    let len : length zeros ≡ app.serialized_size = length-replicate app.serialized_size 0 in
    elim (Bool-cases (app.serialized_size == 0)) [
      | inl empty ↦ (0 ∷ zeros, rw empty refl, omega (arith, len), rw empty refl)
      | inr some_bytes ↦ (
        1 ∷ app.serialize zeros,
        rw some_bytes refl,
        omega (arith, len, app.length-serialize zeros),
        rw some_bytes refl,
      )
    ]

module _ (ne : NetworkEndian) where
  -- `TcpState::serialize`.
  unfoldable pub serialize : TcpState → Option (List ℕ)
  serialize s = do
    buf ← new_buffer (serialized_size s)
    (front, remaining) ← write_state ne s.cb buf
    tail ← write_app_state s.app_state remaining
    some (front ++ tail)

  -- `TcpState::deserialize`.
  unfoldable pub deserialize : List ℕ → Option TcpState
  deserialize buf = do
    (cb, buf) ← read_state ne buf
    app_state ← read_app_state buf
    some (record { cb = cb; app_state = app_state })

  serialize_parts :
      (s : TcpState) (zeros front remaining tail : List ℕ)
      → new_buffer (serialized_size s) ≡ some zeros
      → write_state ne s.cb zeros ≡ some (front, remaining)
      → write_app_state s.app_state remaining ≡ some tail
      → serialize s ≡ some (front ++ tail)
  unfolding serialize
  serialize_parts s zeros front remaining tail p q r = rw p (rw q (rw r refl))

  -- The state of a connection and its application, whose numbers have their widths and whose queues
  -- can be counted in 32 bits, is serialized without a panic, in as many bytes as
  -- `serialized_size` says; and what is read back from them is the state of the connection, less
  -- the times of transmission, and the bytes that a registered application writes into zeros of its
  -- size, if it has any.
  pub deserialize-serialize :
      (s : TcpState)
      → StateFits s.cb
      → (buf : List ℕ) × (serialize s ≡ some buf)
        × (length buf ≡ serialized_size s)
        × (deserialize buf ≡ some (carried_state s))
  unfolding deserialize
  deserialize-serialize s fits =
      let size = State.serialized_size s.cb in
      let (tail, tail_written, tail_sized, tail_read) = app_state-back s.app_state in
      let zeros : List ℕ = replicate (serialized_size s) 0 in
      let len : length zeros ≡ serialized_size s = length-replicate (serialized_size s) 0 in
      let (front, sized, written, back) =
        read_state-write_state ne s.cb zeros tail fits (omega (arith, len)) in
      let assoc : serialized_size s ≡ size + suc (app_size s.app_state) = omega arith in
      let left : drop size zeros ≡ replicate (suc (app_size s.app_state)) 0 =
        ap (λ n. drop size (replicate {A = ℕ} n 0)) assoc
        ∙ drop-replicate size (suc (app_size s.app_state)) in
      (
        front ++ tail,
        serialize_parts s zeros front (drop size zeros) tail
            (new_buffer_lem (serialized_size s) (omega arith)) written
            (ap (write_app_state s.app_state) left ∙ tail_written),
        omega (arith, length-append front tail, sized, tail_sized),
        rw back (rw tail_read refl),
      )
