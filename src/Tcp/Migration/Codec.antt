-- ===== src/Tcp/Migration/Codec.antt =====
-- The traits `Serialize` and `Deserialize` (tcp/peer.rs) for the parts of a connection's state,
-- tcp/established/ctrlblk.rs. `none` is a panic.
use capybara.Base.{
  ℕ, zero, suc, ◌+◌, ◌-◌, List, [], ◌∷◌, ◌++◌, length, drop, ltb, leb, u32_mod, Option, none, some,
  adjust, trim,
}
use capybara.Base.Panic.{require, ◌>>=◌, ◌>>◌}
use capybara.Tcp.Established.Block.{Buffer, UnackedSegment}
use capybara.Wire.{NetworkEndian}

-- `serialize_into`: from a buffer, the bytes that are written at its front, and its unused part.
abbrev pub Writing : Type 0
Writing = List ℕ → Option (List ℕ × List ℕ)

-- `deserialize_from`: the value, and the buffer without the part that it was read from.
abbrev pub Reading : Type 0 → Type 0
Reading A = List ℕ → Option (A × List ℕ)

-- `buf[0..n].copy_from_slice(bytes)`, with `&mut buf[n..]`.
abbrev pub put : List ℕ → Writing
put bytes buf = require (leb (length bytes) (length buf)) >> some (bytes, drop (length bytes) buf)

abbrev pub nothing : Writing
nothing buf = some ([], buf)

-- One value behind another.
abbrev pub both : Writing → Writing → Writing
both first second buf = do
  (front, buf) ← first buf
  (more, buf) ← second buf
  some (front ++ more, buf)

-- `u32::try_from(len).expect(...)`.
abbrev pub counted : ℕ → Writing → Writing
counted n write buf = require (ltb n u32_mod) >> write buf

-- `for e in self { buf = e.serialize_into(buf); }`
abbrev pub write_each : {A : Type 0} → (A → Writing) → List A → Writing
write_each write [] = nothing
write_each write (x ∷ xs) = both (write x) (write_each write xs)

-- `for _ in 0..size { deque.push_back(T::deserialize_from(buf)); }`
abbrev pub read_each : {A : Type 0} → Reading A → ℕ → Reading (List A)
read_each read zero buf = some ([], buf)
read_each read (suc n) buf = do
  (x, buf) ← read buf
  (xs, buf) ← read_each read n buf
  some (x ∷ xs, buf)

-- `.iter().fold(0, |acc, e| acc + ...)`.
abbrev pub sum_of : {A : Type 0} → (A → ℕ) → List A → ℕ
sum_of size [] = 0
sum_of size (x ∷ xs) = size x + sum_of size xs

module _ (ne : NetworkEndian) where
  -- `to_be_bytes` of the standard library.
  abbrev pub write_word : ℕ → Writing
  write_word n = let w = ne.write_u32 n in put (w.0 ∷ w.1 ∷ w.2 ∷ w.3 ∷ [])

  abbrev pub write_half : ℕ → Writing
  write_half n = let w = ne.write_u16 n in put (w.0 ∷ w.1 ∷ [])

  -- `BigEndian::read_u32(&buf[0..4])` and `buf.adjust(4)`.
  abbrev pub read_word : Reading ℕ
  read_word (a ∷ b ∷ c ∷ d ∷ buf) = some (ne.read_u32 a b c d, buf)
  read_word (a ∷ b ∷ c ∷ []) = none
  read_word (a ∷ b ∷ []) = none
  read_word (a ∷ []) = none
  read_word [] = none

  abbrev pub read_half : Reading ℕ
  read_half (a ∷ b ∷ buf) = some (ne.read_u16 a b, buf)
  read_half (a ∷ []) = none
  read_half [] = none

  -- `Buffer`.
  abbrev pub write_buffer : Buffer → Writing
  write_buffer bytes = counted (length bytes) (both (write_word (length bytes)) (put bytes))

  -- A length beyond the end panics, whichever of the two steps meets it.
  abbrev pub read_buffer : Reading Buffer
  read_buffer buf = do
    (len, buf) ← read_word buf
    bytes ← trim (length buf - len) buf
    buf ← adjust len buf
    some (bytes, buf)

  -- `(SeqNumber, Buffer)`.
  abbrev pub write_pair : ℕ × Buffer → Writing
  write_pair (seq, bytes) = both (write_word seq) (write_buffer bytes)

  abbrev pub read_pair : Reading (ℕ × Buffer)
  read_pair buf = do
    (seq, buf) ← read_word buf
    (bytes, buf) ← read_buffer buf
    some ((seq, bytes), buf)

  -- `UnackedSegment`, whose time of transmission is not written.
  abbrev pub write_unacked : UnackedSegment → Writing
  write_unacked segment = write_buffer segment.bytes

  abbrev pub read_unacked : Reading UnackedSegment
  read_unacked buf = do
    (bytes, buf) ← read_buffer buf
    some (record { bytes = bytes; initial_tx = none }, buf)

  -- `Option<SeqNumber>`.
  abbrev pub write_option : Option ℕ → Writing
  write_option (some seq) = both (put (1 ∷ [])) (write_word seq)
  write_option none = put (0 ∷ [])

  abbrev pub read_option : Reading (Option ℕ)
  read_option [] = none
  read_option (zero ∷ buf) = some (none, buf)
  read_option (suc zero ∷ buf) = do (seq, buf) ← read_word buf; some (some seq, buf)
  read_option (suc (suc n) ∷ buf) = none

  -- `VecDeque<T>`.
  abbrev pub write_deque : {A : Type 0} → (A → Writing) → List A → Writing
  write_deque write xs = counted (length xs) (both (write_word (length xs)) (write_each write xs))

  abbrev pub read_deque : {A : Type 0} → Reading A → Reading (List A)
  read_deque read buf = do (size, buf) ← read_word buf; read_each read size buf
