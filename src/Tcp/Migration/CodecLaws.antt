-- ===== src/Tcp/Migration/CodecLaws.antt =====
-- Values survive being written and read, with anything behind them.
use capybara.Base.{
  ℕ, zero, suc, ◌+◌, ◌-◌, ◌^◌, ◌≤◌, ◌<◌, ◌≡◌, refl, sym, ap, ◌∙◌, arith, List, [], ◌∷◌, ◌++◌,
  length, length-append, length-drop, append_assoc, drop, drop-append, take-append, Option, none,
  some, adjust_lem, trim_lem, u32_mod, map,
}
use capybara.Tcp.Established.Block.{Buffer, UnackedSegment}
use capybara.Tcp.Migration.Codec.{
  Writing, Reading, put, both, counted, write_each, read_each, write_word, write_half, read_word,
  read_half, write_buffer, read_buffer, write_pair, read_pair, write_unacked, read_unacked,
  write_option, read_option, write_deque, read_deque, sum_of,
}
use capybara.Wire.{NetworkEndian, read-write_u16, read-write_u32}

-- `write` writes `bytes`, into any buffer that has room for them.
abbrev pub Writes : Writing → List ℕ → Type 0
Writes write bytes =
    (buf : List ℕ) → length bytes ≤ length buf → write buf ≡ some (bytes, drop (length bytes) buf)

-- What is written for `a` is `size` bytes, and `read` makes `b` of it.
pub record Keeps {A : Type 0} (write : Writing) (read : Reading A) (size : ℕ) (b : A) : Type 0 where
  pub bytes : List ℕ
  pub sized : length bytes ≡ size
  pub written : Writes write bytes
  pub back : (rest : List ℕ) → read (bytes ++ rest) ≡ some (b, rest)

drop_nil : (n : ℕ) → drop {A = ℕ} n [] ≡ []
drop_nil zero = refl
drop_nil (suc n) = refl

pub drop-drop : (n m : ℕ) (xs : List ℕ) → drop m (drop n xs) ≡ drop (n + m) xs
drop-drop zero m xs = let same : m ≡ zero + m = omega arith in ap (λ k. drop k xs) same
drop-drop (suc n) m [] = drop_nil m ∙ sym (drop_nil (suc n + m))
drop-drop (suc n) m (x ∷ xs) =
    let more : suc (n + m) ≡ suc n + m = omega arith in
    drop-drop n m xs ∙ ap (λ k. drop k (x ∷ xs)) more

pub put-Writes : (bytes : List ℕ) → Writes (put bytes) bytes
put-Writes bytes buf room = ground (arith, room)

pub both-Writes :
    (first second : Writing) (xs ys : List ℕ)
    → Writes first xs
    → Writes second ys
    → Writes (both first second) (xs ++ ys)
both-Writes first second xs ys w v buf room =
    let len = length-append xs ys in
    let one = w buf (omega (arith, room, len)) in
    let two = v (drop (length xs) buf) (omega (arith, room, len, length-drop (length xs) buf)) in
    rw (one, two)
      (ap (λ b. some (xs ++ ys, b))
        (drop-drop (length xs) (length ys) buf ∙ ap (λ n. drop n buf) (sym len)))

pub counted-Writes :
    (n : ℕ) (write : Writing) (xs : List ℕ)
    → n < u32_mod
    → Writes write xs
    → Writes (counted n write) xs
counted-Writes n write xs small w buf room = ground (arith, small, w buf room)

module _ (ne : NetworkEndian) where
  abbrev pub word_bytes : ℕ → List ℕ
  word_bytes n = let w = ne.write_u32 n in w.0 ∷ w.1 ∷ w.2 ∷ w.3 ∷ []

  pub word-Keeps : (n : ℕ) → n < 2 ^ 32 → Keeps (write_word ne n) (read_word ne) 4 n
  word-Keeps n h = record {
    bytes = word_bytes n;
    sized = refl;
    written = put-Writes (word_bytes n);
    back = λ rest. ap (λ m. some (m, rest)) (read-write_u32 ne n h);
  }

  pub half-Keeps : (n : ℕ) → n < 2 ^ 16 → Keeps (write_half ne n) (read_half ne) 2 n
  half-Keeps n h =
      let w = ne.write_u16 n in
      record {
        bytes = w.0 ∷ w.1 ∷ [];
        sized = refl;
        written = put-Writes (w.0 ∷ w.1 ∷ []);
        back = λ rest. ap (λ m. some (m, rest)) (read-write_u16 ne n h);
      }

  -- The bytes of a buffer, behind its length.
  read_buffer_lem :
      (bytes rest : List ℕ)
      → length bytes < 2 ^ 32
      → read_buffer ne (word_bytes (length bytes) ++ (bytes ++ rest)) ≡ some (bytes, rest)
  read_buffer_lem bytes rest small =
      let n = length bytes in
      let all = length-append bytes rest in
      let left : length (bytes ++ rest) - (length (bytes ++ rest) - n) ≡ n = omega (arith, all) in
      rw
        (
          read-write_u32 ne n small,
          trim_lem (length (bytes ++ rest) - n) (bytes ++ rest) (omega arith),
          adjust_lem n (bytes ++ rest) (omega (arith, all)),
          left,
          take-append bytes rest,
          drop-append bytes rest,
        )
        refl

  pub buffer-Keeps :
      (bytes : Buffer)
      → length bytes < 2 ^ 32
      → Keeps (write_buffer ne bytes) (read_buffer ne) (4 + length bytes) bytes
  buffer-Keeps bytes small = record {
    bytes = word_bytes (length bytes) ++ bytes;
    sized = omega arith;
    written =
        counted-Writes (length bytes) (both (write_word ne (length bytes)) (put bytes))
          (word_bytes (length bytes) ++ bytes) small
          (both-Writes (write_word ne (length bytes)) (put bytes) (word_bytes (length bytes)) bytes
            (put-Writes (word_bytes (length bytes))) (put-Writes bytes));
    back = λ rest. read_buffer_lem bytes rest small;
  }

  pub unacked-Keeps :
      (s : UnackedSegment)
      → length s.bytes < 2 ^ 32
      → Keeps
          (write_unacked ne s)
          (read_unacked ne)
          (4 + length s.bytes)
          (record { bytes = s.bytes; initial_tx = none })
  unacked-Keeps s small =
      let k = buffer-Keeps s.bytes small in
      record {
        bytes = k.bytes;
        sized = k.sized;
        written = k.written;
        back = λ rest. rw (k.back rest) refl;
      }

  pub pair-Keeps :
      (seq : ℕ) (bytes : Buffer)
      → seq < 2 ^ 32
      → length bytes < 2 ^ 32
      → Keeps (write_pair ne (seq, bytes)) (read_pair ne) (8 + length bytes) (seq, bytes)
  pair-Keeps seq bytes fits small =
      let k = buffer-Keeps bytes small in
      record {
        bytes = word_bytes seq ++ k.bytes;
        sized = omega (arith, k.sized);
        written =
            both-Writes (write_word ne seq) (write_buffer ne bytes) (word_bytes seq) k.bytes
              (put-Writes (word_bytes seq)) k.written;
        back = λ rest. rw (read-write_u32 ne seq fits, k.back rest) refl;
      }

  pub option-Keeps :
      (o : Option ℕ)
      → ((n : ℕ) → o ≡ some n → n < 2 ^ 32)
      → Keeps (write_option ne o) (read_option ne) (elim o [ none ↦ 1 | some n ↦ 5 ]) o
  option-Keeps none fits = record {
    bytes = 0 ∷ [];
    sized = refl;
    written = put-Writes (0 ∷ []);
    back = λ rest. refl;
  }
  option-Keeps (some n) fits = record {
    bytes = 1 ∷ word_bytes n;
    sized = refl;
    written =
        both-Writes (put (1 ∷ [])) (write_word ne n) (1 ∷ []) (word_bytes n) (put-Writes (1 ∷ []))
          (put-Writes (word_bytes n));
    back = λ rest. ap (λ m. some (some m, rest)) (read-write_u32 ne n (fits n refl));
  }

-- Each entry of a queue is written and read.
abbrev pub AllKept : {A : Type 0} → (A → Writing) → Reading A → (A → ℕ) → (A → A) → List A → Type 0
AllKept write read size norm [] = Unit {0}
AllKept write read size norm (x ∷ xs) =
    Keeps (write x) read (size x) (norm x) × AllKept write read size norm xs

each-Keeps :
    {A : Type 0} (write : A → Writing) (read : Reading A) (size : A → ℕ) (norm : A → A)
    (xs : List A)
    → AllKept write read size norm xs
    → Keeps (write_each write xs) (read_each read (length xs)) (sum_of size xs) (map norm xs)
each-Keeps write read size norm [] all = record {
  bytes = [];
  sized = refl;
  written = λ buf room. refl;
  back = λ rest. refl;
}
each-Keeps write read size norm (x ∷ xs) (first, all) =
    let k = each-Keeps write read size norm xs all in
    record {
      bytes = first.bytes ++ k.bytes;
      sized = omega (arith, length-append first.bytes k.bytes, first.sized, k.sized);
      written =
          both-Writes (write x) (write_each write xs) first.bytes k.bytes first.written k.written;
      back = λ rest.
          rw (append_assoc first.bytes k.bytes rest, first.back (k.bytes ++ rest), k.back rest)
            refl;
    }

pub deque-Keeps :
    (ne : NetworkEndian) {A : Type 0} (write : A → Writing) (read : Reading A) (size : A → ℕ)
    (norm : A → A) (xs : List A)
    → length xs < 2 ^ 32
    → AllKept write read size norm xs
    → Keeps (write_deque ne write xs) (read_deque ne read) (4 + sum_of size xs) (map norm xs)
deque-Keeps ne write read size norm xs small all =
    let k = each-Keeps write read size norm xs all in
    let front = word_bytes ne (length xs) in
    record {
      bytes = front ++ k.bytes;
      sized = omega (arith, k.sized);
      written =
          counted-Writes (length xs) (both (write_word ne (length xs)) (write_each write xs))
            (front ++ k.bytes) small
            (both-Writes (write_word ne (length xs)) (write_each write xs) front k.bytes
              (put-Writes front) k.written);
      back = λ rest. rw (read-write_u32 ne (length xs) small, k.back rest) refl;
    }

abbrev pub All : {A : Type 0} → (A → Type 0) → List A → Type 0
All P [] = Unit {0}
All P (x ∷ xs) = P x × All P xs

pub All-AllKept :
    {A : Type 0} (P : A → Type 0) (write : A → Writing) (read : Reading A) (size : A → ℕ)
    (norm : A → A)
    → ((x : A) → P x → Keeps (write x) read (size x) (norm x))
    → (xs : List A) → All P xs
    → AllKept write read size norm xs
All-AllKept P write read size norm each [] all = tt
All-AllKept P write read size norm each (x ∷ xs) (first, all) =
    (each x first, All-AllKept P write read size norm each xs all)

pub map_same : {A : Type 0} (xs : List A) → map (λ (x : A). x) xs ≡ xs
map_same [] = refl
map_same (x ∷ xs) = ap (◌∷◌ x) (map_same xs)
