-- ===== src/Tcp/Established/OutOfOrder/Stream.antt =====
-- The byte stream of the peer, at offsets from a base sequence number, and what it means that a
-- segment carries a part of it.
use capybara.Base.{
  ℕ, zero, suc, ◌+◌, ◌-◌, ◌^◌, ◌≤◌, ◌<◌, ◌≡◌, refl, sym, ◌∙◌, ap, ap₂, arith, [], ◌∷◌, ◌++◌, length,
  take, drop, length-take, length-drop,
}
use capybara.Tcp.SeqNumber
use capybara.Tcp.Established.Block.{Buffer}
use capybara.Tcp.Established.OutOfOrder.{Stored}

-- The `n` bytes of the stream from offset `o` on.
abbrev pub bytes_at : (ℕ → ℕ) → ℕ → ℕ → Buffer
bytes_at f o zero = []
bytes_at f o (suc n) = f o ∷ bytes_at f (o + 1) n

pub length-bytes_at : (f : ℕ → ℕ) (o n : ℕ) → length (bytes_at f o n) ≡ n
length-bytes_at f o zero = refl
length-bytes_at f o (suc n) = ap suc (length-bytes_at f (o + 1) n)

pub take-bytes_at : (f : ℕ → ℕ) (m o n : ℕ) → m ≤ n → take m (bytes_at f o n) ≡ bytes_at f o m
take-bytes_at f zero o n h = refl
take-bytes_at f (suc m) o zero h = absurd (omega arith)
take-bytes_at f (suc m) o (suc n) h = ap (◌∷◌ (f o)) (take-bytes_at f m (o + 1) n (omega arith))

pub drop-bytes_at :
    (f : ℕ → ℕ) (m o n : ℕ) → m ≤ n → drop m (bytes_at f o n) ≡ bytes_at f (o + m) (n - m)
drop-bytes_at f zero o n h = ap₂ (bytes_at f) (omega arith) (omega arith)
drop-bytes_at f (suc m) o zero h = absurd (omega arith)
drop-bytes_at f (suc m) o (suc n) h =
    drop-bytes_at f m (o + 1) n (omega arith) ∙ ap₂ (bytes_at f) (omega arith) (omega arith)

shift : (o m : ℕ) → o + suc m ≡ o + 1 + m
shift o m = omega arith

suc_add : (m n : ℕ) → suc m + n ≡ suc (m + n)
suc_add m n = omega arith

pub bytes_at-append :
    (f : ℕ → ℕ) (o m n : ℕ) → bytes_at f o m ++ bytes_at f (o + m) n ≡ bytes_at f o (m + n)
bytes_at-append f o zero n = ap₂ (bytes_at f) (omega arith) (omega arith)
bytes_at-append f o (suc m) n =
    ap (◌∷◌ (f o))
      (ap (λ k. bytes_at f (o + 1) m ++ bytes_at f k n) (shift o m) ∙ bytes_at-append f (o + 1) m n)
    ∙ ap (bytes_at f o) (sym (suc_add m n))

module _ (f : ℕ → ℕ) where
  -- A non-empty buffer with the stream's bytes from offset `o` on, within 2 ^ 30 bytes of the
  -- offset `next` of RCV.NXT.
  pub record CarriesAt (next o : ℕ) (buf : Buffer) : Type 0 where
    pub bytes_right : buf ≡ bytes_at f o (length buf)
    pub nonempty : 1 ≤ length buf
    pub not_old : next ≤ o + 2 ^ 30
    pub not_far : o + length buf ≤ next + 2 ^ 30

  -- The front and the rear of such a buffer.
  pub take-CarriesAt :
      {next o : ℕ} (m : ℕ) (buf : Buffer)
      → CarriesAt next o buf
      → 1 ≤ m
      → m ≤ length buf
      → CarriesAt next o (take m buf)
  take-CarriesAt {next} {o} m buf c one fits =
      let size : length (take m buf) ≡ m = omega (arith, length-take m buf) in
      record {
        bytes_right =
            ap (take m) c.bytes_right
            ∙ take-bytes_at f m o (length buf) fits
            ∙ ap (bytes_at f o) (sym size);
        nonempty = omega (arith, size);
        not_old = c.not_old;
        not_far = omega (arith, size, c.not_far);
      }

  pub drop-CarriesAt :
      {next o : ℕ} (m : ℕ) (buf : Buffer)
      → CarriesAt next o buf
      → m < length buf
      → CarriesAt next (o + m) (drop m buf)
  drop-CarriesAt {next} {o} m buf c fits =
      let size = length-drop m buf in
      record {
        bytes_right =
            ap (drop m) c.bytes_right
            ∙ drop-bytes_at f m o (length buf) (omega arith)
            ∙ ap (bytes_at f (o + m)) (sym size);
        nonempty = omega (arith, size);
        not_old = omega (arith, c.not_old);
        not_far = omega (arith, size, c.not_far);
      }

module _ (f : ℕ → ℕ) (base : ℕ) where
  -- A segment that carries a part of the stream at the sequence number of its offset.
  pub record Carries (next : ℕ) (seq : ℕ) (buf : Buffer) : Type 0 where
    pub offset : ℕ
    pub seq_at : seq ≡ SeqNumber.add base offset
    pub carried : CarriesAt f next offset buf

  abbrev pub AllCarry : ℕ → Stored → Type 0
  AllCarry next [] = Unit {0}
  AllCarry next ((seq, buf) ∷ rest) = Carries next seq buf × AllCarry next rest
