-- ===== src/Tcp/Header/OptionLaws.antt =====
-- Options survive the writing and the reading.
use capybara.Base.{
  ℕ, zero, suc, ◌+◌, ◌*◌, ◌^◌, ◌≤◌, ◌<◌, ◌≡◌, refl, sym, ap, ◌∙◌, arith, List, [], u8, ◌∷◌, ◌++◌,
  length, set, append_assoc, length-append, some, Result,
}
use capybara.Base.Fallible.{ok}
use capybara.Tcp.Header.{
  Sack, TcpOption, no_operation, maximum_segment_size, window_scale, sack_permitted, sack,
  timestamp,
}
use capybara.Tcp.Header.Options.{option_size, option_bytes, sack_bytes, u32_bytes}
use capybara.Tcp.Header.OptionReader.{
  arm, read, read_word, read_sacks, read_option, read_options, no_sacks,
}
use capybara.Tcp.Header.Segment.{options_bytes, options_size}
use capybara.Tcp.Header.{max_tcp_options}
use capybara.Wire.{NetworkEndian, read-write_u16, read-write_u32}

-- Writing at the end of a prefix.
set-prefix :
    {A : Type 0} (front : List A) (o a : A) (old : List A)
    → set (front ++ (o ∷ old)) (length front) a ≡ (front ++ (a ∷ [])) ++ old
set-prefix [] o a old = refl
set-prefix (x ∷ front) o a old = ap (◌∷◌ x) (set-prefix front o a old)

-- What stands behind the options: nothing, or the end of their list.
pub data Ends : List ℕ → Type 0 where
  at_once : Ends []
  by_zero : {rest : List ℕ} → Ends (0 ∷ rest)

-- The second list is the first one with `n` entries, which satisfy `P`, put in at its beginning.
pub data Filled {A : Type 0} (P : A → Type 0) : ℕ → List A → List A → Type 0 where
  same : {old : List A} → Filled P 0 old old
  next :
      {n : ℕ} {o : A} {old : List A} {a : A} {new : List A}
      → P a
      → Filled P n old new
      → Filled P (suc n) (o ∷ old) (a ∷ new)

abbrev pub SackFits : Sack → Type 0
SackFits s = (s.begin < 2 ^ 32) × (s.end < 2 ^ 32)

-- The options that the reader gives back: numbers of their widths, one to four blocks of a
-- selective acknowledgement, and zeros in the rest of its array.
pub data IsReadable : TcpOption → Type 0 where
  mss_fits : {mss : ℕ} → mss < 2 ^ 16 → IsReadable (maximum_segment_size mss)
  scale_fits : {scale : ℕ} → scale < 256 → IsReadable (window_scale scale)
  permitted : IsReadable sack_permitted
  sacks_fit :
      {n : ℕ} {sacks : List Sack}
      → 1 ≤ n
      → n ≤ 4
      → Filled SackFits n no_sacks sacks
      → IsReadable (sack n sacks)
  timestamps_fit :
      {sender echo : ℕ} → sender < 2 ^ 32 → echo < 2 ^ 32 → IsReadable (timestamp sender echo)

module _ (ne : NetworkEndian) where
  read_word-u32_bytes :
      (n : ℕ) (rest : List ℕ) → n < 2 ^ 32 → read_word ne (u32_bytes ne n ++ rest) ≡ ok (n, rest)
  read_word-u32_bytes n rest h = ap (λ m. ok (m, rest)) (read-write_u32 ne n h)

  read_sacks-sack_bytes :
      (n : ℕ) (old sacks : List Sack)
      → Filled SackFits n old sacks
      → (bytes : List ℕ) × (sack_bytes ne n sacks ≡ some bytes)
        × (length bytes ≡ 8 * n)
        × ((rest : List ℕ) → read_sacks ne n old (bytes ++ rest) ≡ ok (sacks, rest))
  read_sacks-sack_bytes zero old sacks same = ([], refl, refl, λ rest. refl)
  read_sacks-sack_bytes (suc n) [] sacks f = elim f [ ]
  read_sacks-sack_bytes (suc n) (o ∷ old) [] f = elim f [ ]
  read_sacks-sack_bytes (suc n) (o ∷ old) (s ∷ sacks) (next fits filled) =
      let (bytes, e, len, back) = read_sacks-sack_bytes n old sacks filled in
      (
        u32_bytes ne s.begin ++ (u32_bytes ne s.end ++ bytes),
        rw e refl,
        omega (arith, len),
        λ rest.
            rw (read-write_u32 ne s.begin fits.0, read-write_u32 ne s.end fits.1, back rest) refl,
      )

  -- The length octet of one to four blocks is one that the reader knows.
  sack_back :
      (n : ℕ) (sacks : List Sack) (bytes rest : List ℕ)
      → 1 ≤ n
      → n ≤ 4
      → read_sacks ne n no_sacks (bytes ++ rest) ≡ ok (sacks, rest)
      → read_option ne 5 (u8 (2 + 8 * u8 n) ∷ (bytes ++ rest)) ≡ ok (sack n sacks, rest)
  unfolding read_option
  sack_back (suc zero) sacks bytes rest lo hi back = rw back refl
  sack_back (suc (suc zero)) sacks bytes rest lo hi back = rw back refl
  sack_back (suc (suc (suc zero))) sacks bytes rest lo hi back = rw back refl
  sack_back (suc (suc (suc (suc zero)))) sacks bytes rest lo hi back = rw back refl
  sack_back zero sacks bytes rest lo hi back = absurd (omega arith)
  sack_back (suc (suc (suc (suc (suc n))))) sacks bytes rest lo hi back = absurd (omega arith)

  -- What a readable option is written as: its kind, which the loop reads an option behind, and
  -- bytes that give the option back, as many as `compute_size` says.
  read_option-option_bytes :
      (o : TcpOption)
      → IsReadable o
      → (kind : ℕ) × (body : List ℕ) × (option_bytes ne o ≡ some (kind ∷ body))
        × (arm kind ≡ read)
        × (option_size o ≡ suc (length body))
        × ((rest : List ℕ) → read_option ne kind (body ++ rest) ≡ ok (o, rest))
  unfolding read_option
  read_option-option_bytes no_operation f = elim f [ ]
  read_option-option_bytes (maximum_segment_size mss) (mss_fits h) =
      (_, _, refl, refl, refl, λ rest. rw (read-write_u16 ne mss h) refl)
  read_option-option_bytes (window_scale scale) (scale_fits h) =
      (_, _, refl, refl, refl, λ rest. refl)
  read_option-option_bytes sack_permitted permitted = (_, _, refl, refl, refl, λ rest. refl)
  read_option-option_bytes (sack n sacks) (sacks_fit lo hi filled) =
      let (bytes, e, len, back) = read_sacks-sack_bytes n no_sacks sacks filled in
      (
        5,
        u8 (2 + 8 * u8 n) ∷ bytes,
        rw e refl,
        refl,
        omega (arith, len),
        λ rest. sack_back n sacks bytes rest lo hi (back rest),
      )
  read_option-option_bytes (timestamp sender echo) (timestamps_fit h k) = (
    _,
    _,
    refl,
    refl,
    refl,
    λ rest. rw (read-write_u32 ne sender h, read-write_u32 ne echo k) refl,
  )

  -- One round of the loop.
  read_options_step :
      (fuel kind : ℕ) (body rest : List ℕ) (n : ℕ) (options : List TcpOption) (o : TcpOption)
      → arm kind ≡ read
      → n < max_tcp_options
      → read_option ne kind body ≡ ok (o, rest)
      → read_options ne (suc fuel) (kind ∷ body) n options
        ≡ read_options ne fuel rest (n + 1) (set options n o)
  unfolding read_options
  read_options_step fuel kind body rest n options o known below e = ground (arith, known, e, below)

  read_options_end :
      (fuel : ℕ) (tail : List ℕ) (n : ℕ) (options : List TcpOption)
      → Ends tail
      → read_options ne fuel tail n options ≡ ok (n, options)
  unfolding read_options
  read_options_end fuel [] n options at_once = refl
  read_options_end zero (zero ∷ rest) n options by_zero = refl
  read_options_end (suc fuel) (zero ∷ rest) n options by_zero = refl
  read_options_end zero (suc x ∷ rest) n options f = elim f [ ]
  read_options_end (suc fuel) (suc x ∷ rest) n options f = elim f [ ]

  -- The first option behind a prefix of the array, and whatever the loop then makes of the others.
  read_options_first :
      (fuel kind : ℕ) (body bytes tail : List ℕ) (front : List TcpOption) (o a : TcpOption)
      (old : List TcpOption) (result : Result (ℕ × List TcpOption))
      → arm kind ≡ read
      → ((rest : List ℕ) → read_option ne kind (body ++ rest) ≡ ok (a, rest))
      → length front < max_tcp_options
      → length ((kind ∷ body) ++ bytes) ≤ fuel
      → ((fuel' : ℕ)
          → length bytes ≤ fuel'
          → read_options ne fuel'
              (bytes ++ tail)
              (length (front ++ (a ∷ [])))
              ((front ++ (a ∷ [])) ++ old)
            ≡ result)
      → read_options ne fuel (((kind ∷ body) ++ bytes) ++ tail) (length front) (front ++ (o ∷ old))
        ≡ result
  read_options_first zero kind body bytes tail front o a old result known back room enough others =
      absurd (omega arith)
  read_options_first (suc fuel) kind body bytes tail front o a old result known back room enough
        others =
      ap (λ l. read_options ne (suc fuel) (kind ∷ l) (length front) (front ++ (o ∷ old)))
        (append_assoc body bytes tail)
      ∙ read_options_step fuel kind (body ++ (bytes ++ tail)) (bytes ++ tail) (length front)
          (front ++ (o ∷ old)) a known room (back (bytes ++ tail))
      ∙ ap (read_options ne fuel (bytes ++ tail) (length front + 1)) (set-prefix front o a old)
      ∙ ap (λ m. read_options ne fuel (bytes ++ tail) m ((front ++ (a ∷ [])) ++ old))
          (sym (length-append front (a ∷ [])))
      ∙ others fuel (omega (arith, length-append body bytes))

  -- Up to five readable options, then the end of their list or of the bytes: they are written in
  -- the number of bytes that `compute_size` adds up, and the loop gives them back.
  pub read_options-options_bytes :
      (n : ℕ) (old new : List TcpOption)
      → Filled IsReadable n old new
      → (bytes : List ℕ) × (options_bytes ne n new ≡ some bytes)
        × (options_size n new ≡ some (length bytes))
        × ((front : List TcpOption) (fuel : ℕ) (tail : List ℕ)
            → length front + n ≤ max_tcp_options
            → length bytes ≤ fuel
            → Ends tail
            → read_options ne fuel (bytes ++ tail) (length front) (front ++ old)
              ≡ ok (length front + n, front ++ new))
  read_options-options_bytes zero old new same = (
    [],
    refl,
    refl,
    λ front fuel tail room enough ends.
        read_options_end fuel tail (length front) (front ++ old) ends
        ∙ ap (λ m. ok (m, front ++ old)) (omega arith),
  )
  read_options-options_bytes (suc n) [] new f = elim f [ ]
  read_options-options_bytes (suc n) (o ∷ old) [] f = elim f [ ]
  read_options-options_bytes (suc n) (o ∷ old) (a ∷ new) (next fits filled) =
      let (kind, body, e, known, size, back) = read_option-option_bytes a fits in
      let (bytes, written, sizes, others) = read_options-options_bytes n old new filled in
      (
        (kind ∷ body) ++ bytes,
        rw (e, written) refl,
        rw (sizes, size) (ap some (omega (arith, length-append body bytes))),
        λ front fuel tail room enough ends.
            read_options_first fuel kind body bytes tail front o a old
              (ok (length front + suc n, front ++ (a ∷ new))) known back (omega arith) enough
              (λ fuel' more.
                others (front ++ (a ∷ [])) fuel' tail (omega (arith, length-append front (a ∷ [])))
                  more ends
                ∙ ap (λ m. ok (m, (front ++ (a ∷ [])) ++ new))
                    (omega (arith, length-append front (a ∷ [])))
                ∙ ap (λ l. ok (length front + suc n, l)) (append_assoc front (a ∷ []) new)),
      )
