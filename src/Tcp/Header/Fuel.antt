-- ===== src/Tcp/Header/Fuel.antt =====
-- The loop over the options ends: a round for each byte is enough.
use capybara.Base.{
  ℕ, zero, suc, ◌+◌, ◌-◌, ◌/◌, ◌≤◌, ◌≡◌, ◌⊎◌, inl, inr, refl, arith, List, [], ◌∷◌, length, set,
  Fail,
}
use capybara.Base.Fallible.{ok, err}
use capybara.Tcp.Header.{Sack, TcpOption}
use capybara.Tcp.Header.Accepts.{Result-cases}
use capybara.Tcp.Header.OptionReader.{read_word, read_sacks, no_sacks, read_option, read_options}
use capybara.Wire.{NetworkEndian}

module _ (ne : NetworkEndian) where
  read_word-shorter :
      (bytes : List ℕ) (n : ℕ) (rest : List ℕ)
      → read_word ne bytes ≡ ok (n, rest)
      → length rest ≤ length bytes
  read_word-shorter [] n rest e = absurd (ground (arith, e))
  read_word-shorter (a ∷ []) n rest e = absurd (ground (arith, e))
  read_word-shorter (a ∷ b ∷ []) n rest e = absurd (ground (arith, e))
  read_word-shorter (a ∷ b ∷ c ∷ []) n rest e = absurd (ground (arith, e))
  read_word-shorter (a ∷ b ∷ c ∷ d ∷ others) n rest e = ground (arith, e)

  read_sacks-shorter :
      (n : ℕ) (old : List Sack) (bytes : List ℕ) (found : List Sack) (rest : List ℕ)
      → read_sacks ne n old bytes ≡ ok (found, rest)
      → length rest ≤ length bytes
  read_sacks-shorter zero old bytes found rest e = ground (arith, e)
  read_sacks-shorter (suc n) [] bytes found rest e = ground (arith, e)
  read_sacks-shorter (suc n) (s ∷ old) bytes found rest e =
      elim (Result-cases (read_word ne bytes)) [
        | inl (f, failed) ↦ absurd (ground (arith, e, failed))
        | inr ((begin, bytes'), first) ↦ elim (Result-cases (read_word ne bytes')) [
          | inl (f, failed) ↦ absurd (ground (arith, e, first, failed))
          | inr ((end, bytes''), second) ↦ elim (Result-cases (read_sacks ne n old bytes'')) [
            | inl (f, failed) ↦ absurd (ground (arith, e, first, second, failed))
            | inr ((others, last), third) ↦ ground (
              arith,
              e,
              first,
              second,
              third,
              read_word-shorter bytes begin bytes' first,
              read_word-shorter bytes' end bytes'' second,
              read_sacks-shorter n old bytes'' others last third,
            )
          ]
        ]
      ]

  read_sacks-cases :
      (n : ℕ) (old : List Sack) (bytes : List ℕ)
      → ((f : Fail) × (read_sacks ne n old bytes ≡ err f))
        ⊎ ((found : List Sack) × (rest : List ℕ) × (read_sacks ne n old bytes ≡ ok (found, rest))
            × (length rest ≤ length bytes))
  read_sacks-cases n old bytes = elim (Result-cases (read_sacks ne n old bytes)) [
    | inl failed ↦ inl failed
    | inr ((found, rest), e) ↦ inr (found, rest, e, read_sacks-shorter n old bytes found rest e)
  ]

  -- The arms of one size: their bytes are taken one by one.
  read_words-shorter :
      (bytes : List ℕ)
      → ((f : Fail) × (read_word ne bytes ≡ err f))
        ⊎ ((n : ℕ) × (middle : List ℕ) × (read_word ne bytes ≡ ok (n, middle))
            × (((f : Fail) × (read_word ne middle ≡ err f))
                ⊎ ((m : ℕ) × (rest : List ℕ) × (read_word ne middle ≡ ok (m, rest))
                    × (length rest ≤ length bytes))))
  read_words-shorter bytes = elim (Result-cases (read_word ne bytes)) [
    | inl failed ↦ inl failed
    | inr ((n, middle), first) ↦ inr (
      n,
      middle,
      first,
      elim (Result-cases (read_word ne middle)) [
        | inl failed ↦ inl failed
        | inr ((m, rest), second) ↦ inr (
          m,
          rest,
          second,
          omega (
            arith,
            read_word-shorter bytes n middle first,
            read_word-shorter middle m rest second,
          ),
        )
      ],
    )
  ]

  -- An option takes its bytes from the front.
  read_option-shorter :
      (kind : ℕ) (bytes : List ℕ) (o : TcpOption) (rest : List ℕ)
      → read_option ne kind bytes ≡ ok (o, rest)
      → length rest ≤ length bytes
  unfolding read_option
  read_option-shorter kind [] o rest e = ground (arith, e)
  read_option-shorter kind (len ∷ []) o rest e = ground (arith, e)
  read_option-shorter kind (len ∷ a ∷ bytes) o rest e =
      let r = a ∷ bytes in
      ground (arith, e, read_sacks-cases ((len - 2) / 8) no_sacks r, read_words-shorter r)

  -- However much more fuel than bytes there is, the loop over the options does the same.
  pub read_options_fuel :
      (fuel fuel' : ℕ) (bytes : List ℕ) (n : ℕ) (options : List TcpOption)
      → length bytes ≤ fuel
      → length bytes ≤ fuel'
      → read_options ne fuel bytes n options ≡ read_options ne fuel' bytes n options
  unfolding read_options
  read_options_fuel fuel fuel' [] n options h k = refl
  read_options_fuel zero fuel' (kind ∷ rest) n options h k = absurd (omega arith)
  read_options_fuel (suc fuel) zero (kind ∷ rest) n options h k = absurd (omega arith)
  read_options_fuel (suc fuel) (suc fuel') (kind ∷ rest) n options h k =
      let skipped = read_options_fuel fuel fuel' rest n options (omega arith) (omega arith) in
      elim (Result-cases (read_option ne kind rest)) [
        | inl (f, failed) ↦ ground (arith, skipped, failed)
        | inr ((o, others), first) ↦
            let shorter = read_option-shorter kind rest o others first in
            ground (
              arith,
              skipped,
              first,
              read_options_fuel fuel fuel' others (n + 1) (set options n o) (omega (arith, shorter))
                  (omega (arith, shorter)),
            )
      ]
