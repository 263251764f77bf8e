-- ===== src/Tcp/Header/OptionReader.antt =====
-- Reading the options of a TCP header: the loop of `TcpHeader::parse` over them,
-- inetstack/protocols/tcp/segment.rs.
use capybara.Base.{
  ℕ, zero, suc, ◌+◌, ◌-◌, ◌/◌, List, [], ◌∷◌, set, replicate, ◌==◌, ◌!=◌, ◌||◌, not, leb, Errno,
  Result, fail, if◌then◌else◌,
}
use capybara.Base.Fallible.{ok, reject, ◌>>=◌, ◌>>◌}
use capybara.Tcp.Header.{
  Sack, TcpOption, maximum_segment_size, window_scale, sack_permitted, sack, timestamp,
  max_tcp_options,
}
use capybara.Wire.{NetworkEndian}

abbrev pub no_sacks : List Sack
no_sacks = replicate 4 (record { begin = 0; end = 0 })

-- `0 => break`, `1 => continue`, and the arms that read an option.
pub data Arm : Type 0 where
  leave : Arm
  skip : Arm
  read : Arm

abbrev pub arm : ℕ → Arm
arm kind = if kind == 0 then leave else if kind == 1 then skip else read

module _ (ne : NetworkEndian) where
  -- `Cursor::read_u8`, `read_u16` and `read_u32` with `?`: an end of the bytes is an I/O error.
  abbrev pub read_byte : List ℕ → Result (ℕ × List ℕ)
  read_byte [] = fail Errno.eio "I/O error"
  read_byte (b ∷ rest) = ok (b, rest)

  abbrev pub read_half : List ℕ → Result (ℕ × List ℕ)
  read_half (a ∷ b ∷ rest) = ok (ne.read_u16 a b, rest)
  read_half (a ∷ []) = fail Errno.eio "I/O error"
  read_half [] = fail Errno.eio "I/O error"

  abbrev pub read_word : List ℕ → Result (ℕ × List ℕ)
  read_word (a ∷ b ∷ c ∷ d ∷ rest) = ok (ne.read_u32 a b c d, rest)
  read_word (a ∷ b ∷ c ∷ []) = fail Errno.eio "I/O error"
  read_word (a ∷ b ∷ []) = fail Errno.eio "I/O error"
  read_word (a ∷ []) = fail Errno.eio "I/O error"
  read_word [] = fail Errno.eio "I/O error"

  -- `for s in sacks.iter_mut().take(num_sacks)`.
  abbrev pub read_sacks : ℕ → List Sack → List ℕ → Result (List Sack × List ℕ)
  read_sacks zero sacks rest = ok (sacks, rest)
  read_sacks (suc n) [] rest = ok ([], rest)
  read_sacks (suc n) (s ∷ sacks) rest = do
    (begin, rest) ← read_word rest
    (end, rest) ← read_word rest
    (others, rest) ← read_sacks n sacks rest
    ok (record { begin = begin; end = end } ∷ others, rest)

  -- The arms of `match option_kind` that read an option, behind its kind.
  unfoldable pub read_option : ℕ → List ℕ → Result (TcpOption × List ℕ)
  read_option kind rest =
      if kind == 2
      then (do
        (len, rest) ← read_byte rest
        reject (len != 4) Errno.ebadmsg "MSS size was not 4"
        (mss, rest) ← read_half rest
        ok (maximum_segment_size mss, rest))
      else if kind == 3
      then (do
        (len, rest) ← read_byte rest
        reject (len != 3) Errno.ebadmsg "window scale size was not 3"
        (scale, rest) ← read_byte rest
        ok (window_scale scale, rest))
      else if kind == 4
      then (do
        (len, rest) ← read_byte rest
        reject (len != 2) Errno.ebadmsg "SACK permitted size was not 2"
        ok (sack_permitted, rest))
      else if kind == 5
      then (do
        (len, rest) ← read_byte rest
        reject (not ((len == 10) || (len == 18) || (len == 26) || (len == 34))) Errno.ebadmsg
            "invalid SACK size"
        let num_sacks = (len - 2) / 8
        (sacks, rest) ← read_sacks num_sacks no_sacks rest
        ok (sack num_sacks sacks, rest))
      else if kind == 8
      then (do
        (len, rest) ← read_byte rest
        reject (len != 10) Errno.ebadmsg "TCP timestamp size was not 10"
        (sender, rest) ← read_word rest
        (echo, rest) ← read_word rest
        ok (timestamp sender echo, rest))
      else fail Errno.ebadmsg "invalid TCP option"

  -- The loop over the bytes of the options, from the number of options found so far and the array
  -- that holds them, with fuel for its rounds: each takes a byte at least.
  unfoldable pub read_options : ℕ → List ℕ → ℕ → List TcpOption → Result (ℕ × List TcpOption)
  unfolding read_option
  read_options fuel [] num_options option_list = ok (num_options, option_list)
  read_options zero (kind ∷ rest) num_options option_list = ok (num_options, option_list)
  read_options (suc fuel) (kind ∷ rest) num_options option_list = elim (arm kind) [
    | leave ↦ ok (num_options, option_list)
    | skip ↦ read_options fuel rest num_options option_list
    | read ↦ do
      (option, rest) ← read_option kind rest
      reject (leb max_tcp_options num_options) Errno.ebadmsg "too many TCP options provided"
      read_options fuel rest (num_options + 1) (set option_list num_options option)
  ]
