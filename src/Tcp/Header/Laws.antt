-- ===== src/Tcp/Header/Laws.antt =====
-- The round trip of `TcpHeader::parse` with `TcpHeader::serialize`.
use capybara.Base.{
  length-append, ℕ, ◌+◌, ◌-◌, ◌*◌, ◌/◌, ◌^◌, ◌≤◌, ◌<◌, ◌≡◌, ◌⊎◌, inl, inr, refl, sym, ap, ap₂, ◌∙◌,
  arith, List, [], ◌++◌, length, take, drop, take-append, drop-append, Bool, true, false, some,
  if◌then◌else◌,
}
use capybara.Base.Fallible.{ok}
use capybara.Checksum.{finish}
use capybara.Checksum.Laws.{finish-lt_u16}
use capybara.Ipv4.{Ipv4Header}
use capybara.Tcp.Header.{TcpHeader}
use capybara.Tcp.Header.OptionLaws.{read_options-options_bytes}
use capybara.Tcp.Header.OptionReader.{read_options}
use capybara.Tcp.Header.Parser.{no_options, checked_offset, parse_checked, parse}
use capybara.Tcp.Header.Segment.{compute_size, padded_options, tcp_sum, serialize, checksum_fails}
use capybara.Wire.{NetworkEndian, read-write_u16}
use capybara.Tcp.Header.Pieces.{
  IsSendable, whole, tcp_checksum-some, tcp_sum_same, checked_offset-whole, parse_passing,
  parse_checked-whole, padded_options-fills,
}

module _ (ne : NetworkEndian) where
  -- The checksum that was written passes the test of it.
  checksum_fails-whole :
      (h : TcpHeader) (ip : Ipv4Header) (size : ℕ) (options payload : List ℕ) (sum : ℕ)
      (offload : Bool)
      → 20 + length options ≡ size
      → size / 4 * 4 ≡ size
      → sum < 2 ^ 16
      → (offload ≡ true) ⊎ (sum ≡ finish (tcp_sum ne ip (whole ne h size (0, 0) options) payload))
      → checksum_fails ne offload ip (whole ne h size (ne.write_u16 sum) options) payload
        ≡ some false
  checksum_fails-whole h ip size options payload sum true len even fits good = refl
  checksum_fails-whole h ip size options payload sum false len even fits good =
      let hdr = whole ne h size (ne.write_u16 sum) options in
      let right : sum ≡ finish (tcp_sum ne ip hdr payload) = elim good [
        | inl f ↦ absurd (ground (arith, f))
        | inr c ↦
            c ∙ ap finish (tcp_sum_same ne ip h size options payload (0, 0) (ne.write_u16 sum))
      ] in
      let found = tcp_checksum-some ne ip hdr payload (omega arith) (omega (arith, len, even)) in
      rw (found, read-write_u16 ne sum fits) (ap some (ground (arith, right)))

  either_sum :
      (offload : Bool) (computed : ℕ)
      → computed < 2 ^ 16
      → (if offload then 0 else computed) < 2 ^ 16
  either_sum true computed h = omega arith
  either_sum false computed h = h

  either_way :
      (tx rx : Bool) (computed : ℕ)
      → (tx ≡ false) ⊎ (rx ≡ true)
      → (rx ≡ true) ⊎ ((if tx then 0 else computed) ≡ computed)
  either_way true rx computed (inl f) = absurd (ground (arith, f))
  either_way tx rx computed (inr e) = inl e
  either_way false rx computed (inl e) = inr refl

  parse-whole :
      (h : TcpHeader) (ip : Ipv4Header) (payload written tail : List ℕ) (size : ℕ) (sum : ℕ × ℕ)
      (offload : Bool)
      → IsSendable h
      → size ≤ 60
      → 20 + length (written ++ tail) ≡ size
      → size / 4 * 4 ≡ size
      → ((fuel : ℕ)
          → length written ≤ fuel
          → read_options ne fuel (written ++ tail) 0 no_options ≡ ok (h.num_options, h.option_list))
      → checksum_fails ne offload ip (whole ne h size sum (written ++ tail)) payload ≡ some false
      → parse ne ip (whole ne h size sum (written ++ tail) ++ payload) offload
        ≡ some (ok (h, payload))
  parse-whole h ip payload written tail size sum offload s small fills even back passes =
      let hdr = whole ne h size sum (written ++ tail) in
      let words = size / 4 in
      let at_words = ap (λ n. whole ne h n sum (written ++ tail) ++ payload) even in
      let offset : checked_offset (hdr ++ payload) ≡ some (ok size) =
        ap checked_offset (sym at_words)
        ∙ checked_offset-whole ne h words sum (written ++ tail) payload (omega (arith, fills, even))
            (omega (arith, small)) (omega (arith, fills, even))
        ∙ ap (λ (n : ℕ). some (ok n)) even in
      let full : size ≡ length hdr = omega (arith, fills) in
      let cut : take size (hdr ++ payload) ≡ hdr =
        ap (λ n. take n (hdr ++ payload)) full ∙ take-append hdr payload in
      let rest : drop size (hdr ++ payload) ≡ payload =
        ap (λ n. drop n (hdr ++ payload)) full ∙ drop-append hdr payload in
      let checked : parse_checked ne (hdr ++ payload) size false ≡ ok (h, payload) =
        ap (λ n. parse_checked ne (whole ne h n sum (written ++ tail) ++ payload) n false)
          (sym even)
        ∙ parse_checked-whole ne h words sum written tail payload s (omega (arith, small))
            (omega (arith, fills, even)) back in
      parse_passing ne ip (hdr ++ payload) size offload false offset (omega (arith, fills))
        (omega (arith, full, length-append hdr payload))
        (ap₂ (λ (a b : List ℕ). checksum_fails ne offload ip a b) cut rest ∙ passes)
      ∙ ap some checked

  serialize-whole :
      (h : TcpHeader) (ip : Ipv4Header) (payload options : List ℕ) (size : ℕ) (offload : Bool)
      → compute_size h ≡ some size
      → padded_options ne h (size - 20) ≡ some options
      → 20 + length options ≡ size
      → size / 4 * 4 ≡ size
      → let computed = finish (tcp_sum ne ip (whole ne h size (0, 0) options) payload) in
        serialize ne h size ip payload offload
        ≡ some (whole ne h size (ne.write_u16 (if offload then 0 else computed)) options)
  unfolding serialize
  serialize-whole h ip payload options size offload e padded fills even =
      let summed =
        tcp_checksum-some ne ip (whole ne h size (0, 0) options) payload (omega arith)
          (omega (arith, fills, even)) in
      rw (e, padded, summed) (ground (arith, fills))

  -- Whatever `serialize` writes, for a sendable header whose size is at most sixty bytes, into a
  -- buffer of that size: it does not panic, it fills the buffer, and `parse` of the buffer and the
  -- data behind it gives back the header, options included, and the data. Where the device is left
  -- to write the checksum, it has to be left to check it too.
  pub parse_segment-serialize :
      (h : TcpHeader) (ip : Ipv4Header) (payload : List ℕ) (size : ℕ) (offload_tx offload_rx : Bool)
      → IsSendable h
      → compute_size h ≡ some size
      → size ≤ 60
      → (offload_tx ≡ false) ⊎ (offload_rx ≡ true)
      → (bytes : List ℕ) × (serialize ne h size ip payload offload_tx ≡ some bytes)
        × (length bytes ≡ size)
        × (parse ne ip (bytes ++ payload) offload_rx ≡ some (ok (h, payload)))
  parse_segment-serialize h ip payload size offload_tx offload_rx s e small offloads =
      let (written, bytes, sizes, back) =
        read_options-options_bytes ne h.num_options no_options h.option_list s.options in
      let (tail, padded, ends, fills, even) =
        padded_options-fills ne h size written bytes sizes e in
      let options = written ++ tail in
      let computed = finish (tcp_sum ne ip (whole ne h size (0, 0) options) payload) in
      let sum = if offload_tx then 0 else computed in
      let passes =
        checksum_fails-whole h ip size options payload sum offload_rx fills even
          (either_sum offload_tx computed (finish-lt_u16 _))
          (either_way offload_tx offload_rx computed offloads) in
      (
        whole ne h size (ne.write_u16 sum) options,
        serialize-whole h ip payload options size offload_tx e padded fills even,
        omega (arith, fills),
        parse-whole h ip payload written tail size (ne.write_u16 sum) offload_rx s small fills even
            (λ fuel enough.
              back [] fuel tail (omega (arith, s.at_most)) enough ends
              ∙ ap (λ n. ok (n, h.option_list)) (omega arith))
            passes,
      )
