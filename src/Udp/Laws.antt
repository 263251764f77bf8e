-- ===== src/Udp/Laws.antt =====
-- What `UdpHeader::parse` accepts, and its round trip with `serialize`.
use capybara.Base.{
  ℕ, ◌+◌, ◌≤◌, ◌<◌, ◌^◌, ◌≡◌, ◌⊎◌, refl, ◌∙◌, arith, Bool, true, false, List, ◌++◌, length, get_or,
  take, drop, u16, inl, inr, if◌then◌else◌,
}
use capybara.Base.Fallible.{ok}
use capybara.Checksum.Laws.{finish-lt_u16}
use capybara.Ipv4.{Ipv4Header}
use capybara.Udp.{UdpHeader, checksum, header_with, serialize, parse}
use capybara.Wire.{NetworkEndian, read-write_u16}

module _ (ne : NetworkEndian) where
  checksum-lt : (ip : Ipv4Header) (hdr payload : List ℕ) → checksum ne ip hdr payload < 2 ^ 16
  unfolding checksum
  checksum-lt ip hdr payload = finish-lt_u16 _

  -- The checksum does not depend on its own two bytes.
  checksum_same :
      (ip : Ipv4Header) (h : UdpHeader) (n : ℕ) (payload : List ℕ) (sum sum' : ℕ × ℕ)
      → checksum ne ip (header_with ne h n sum) payload
        ≡ checksum ne ip (header_with ne h n sum') payload
  unfolding checksum
  checksum_same ip h n payload sum sum' = refl

  -- What `parse` accepts is at least as long as a header and has the length that the header says;
  -- the data returned are the bytes behind the header; and unless the check is left to the device,
  -- the checksum is zero or right.
  pub parse_datagram-accepts :
      (ip : Ipv4Header) (buf : List ℕ) (offload : Bool) (h : UdpHeader) (payload : List ℕ)
      → parse ne ip buf offload ≡ ok (h, payload)
      → let hdr = take 8 buf in
        let sum = ne.read_u16 (get_or hdr 6 0) (get_or hdr 7 0) in
        (8 ≤ length buf)
        × (ne.read_u16 (get_or hdr 4 0) (get_or hdr 5 0) ≡ length buf)
        × (payload ≡ drop 8 buf)
        × (h.src_port ≡ ne.read_u16 (get_or hdr 0 0) (get_or hdr 1 0))
        × (h.dest_port ≡ ne.read_u16 (get_or hdr 2 0) (get_or hdr 3 0))
        × ((offload ≡ true) ⊎ ((sum ≡ 0) ⊎ (sum ≡ checksum ne ip hdr payload)))
  unfolding parse
  parse_datagram-accepts ip buf offload h payload e = ground (arith, e)

  -- The bytes of a header with a checksum that is zero or right.
  parse-header_with :
      (ip : Ipv4Header) (h : UdpHeader) (payload : List ℕ) (sum : ℕ) (offload : Bool)
      → h.src_port < 2 ^ 16
      → h.dest_port < 2 ^ 16
      → 8 + length payload < 2 ^ 16
      → sum < 2 ^ 16
      → (sum ≡ 0) ⊎ (sum ≡ checksum ne ip (header_with ne h (length payload) (0, 0)) payload)
      → parse ne ip (header_with ne h (length payload) (ne.write_u16 sum) ++ payload) offload
        ≡ ok (h, payload)
  unfolding parse
  parse-header_with ip h payload sum offload hs hd fits hsum good =
      let n = length payload in
      let low : u16 (8 + n) ≡ 8 + n = omega (arith, fits) in
      let len = ne.write_u16 (u16 (8 + n)) in
      let len_read : ne.read_u16 len.0 len.1 ≡ 8 + n = rw low (read-write_u16 ne (8 + n) fits) in
      let right : (sum ≡ 0)
          ⊎ (sum ≡ checksum ne ip (header_with ne h n (ne.write_u16 sum)) payload) =
        elim good [
          | inl z ↦ inl z
          | inr c ↦ inr (c ∙ checksum_same ip h n payload (0, 0) (ne.write_u16 sum))
        ] in
      rw
        (
          len_read,
          read-write_u16 ne h.src_port hs,
          read-write_u16 ne h.dest_port hd,
          read-write_u16 ne sum hsum,
        )
        (ground (arith, right))

  either_sum :
      (ip : Ipv4Header) (h : UdpHeader) (payload : List ℕ) (offload_rx offload_tx : Bool) (sum : ℕ)
      → parse ne ip (header_with ne h (length payload) (ne.write_u16 0) ++ payload) offload_rx
        ≡ ok (h, payload)
      → parse ne ip (header_with ne h (length payload) (ne.write_u16 sum) ++ payload) offload_rx
        ≡ ok (h, payload)
      → parse ne ip
          (header_with ne h (length payload) (ne.write_u16 (if offload_tx then 0 else sum))
            ++ payload)
          offload_rx
        ≡ ok (h, payload)
  either_sum ip h payload offload_rx true sum zero_sum right_sum = zero_sum
  either_sum ip h payload offload_rx false sum zero_sum right_sum = right_sum

  -- Parsing what `serialize` wrote, before data that fit a datagram, gives the header and the data,
  -- whichever side computes or checks the checksum.
  pub parse_datagram-serialize :
      (ip : Ipv4Header) (h : UdpHeader) (payload : List ℕ) (offload_tx offload_rx : Bool)
      → h.src_port < 2 ^ 16
      → h.dest_port < 2 ^ 16
      → 8 + length payload < 2 ^ 16
      → parse ne ip (serialize ne h ip payload offload_tx ++ payload) offload_rx ≡ ok (h, payload)
  unfolding parse serialize
  parse_datagram-serialize ip h payload offload_tx offload_rx hs hd fits =
      let sum = checksum ne ip (header_with ne h (length payload) (0, 0)) payload in
      either_sum ip h payload offload_rx offload_tx sum
        (parse-header_with ip h payload 0 offload_rx hs hd fits (omega arith) (inl refl))
        (parse-header_with ip h payload sum offload_rx hs hd fits
          (checksum-lt ip (header_with ne h (length payload) (0, 0)) payload) (inr refl))
