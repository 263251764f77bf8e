-- ===== src/Arp/Laws.antt =====
-- The round trip of `ArpHeader::parse` with `serialize`.
use capybara.Base.{ℕ, ◌^◌, ◌<◌, ◌≡◌, arith, List, ◌++◌}
use capybara.Base.Fallible.{ok}
use capybara.Arp.{ArpOperation, request, reply, operation_number, ArpHeader, serialize, parse}
use capybara.Wire.{NetworkEndian, FromPrimitive, IsAddr, read-write_u16, read-addr}

operation-lt : (op : ArpOperation) → operation_number op < 2 ^ 16
operation-lt request = omega arith
operation-lt reply = omega arith

module _ (ne : NetworkEndian) (operations : FromPrimitive operation_number) where
  -- Parsing what `serialize` wrote for a message whose protocol addresses are octets, with any
  -- padding behind it, gives back the message.
  pub parse_message-serialize :
      (h : ArpHeader) (padding : List ℕ)
      → IsAddr h.sender_protocol_addr
      → IsAddr h.target_protocol_addr
      → parse ne operations (serialize ne h ++ padding) ≡ ok h
  unfolding parse serialize
  parse_message-serialize h padding s t =
      rw
        (
          read-write_u16 ne 1 (omega arith),
          read-write_u16 ne 0x800 (omega arith),
          read-write_u16 ne (operation_number h.operation) (operation-lt h.operation),
          read-addr ne h.sender_protocol_addr s,
          read-addr ne h.target_protocol_addr t,
        )
        (ground (arith, operations.from-disc h.operation))
