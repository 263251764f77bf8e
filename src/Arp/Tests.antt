-- ===== src/Arp/Tests.antt =====
-- The round trip at a request.
use capybara.Base.{ℕ, ◌≡◌, refl, arith, [], ◌∷◌, ◌++◌, ◌==◌, if◌then◌else◌, Option, some, none}
use capybara.Base.Fallible.{ok}
use capybara.Arp.{ArpOperation, request, reply, operation_number, ArpHeader, serialize, parse}
use capybara.Arp.Laws.{parse_message-serialize}
use capybara.Wire.{MacAddress, Ipv4Addr, FromPrimitive, big_endian}

abbrev from : ℕ → Option ArpOperation
from n = if n == 1 then some request else if n == 2 then some reply else none

from-number : (op : ArpOperation) → from (operation_number op) ≡ some op
from-number request = refl
from-number reply = refl

number-from : (n : ℕ) (op : ArpOperation) → from n ≡ some op → operation_number op ≡ n
number-from n request h = ground (arith, h)
number-from n reply h = ground (arith, h)

abbrev operations : FromPrimitive operation_number
operations = record { from = from; from-disc = from-number; disc-from = number-from }

abbrev mac : ℕ → MacAddress
mac n = record { m0 = 2; m1 = 0; m2 = 0; m3 = 0; m4 = 0; m5 = n }

abbrev here : Ipv4Addr
here = record { a = 10; b = 0; c = 1; d = 8 }

abbrev there : Ipv4Addr
there = record { a = 10; b = 0; c = 1; d = 9 }

abbrev question : ArpHeader
question = record {
  operation = request;
  sender_hardware_addr = mac 1;
  sender_protocol_addr = here;
  target_hardware_addr = mac 255;
  target_protocol_addr = there;
}

parse_message-serialize_example :
    parse big_endian operations (serialize big_endian question ++ (0 ∷ 0 ∷ [])) ≡ ok question
parse_message-serialize_example =
    parse_message-serialize big_endian operations question (0 ∷ 0 ∷ [])
      (omega arith, omega arith, omega arith, omega arith)
      (omega arith, omega arith, omega arith, omega arith)
