-- ===== src/Arp/Peer/Tests.antt =====
-- A peer that is asked for its address while a query waits for that of the sender.
use capybara.Arp.{request, ArpHeader}
use capybara.Arp.Peer.{ArpPeer, ArpCache, get, set_waiters, receive_header}
use capybara.Arp.Peer.Laws.{Learnt, replies, receive_header-merges}
use capybara.Base.{
  ◌≡◌, ◌⊎◌, refl, [], ◌∷◌, ◌++◌, true, false, if◌then◌else◌, none, some, Errno, fail,
}
use capybara.Base.Fallible.{ok}
use capybara.Wire.{Ipv4Addr, MacAddress, ip_eq}

abbrev here : Ipv4Addr
here = record { a = 10; b = 0; c = 1; d = 8 }

abbrev there : Ipv4Addr
there = record { a = 10; b = 0; c = 1; d = 9 }

abbrev mac : MacAddress
mac = record { m0 = 2; m1 = 0; m2 = 0; m3 = 0; m4 = 0; m5 = 1 }

abbrev other_mac : MacAddress
other_mac = record { m0 = 2; m1 = 0; m2 = 0; m3 = 0; m4 = 0; m5 = 2 }

abbrev empty : ArpCache
empty = record {
  cache = record { map = λ k. none; graveyard = λ k. none; default_ttl = some 600; clock = 5 };
  disable = false;
}

abbrev peer : ArpPeer
peer = record {
  local_link_addr = mac;
  local_ipv4_addr = here;
  cache = empty;
  waiters = set_waiters there (some (3 ∷ 4 ∷ [])) (λ k. none);
  answered = [];
  sent = [];
}

abbrev asked : ArpHeader
asked = record {
  operation = request;
  sender_hardware_addr = other_mac;
  sender_protocol_addr = there;
  target_hardware_addr = mac;
  target_protocol_addr = here;
}

receive_header-merges_example :
    let mine = ip_eq here here in
    ((mine ≡ false)
      × (get there empty ≡ none)
      × (receive_header asked peer ≡ some (fail Errno.ebadmsg "unrecognized IP address", peer)))
    ⊎ ((p' : ArpPeer) × (receive_header asked peer ≡ some (ok tt, p'))
        × ((mine ≡ true) ⊎ ((mac : MacAddress) × (get there empty ≡ some mac)))
        × Learnt asked peer p'
        × (p'.sent ≡ [] ++ (if mine then replies asked peer else [])))
receive_header-merges_example =
    receive_header-merges asked peer (record { enabled = refl; lasting = refl })
