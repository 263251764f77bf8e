-- ===== src/Udp/Peer/Tests.antt =====
-- A queue over a channel that is a list, and a peer with two sockets.
use capybara.Arp.Peer.{ArpPeer}
use capybara.Base.{
  ℕ, ◌+◌, ◌-◌, ◌/◌, ◌<◌, ◌≡◌, inl, inr, refl, arith, List, [], ◌∷◌, ◌++◌, length, drop, true, false,
  Bool-cases, ◌==◌, ◌||◌, ==_iff, leb, if◌then◌else◌, Option, none, some,
}
use mathlib.Core.Path.{subst}
use capybara.Base.Fallible.{ok}
use capybara.EphemeralPorts.{contains, is_private, alloc_any, alloc_port, pop_last, retain_other}
use capybara.Ipv4
use capybara.EphemeralPorts.Laws.{Distinct}
use capybara.Udp.Peer
use capybara.Udp.Peer.{
  SharedQueueSlot, UdpPeer, do_socket, do_bind, bind_free, choose_port, register, receive_parsed,
  do_close, unbind,
}
use capybara.Udp.Peer.Laws.{IsConsistent}
use capybara.Udp.Peer.Laws.Calls.{
  Event, socket, bind, close, datagram, handle, run, run-IsConsistent,
}
use capybara.Udp.Queue.{Channel, SharedQueue, push, new, make_room}
use capybara.Udp.Queue.Laws.{Holds, push-Holds}
use capybara.Wire.{Ipv4Addr, MacAddress, addr_eq}

module _ {T : Type 0} where
  unfoldable send : T → List T × ℕ → Option (List T × ℕ)
  send x (l, n) = if leb (length l + 1) n then some (l ++ (x ∷ []), n) else none

  unfoldable receive : List T × ℕ → Option (T × (List T × ℕ))
  receive ([], n) = none
  receive (x ∷ l, n) = some (x, (l, n))

  sends_lem :
      (x : T) (c : List T × ℕ)
      → length c.0 < c.1
      → (c' : List T × ℕ) × (send x c ≡ some c') × (c'.0 ≡ c.0 ++ (x ∷ [])) × (c'.1 ≡ c.1)
  unfolding send
  sends_lem x (l, n) h = ((l ++ (x ∷ []), n), ground (arith, h), refl, refl)

  receives_lem :
      (x : T) (rest : List T) (c : List T × ℕ)
      → c.0 ≡ x ∷ rest
      → (c' : List T × ℕ) × (receive c ≡ some (x, c')) × (c'.0 ≡ rest) × (c'.1 ≡ c.1)
  unfolding receive
  receives_lem x rest ([], n) h = cc
  receives_lem x rest (y ∷ l, n) h = ((l, n), cc h, cc h, refl)

  receives_nothing_lem : (c : List T × ℕ) → c.0 ≡ [] → receive c ≡ none
  unfolding receive
  receives_nothing_lem ([], n) h = refl
  receives_nothing_lem (y ∷ l, n) h = cc

abbrev list_channel : (T : Type 0) → Channel T
list_channel T = record {
  Chan = List T × ℕ;
  channel = λ n. ([], n + 1);
  try_send = send;
  try_next = receive;
  held = λ c. c.0;
  size = λ c. c.1;
  held-channel = λ n. refl;
  size-channel = λ n. refl;
  sends = sends_lem;
  receives = receives_lem;
  receives_nothing = receives_nothing_lem;
}

-- A queue of four slots that is full.
abbrev full : SharedQueue (list_channel ℕ)
full = record { chan = (1 ∷ 2 ∷ 3 ∷ 4 ∷ [], 5); length = 4; capacity = 4 }

full-Holds : Holds (list_channel ℕ) full (1 ∷ 2 ∷ 3 ∷ 4 ∷ [])
full-Holds = record { holds = refl; counted = refl; sized = refl; few = omega arith }

push-Holds_example :
    let messages : List ℕ = 1 ∷ 2 ∷ 3 ∷ 4 ∷ [] in
    let kept = if 4 == 4 then drop (length messages + 1 - 4 / 2) messages else messages in
    (q' : SharedQueue (list_channel ℕ)) × (push (list_channel ℕ) 5 full ≡ some (ok tt, q'))
    × Holds (list_channel ℕ) q' (kept ++ (5 ∷ []))
    × (q'.capacity ≡ 4)
push-Holds_example =
    push-Holds (list_channel ℕ) full (1 ∷ 2 ∷ 3 ∷ 4 ∷ []) 5 full-Holds (omega arith)

abbrev here : Ipv4Addr
here = record { a = 10; b = 0; c = 1; d = 8 }

abbrev mac : MacAddress
mac = record { m0 = 2; m1 = 0; m2 = 0; m3 = 0; m4 = 0; m5 = 1 }

abbrev arp : ArpPeer
arp = record {
  local_link_addr = mac;
  local_ipv4_addr = here;
  cache = record {
    cache = record { map = λ k. none; graveyard = λ k. none; default_ttl = some 600; clock = 5 };
    disable = false;
  };
  waiters = λ k. none;
  answered = [];
  sent = [];
}

-- A pool of two ports.
abbrev peer : UdpPeer (list_channel SharedQueueSlot)
peer =
    Peer.new (list_channel SharedQueueSlot) mac here true arp
      (record { ports = 50000 ∷ 50001 ∷ [] })

peer-private : (port : ℕ) → contains port (50000 ∷ 50001 ∷ []) ≡ true → is_private port ≡ true
unfolding contains
peer-private port h = elim (Bool-cases (50000 == port)) [
  | inl first ↦ subst (λ q. is_private q ≡ true) ((==_iff 50000 port).0 first) refl
  | inr other ↦ elim (Bool-cases (50001 == port)) [
    | inl second ↦ subst (λ q. is_private q ≡ true) ((==_iff 50001 port).0 second) refl
    | inr neither ↦
        let e : (50000 == port || (50001 == port || false)) ≡ false = rw other (rw neither refl) in
        absurd (cc (e, h))
  ]
]

peer-Distinct : Distinct (50000 ∷ 50001 ∷ [])
unfolding contains
peer-Distinct = (refl, (refl, tt))

peer-IsConsistent : IsConsistent peer
peer-IsConsistent = record {
  queued = λ qd addr h. absurd (cc h);
  single = λ qd qd' addr h h'. absurd (cc h);
  pooled = λ addr h. refl;
  private_pool = peer-private;
  distinct = peer-Distinct;
}

-- A socket that is bound, one that gets a port of the pool and a datagram, and a close.
abbrev events : List Event
events =
    socket 1
    ∷ bind 1 (record { ip = here; port = 53 })
    ∷ socket 2
    ∷ bind 2 (record { ip = here; port = 0 })
    ∷ datagram (Ipv4.new here here Ipv4.udp) (record { src_port = 53; dest_port = 50001 }) (7 ∷ [])
    ∷ close 1
    ∷ []

abbrev peer_or :
    Option (UdpPeer (list_channel SharedQueueSlot)) → UdpPeer (list_channel SharedQueueSlot)
peer_or none = peer
peer_or (some p) = p

abbrev last : UdpPeer (list_channel SharedQueueSlot)
last = peer_or (run (list_channel SharedQueueSlot) events peer)

runs : run (list_channel SharedQueueSlot) events peer ≡ some last
unfolding run handle do_socket do_bind bind_free choose_port register receive_parsed do_close unbind
    push new make_room alloc_any alloc_port pop_last contains retain_other send receive Ipv4.new
    addr_eq
runs = refl

run-IsConsistent_example : IsConsistent last
run-IsConsistent_example = run-IsConsistent events peer last peer-IsConsistent runs
