-- ===== src/Arp/Peer.antt =====
-- The ARP cache and peer, inetstack/protocols/arp/cache/mod.rs and arp/peer.rs. `none` is a panic.
-- Messages that are handed to the runtime, and addresses that are sent to waiting queries, are part
-- of the state.
pub mod Laws
mod Tests
use capybara.Arp
use capybara.Arp.{ArpOperation, request, reply, ArpHeader}
use capybara.Base.{
  ℕ, List, [], ◌∷◌, ◌++◌, map, Bool, true, false, not, if◌then◌else◌, Option, none, some, Errno,
  Result, fail,
}
use capybara.Base.Fallible.{ok, err}
use capybara.Base.Panic.{◌>>=◌, ◌>>◌}
use capybara.Collections.TtlCache
use capybara.Collections.TtlCache.{KeyEq, HashTtlCache, value_of}
use capybara.Ethernet2
use capybara.Ethernet2.{Ethernet2Header}
use capybara.Wire.{Ipv4Addr, MacAddress, NetworkEndian, FromPrimitive, ip_eq, ip_eq_iff}

abbrev pub ip_keys : KeyEq Ipv4Addr
ip_keys = record { eq = ip_eq; eq_iff = ip_eq_iff }

abbrev pub dummy_mac_address : MacAddress
dummy_mac_address = record { m0 = 0; m1 = 0; m2 = 0; m3 = 0; m4 = 0; m5 = 0 }

-- `MacAddress::broadcast`.
abbrev pub broadcast : MacAddress
broadcast = record { m0 = 0xff; m1 = 0xff; m2 = 0xff; m3 = 0xff; m4 = 0xff; m5 = 0xff }

-- `ArpCache`, whose records hold a link address each.
pub record ArpCache : Type 0 where
  pub cache : HashTtlCache Ipv4Addr MacAddress
  pub disable : Bool

-- `ArpCache::insert`.
unfoldable pub insert : Ipv4Addr → MacAddress → ArpCache → Option (Option MacAddress × ArpCache)
insert ip mac c = do
  (old, cache) ← TtlCache.insert ip_keys ip mac c.cache
  some (old, record c { cache = cache })

-- `ArpCache::get`.
unfoldable pub get : Ipv4Addr → ArpCache → Option MacAddress
get ip c = if c.disable then some dummy_mac_address else TtlCache.get ip c.cache

-- The loop of `ArpCache::new` over the initial values.
abbrev pub populate : List (Ipv4Addr × MacAddress) → ArpCache → Option ArpCache
populate [] c = some c
populate ((ip, mac) ∷ values) c = do (old, c) ← insert ip mac c; populate values c

-- `ArpCache::new`, at the time `now`.
unfoldable pub new_cache :
    ℕ → Option ℕ → Option (List (Ipv4Addr × MacAddress)) → Bool → Option ArpCache
new_cache now default_ttl values disable = do
  cache ← TtlCache.new now default_ttl
  elim values [
    | none ↦ some (record { cache = cache; disable = disable })
    | some initial ↦ populate initial (record { cache = cache; disable = disable })
  ]

-- `ArpCache::advance_clock`.
unfoldable pub advance_clock : ℕ → ArpCache → Option ArpCache
advance_clock now c = do
  cache ← TtlCache.advance_clock now c.cache
  some (record c { cache = cache })

-- `ArpCache::clear`.
abbrev pub clear : ArpCache → ArpCache
clear c = record c { cache = TtlCache.clear c.cache }

-- `ArpMessage`.
pub record ArpMessage : Type 0 where
  pub ethernet2_hdr : Ethernet2Header
  pub header : ArpHeader

-- `ArpPeer`. A `Sender` of a one-shot channel is the number of the query that waits at its other end.
pub record ArpPeer : Type 0 where
  pub local_link_addr : MacAddress
  pub local_ipv4_addr : Ipv4Addr
  pub cache : ArpCache
  pub waiters : Ipv4Addr → Option (List ℕ)
  pub answered : List (ℕ × MacAddress)
  pub sent : List ArpMessage

abbrev pub set_waiters :
    Ipv4Addr → Option (List ℕ) → (Ipv4Addr → Option (List ℕ)) → Ipv4Addr → Option (List ℕ)
set_waiters ip queue waiters j = if ip_eq ip j then queue else waiters j

-- `for sender in wait_queue { let _ = sender.send(link_addr); }`
abbrev pub answers : Option (List ℕ) → MacAddress → List (ℕ × MacAddress)
answers none mac = []
answers (some queue) mac = map (λ query. (query, mac)) queue

-- `ArpPeer::do_drop`.
unfoldable pub do_drop : Ipv4Addr → ArpPeer → ArpPeer
do_drop ip p = record p { waiters = set_waiters ip none p.waiters }

-- `ArpPeer::do_insert`.
unfoldable pub do_insert : Ipv4Addr → MacAddress → ArpPeer → Option ArpPeer
do_insert ip mac p = do
  (old, cache) ← insert ip mac p.cache
  some (record p {
    cache = cache;
    waiters = set_waiters ip none p.waiters;
    answered = p.answered ++ answers (p.waiters ip) mac;
  })

abbrev pub push_waiter : ℕ → Option (List ℕ) → List ℕ
push_waiter query none = query ∷ []
push_waiter query (some queue) = queue ++ (query ∷ [])

-- `ArpPeer::do_wait_link_addr`, for a query.
unfoldable pub do_wait_link_addr : ℕ → Ipv4Addr → ArpPeer → ArpPeer
do_wait_link_addr query ip p = elim (get ip p.cache) [
  | some mac ↦ record p { answered = p.answered ++ ((query, mac) ∷ []) }
  | none ↦ record p { waiters = set_waiters ip (some (push_waiter query (p.waiters ip))) p.waiters }
]

-- `ArpPeer::try_query`.
abbrev pub try_query : Ipv4Addr → ArpPeer → Option MacAddress
try_query ip p = get ip p.cache

abbrev pub message : MacAddress → ArpPeer → ArpOperation → MacAddress → Ipv4Addr → ArpMessage
message dst p operation target target_ip = record {
  ethernet2_hdr = record {
    dst_addr = dst;
    src_addr = p.local_link_addr;
    ether_type = Ethernet2.arp;
  };
  header = record {
    operation = operation;
    sender_hardware_addr = p.local_link_addr;
    sender_protocol_addr = p.local_ipv4_addr;
    target_hardware_addr = target;
    target_protocol_addr = target_ip;
  };
}

-- The end of `receive`, for a message to this host whose sender is in the table.
unfoldable pub respond : ArpHeader → ArpPeer → Option ArpPeer
respond h p = elim h.operation [
  | request ↦
      let answer =
        message h.sender_hardware_addr p reply h.sender_hardware_addr h.sender_protocol_addr in
      some (record p { sent = p.sent ++ (answer ∷ []) })
  | reply ↦ (do
    (old, cache) ← insert h.sender_protocol_addr h.sender_hardware_addr p.cache
    some (record p { cache = cache }))
]

-- `ArpPeer::receive`, behind the parser.
unfoldable pub receive_header : ArpHeader → ArpPeer → Option (Result (Unit {0}) × ArpPeer)
receive_header h p =
    let known = get h.sender_protocol_addr p.cache in
    let mine = ip_eq h.target_protocol_addr p.local_ipv4_addr in
    elim known [
      | some mac ↦ (do
        p ← do_insert h.sender_protocol_addr h.sender_hardware_addr p
        if mine then (respond h p >>= λ p. some (ok tt, p)) else some (ok tt, p))
      | none ↦
          if mine
          then (do
            p ← do_insert h.sender_protocol_addr h.sender_hardware_addr p
            p ← respond h p
            some (ok tt, p))
          else some (fail Errno.ebadmsg "unrecognized IP address", p)
    ]

-- `ArpPeer::receive`.
pub receive :
    (ne : NetworkEndian)
    → FromPrimitive Arp.operation_number
    → List ℕ
    → ArpPeer
    → Option (Result (Unit {0}) × ArpPeer)
receive ne operations buf p = elim (Arp.parse ne operations buf) [
  | err failure ↦ some (err failure, p)
  | ok h ↦ receive_header h p
]

-- The first pass of `ArpPeer::query`: an address that is known, or a request and a query that waits.
unfoldable pub begin_query : ℕ → Ipv4Addr → ArpPeer → Option MacAddress × ArpPeer
begin_query query ip p = elim (get ip p.cache) [
  | some mac ↦ (some mac, p)
  | none ↦
      let p = do_wait_link_addr query ip p in
      (none, record p { sent = p.sent ++ (message broadcast p request broadcast ip ∷ []) })
]

-- A round of `ArpPeer::background`, at a time.
unfoldable pub background : ℕ → ArpPeer → Option ArpPeer
background current_time p = do
  cache ← advance_clock current_time p.cache
  some (record p { cache = cache })
