-- ===== src/Arp/Peer/Laws.antt =====
-- What a received ARP message does, on every branch.
use capybara.Arp.{ArpOperation, request, reply, ArpHeader}
use capybara.Arp.Peer.{
  ip_keys, ArpCache, insert, get, ArpMessage, ArpPeer, set_waiters, answers, do_insert, message,
  respond, receive_header,
}
use capybara.Base.{
  ◌≡◌, ◌⊎◌, inl, inr, refl, sym, ap, ap₂, ◌∙◌, arith, List, [], ◌∷◌, ◌++◌, append-nil, true, false,
  if◌then◌else◌, Option, none, some, Bool-cases, Option-cases, Errno, fail,
}
use capybara.Base.Fallible.{ok}
use capybara.Collections.TtlCache
use capybara.Collections.TtlCache.{HashTtlCache, check_ttl}
use capybara.Collections.TtlCache.Laws.{insert_with_ttl-listed}
use capybara.Wire.{Ipv4Addr, MacAddress, ip_eq, ip_eq_iff}

-- The caches that a peer has: ARP is in use, and the time to live is not zero.
pub record IsInUse (c : ArpCache) : Type 0 where
  pub enabled : c.disable ≡ false
  pub lasting : check_ttl c.cache.default_ttl ≡ some tt

insert_lem :
    (ip : Ipv4Addr) (mac : MacAddress) (c : ArpCache)
    → IsInUse c
    → (old : Option MacAddress) × (c' : ArpCache) × (insert ip mac c ≡ some (old, c'))
      × (get ip c' ≡ some mac)
      × IsInUse c'
unfolding insert get
insert_lem ip mac c use_it =
    let (cache, e, shown, given, clock, ttl) =
      insert_with_ttl-listed ip_keys ip ip mac c.cache.default_ttl c.cache use_it.lasting in
    let mine : ip_eq ip ip ≡ true = (ip_eq_iff ip ip).1 refl in
    (
      TtlCache.listed ip c.cache,
      record c { cache = cache },
      rw e refl,
      rw use_it.enabled (given ∙ shown ∙ rw mine refl),
      record { enabled = use_it.enabled; lasting = ap check_ttl ttl ∙ use_it.lasting },
    )

-- The sender of a message has been learnt: its address is in the table, and the queries that waited
-- for it, and no others, have been sent it.
pub record Learnt (h : ArpHeader) (p p' : ArpPeer) : Type 0 where
  pub known : get h.sender_protocol_addr p'.cache ≡ some h.sender_hardware_addr
  pub in_use : IsInUse p'.cache
  pub woken : p'.waiters ≡ set_waiters h.sender_protocol_addr none p.waiters
  pub answered :
      p'.answered ≡ p.answered ++ answers (p.waiters h.sender_protocol_addr) h.sender_hardware_addr

-- What is sent in answer to a message for this host.
abbrev pub replies : ArpHeader → ArpPeer → List ArpMessage
replies h p = elim h.operation [
  | request ↦
      message h.sender_hardware_addr p reply h.sender_hardware_addr h.sender_protocol_addr ∷ []
  | reply ↦ []
]

do_insert_lem :
    (h : ArpHeader) (p : ArpPeer)
    → IsInUse p.cache
    → (p' : ArpPeer) × (do_insert h.sender_protocol_addr h.sender_hardware_addr p ≡ some p')
      × Learnt h p p'
      × (p'.sent ≡ p.sent)
      × (replies h p' ≡ replies h p)
unfolding do_insert
do_insert_lem h p use_it =
    let (old, cache, e, known, in_use) =
      insert_lem h.sender_protocol_addr h.sender_hardware_addr p.cache use_it in
    (
      record p {
        cache = cache;
        waiters = set_waiters h.sender_protocol_addr none p.waiters;
        answered = p.answered ++ answers (p.waiters h.sender_protocol_addr) h.sender_hardware_addr;
      },
      rw e refl,
      record { known = known; in_use = in_use; woken = refl; answered = refl },
      refl,
      refl,
    )

respond_lem :
    (operation : ArpOperation) (h : ArpHeader) (p p' : ArpPeer)
    → h.operation ≡ operation
    → Learnt h p p'
    → (p'' : ArpPeer) × (respond h p' ≡ some p'')
      × Learnt h p p''
      × (p''.sent ≡ p'.sent ++ replies h p')
unfolding respond
respond_lem request h p p' is learnt =
    let answer =
      message h.sender_hardware_addr p' reply h.sender_hardware_addr h.sender_protocol_addr in
    (
      record p' { sent = p'.sent ++ (answer ∷ []) },
      rw is refl,
      record {
        known = learnt.known;
        in_use = learnt.in_use;
        woken = learnt.woken;
        answered = learnt.answered;
      },
      rw is refl,
    )
respond_lem reply h p p' is learnt =
    let (old, cache, e, known, in_use) =
      insert_lem h.sender_protocol_addr h.sender_hardware_addr p'.cache learnt.in_use in
    (
      record p' { cache = cache },
      rw is (rw e refl),
      record { known = known; in_use = in_use; woken = learnt.woken; answered = learnt.answered },
      rw is (sym (append-nil p'.sent)),
    )

-- Exactly a message from a sender that is in the table, or for this host, is merged into the table:
-- then the sender's address is known, the queries that waited for it are answered, and exactly one
-- reply goes out, to the sender, if the message is a request for this host, and else none. A message
-- for another host from a sender that is not in the table is an error and changes nothing. Nothing
-- panics.
pub receive_header-merges :
    (h : ArpHeader) (p : ArpPeer)
    → IsInUse p.cache
    → let mine = ip_eq h.target_protocol_addr p.local_ipv4_addr in
      ((mine ≡ false)
        × (get h.sender_protocol_addr p.cache ≡ none)
        × (receive_header h p ≡ some (fail Errno.ebadmsg "unrecognized IP address", p)))
      ⊎ ((p' : ArpPeer) × (receive_header h p ≡ some (ok tt, p'))
          × ((mine ≡ true) ⊎ ((mac : MacAddress) × (get h.sender_protocol_addr p.cache ≡ some mac)))
          × Learnt h p p'
          × (p'.sent ≡ p.sent ++ (if mine then replies h p else [])))
unfolding receive_header
receive_header-merges h p use_it =
    let mine = ip_eq h.target_protocol_addr p.local_ipv4_addr in
    let (p1, inserted, learnt, quiet, same) = do_insert_lem h p use_it in
    let (p2, responded, learnt', sent) = respond_lem h.operation h p p1 refl learnt in
    let all_sent : p2.sent ≡ p.sent ++ replies h p = sent ∙ ap₂ ◌++◌ quiet same in
    elim (Bool-cases mine) [
      | inl for_us ↦ elim (Option-cases (get h.sender_protocol_addr p.cache)) [
        | inl unknown ↦ inr (
          p2,
          ground (arith, unknown, for_us, inserted, responded),
          inl for_us,
          learnt',
          rw for_us all_sent,
        )
        | inr (mac, known) ↦ inr (
          p2,
          ground (arith, known, inserted, for_us, responded),
          inl for_us,
          learnt',
          rw for_us all_sent,
        )
      ]
      | inr for_other ↦ elim (Option-cases (get h.sender_protocol_addr p.cache)) [
        | inl unknown ↦ inl (for_other, unknown, ground (arith, unknown, for_other))
        | inr (mac, known) ↦ inr (
          p1,
          ground (arith, known, inserted, for_other),
          inr (mac, known),
          learnt,
          rw for_other (quiet ∙ sym (append-nil p.sent)),
        )
      ]
    ]
