-- ===== src/Udp/Peer/Laws/Calls.antt =====
-- Sequences of calls and datagrams, on a UDP peer.
use capybara.Base.{
  ℕ, ◌≡◌, inl, inr, ap, ◌∙◌, arith, List, [], ◌∷◌, Option-cases, Option, none, some, Result,
}
use mathlib.Core.Path.{subst}
use capybara.Base.Fallible.{ok, err}
use capybara.Base.Panic.{◌>>=◌, >>=-eq_some}
use capybara.Ipv4.{Ipv4Header}
use capybara.Udp.{UdpHeader}
use capybara.Udp.Peer.{
  SharedQueueSlot, UdpPeer, do_socket, do_bind, do_close, receiver_of, deliver, receive_parsed,
  unspecified,
}
use capybara.Udp.Peer.Laws.{IsConsistent, do_socket-IsConsistent, do_close-IsConsistent}
use capybara.Udp.Peer.Laws.Bind.{do_bind-IsConsistent}
use capybara.Udp.Queue
use capybara.Udp.Queue.{Channel, SharedQueue}
use capybara.Wire.{SocketAddrV4}
use capybara.Wire.Addrs.{insert, insert-same, insert-other, addr_cases}

-- What happens to a peer: calls of the application, and datagrams, behind the parser.
pub data Event : Type 0 where
  socket : ℕ → Event
  bind : ℕ → SocketAddrV4 → Event
  close : ℕ → Event
  datagram : Ipv4Header → UdpHeader → List ℕ → Event

module _ (ch : Channel SharedQueueSlot) where
  unfoldable pub handle : Event → UdpPeer ch → Option (UdpPeer ch)
  handle (socket qd) p = some (do_socket ch qd p).1
  handle (bind qd addr) p = some (do_bind ch qd addr p).1
  handle (close qd) p = some (do_close ch qd p).1
  handle (datagram ipv4_hdr hdr bytes) p = do
    (result, p) ← receive_parsed ch ipv4_hdr hdr bytes p
    some p

  unfoldable pub run : List Event → UdpPeer ch → Option (UdpPeer ch)
  run [] p = some p
  run (event ∷ events) p = do p ← handle event p; run events p

module _ {ch : Channel SharedQueueSlot} where
  -- A queue that takes the place of another one.
  requeued :
      (p : UdpPeer ch) (addr : SocketAddrV4) (old queue : SharedQueue ch)
      → IsConsistent p
      → p.bound addr ≡ some old
      → IsConsistent (record p { bound = insert addr queue p.bound })
  requeued p addr old queue c is = record {
    queued = λ k a there. elim (addr_cases addr a) [
      | inl same ↦ (
        queue,
        subst (λ a. insert addr queue p.bound a ≡ some queue) same (insert-same addr queue p.bound),
      )
      | inr apart ↦
          let (q, e) = c.queued k a there in (q, insert-other addr a queue p.bound apart ∙ e)
    ];
    single = c.single;
    pooled = λ a there. elim (addr_cases addr a) [
      | inl same ↦ absurd (cc (is, ap (λ a. p.bound a) same, c.pooled a there))
      | inr apart ↦ insert-other addr a queue p.bound apart ∙ c.pooled a there
    ];
    private_pool = c.private_pool;
    distinct = c.distinct;
  }

  abbrev settle :
      SocketAddrV4
      → SharedQueue ch
      → UdpPeer ch
      → Result (Unit {0})
      → Option (Result (Unit {0}) × UdpPeer ch)
  settle addr queue p pushed = elim pushed [
    | err failure ↦ none
    | ok done ↦ some (ok tt, record p { bound = insert addr queue p.bound })
  ]

  -- What `deliver` does when the queue has taken the slot, or not.
  settle-IsConsistent :
      (addr : SocketAddrV4) (old queue : SharedQueue ch) (p p' : UdpPeer ch)
      (pushed result : Result (Unit {0}))
      → IsConsistent p
      → p.bound addr ≡ some old
      → settle addr queue p pushed ≡ some (result, p')
      → IsConsistent p'
  settle-IsConsistent addr old queue p p' (err failure) result c is e = cc
  settle-IsConsistent addr old queue p p' (ok done) result c is e =
      let same : record p { bound = insert addr queue p.bound } ≡ p' = ground (arith, e) in
      subst IsConsistent same (requeued p addr old queue c is)

  deliver-IsConsistent :
      (addr : SocketAddrV4) (queue : SharedQueue ch) (slot : SharedQueueSlot) (p p' : UdpPeer ch)
      (result : Result (Unit {0}))
      → IsConsistent p
      → p.bound addr ≡ some queue
      → deliver ch addr queue slot p ≡ some (result, p')
      → IsConsistent p'
  deliver-IsConsistent addr queue slot p p' result c is done =
      let ((pushed, queue'), e, rest) = >>=-eq_some (Queue.push ch slot queue) _ done in
      settle-IsConsistent addr queue queue' p p' pushed result c is rest

  receiver-bound :
      (p : UdpPeer ch) (local addr : SocketAddrV4) (queue : SharedQueue ch)
      → receiver_of ch p local ≡ some (addr, queue)
      → p.bound addr ≡ some queue
  receiver-bound p local addr queue e =
      let wildcard : SocketAddrV4 = record { ip = unspecified; port = local.port } in
      elim (Option-cases (p.bound local)) [
        | inl none_here ↦ elim (Option-cases (p.bound wildcard)) [
          | inl nobody ↦ absurd (ground (arith, none_here, nobody, e))
          | inr (q, there) ↦
              let at : wildcard ≡ addr = ground (arith, none_here, there, e) in
              let same : q ≡ queue = ground (arith, none_here, there, e) in
              subst (λ a. p.bound a ≡ some queue) at (there ∙ ap some same)
        ]
        | inr (q, here) ↦
            let at : local ≡ addr = ground (arith, here, e) in
            let same : q ≡ queue = ground (arith, here, e) in
            subst (λ a. p.bound a ≡ some queue) at (here ∙ ap some same)
      ]

  receive_parsed-IsConsistent :
      (ipv4_hdr : Ipv4Header) (hdr : UdpHeader) (bytes : List ℕ) (p p' : UdpPeer ch)
      (result : Result (Unit {0}))
      → IsConsistent p
      → receive_parsed ch ipv4_hdr hdr bytes p ≡ some (result, p')
      → IsConsistent p'
  unfolding receive_parsed
  receive_parsed-IsConsistent ipv4_hdr hdr bytes p p' result c done =
      let local : SocketAddrV4 = record { ip = ipv4_hdr.dst_addr; port = hdr.dest_port } in
      let remote : SocketAddrV4 = record { ip = ipv4_hdr.src_addr; port = hdr.src_port } in
      elim (Option-cases (receiver_of ch p local)) [
        | inl nobody ↦ let same : p ≡ p' = ground (arith, nobody, done) in subst IsConsistent same c
        | inr ((addr, queue), found) ↦
            let slot : SharedQueueSlot = record { local = local; remote = remote; bytes = bytes } in
            let e : deliver ch addr queue slot p ≡ some (result, p') =
              ground (arith, found, done) in
            deliver-IsConsistent addr queue slot p p' result c
              (receiver-bound p local addr queue found) e
      ]

  handle-IsConsistent :
      (event : Event) (p p' : UdpPeer ch)
      → IsConsistent p
      → handle ch event p ≡ some p'
      → IsConsistent p'
  unfolding handle
  handle-IsConsistent (socket qd) p p' c e =
      subst IsConsistent (ground (arith, e)) (do_socket-IsConsistent qd p c)
  handle-IsConsistent (bind qd addr) p p' c e =
      subst IsConsistent (ground (arith, e)) (do_bind-IsConsistent p qd addr c)
  handle-IsConsistent (close qd) p p' c e =
      subst IsConsistent (ground (arith, e)) (do_close-IsConsistent qd p c)
  handle-IsConsistent (datagram ipv4_hdr hdr bytes) p p' c e =
      let ((result, p1), received, rest) =
        >>=-eq_some (receive_parsed ch ipv4_hdr hdr bytes p) _ e in
      let same : p1 ≡ p' = ground (arith, rest) in
      receive_parsed-IsConsistent ipv4_hdr hdr bytes p p' result c
        (received ∙ ap (λ q. some (result, q)) same)

  -- Calls of `do_socket`, `do_bind` and `do_close` and datagrams that `do_receive` has parsed, in any
  -- order and with any outcome, keep a UDP peer consistent: every bound socket has a queue, no two
  -- sockets have one address, and no port of the pool is in use, in the pool twice or not private.
  pub run-IsConsistent :
      (events : List Event) (p p' : UdpPeer ch)
      → IsConsistent p
      → run ch events p ≡ some p'
      → IsConsistent p'
  unfolding run
  run-IsConsistent [] p p' c e = subst IsConsistent (ground (arith, e)) c
  run-IsConsistent (event ∷ events) p p' c e =
      let (p1, handled, rest) = >>=-eq_some (handle ch event p) _ e in
      run-IsConsistent events p1 p' (handle-IsConsistent event p p1 c handled) rest
