-- ===== src/Udp/Peer/Laws/Bind.antt =====
-- A bind, and sequences of calls, keep the consistency of a UDP peer.
use capybara.Base.{
  ℕ, ◌≡◌, ◌≢◌, ◌⊎◌, inl, inr, refl, sym, ap, ◌∙◌, arith, true, false, Bool-cases, Option-cases,
  Option, none, some, Errno, Result, fail,
}
use mathlib.Core.Path.{subst}
use capybara.Base.Fallible.{ok, err}
use capybara.EphemeralPorts.{EphemeralPorts, contains, is_private, free}
use capybara.EphemeralPorts.Laws.{contains-append, append-Distinct}
use capybara.Udp.Peer.{
  SharedQueueSlot, set_socket, UdpPeer, choose_port, register, bind_free, do_bind,
  recv_queue_max_size,
}
use capybara.Udp.Peer.Laws.{
  IsConsistent, smaller_pool, Leaves, set_socket-same, set_socket-other, number_cases,
}
use capybara.Udp.Queue
use capybara.Udp.Queue.{Channel, SharedQueue}
use capybara.Wire.{SocketAddrV4}
use capybara.Wire.Addrs.{insert, insert-same, insert-other, addr_cases}
use capybara.Udp.Peer.Laws.Ports.{Chooses, choose_port-Chooses}

Chosen-cases :
    (r : Result (ℕ × EphemeralPorts))
    → ((port : ℕ) × (e : EphemeralPorts) × (r ≡ ok (port, e))) ⊎ ((f : _) × (r ≡ err f))
Chosen-cases (ok (port, e)) = inl (port, e, refl)
Chosen-cases (err f) = inr (f, refl)

module _ {ch : Channel SharedQueueSlot} where
  -- The peer after the choice of a port is consistent, and the address is not bound.
  chosen_unbound :
      (p : UdpPeer ch) (addr : SocketAddrV4) (chosen : ℕ) (e : EphemeralPorts)
      → IsConsistent p
      → p.bound addr ≡ none
      → Chooses p.ephemeral_ports.ports addr.port chosen e.ports
      → p.bound (record addr { port = chosen }) ≡ none
  chosen_unbound p addr chosen e c unbound h = elim h.source [
    | inl was ↦ c.pooled (record addr { port = chosen }) was
    | inr (same, open_port) ↦
        subst (λ q. p.bound (record addr { port = q }) ≡ none) (sym same) unbound
  ]

  -- The rollback of a bind.
  rolled_back :
      (p : UdpPeer ch) (addr : SocketAddrV4) (chosen : ℕ) (e : EphemeralPorts)
      → IsConsistent p
      → is_private chosen ≡ true
      → Chooses p.ephemeral_ports.ports addr.port chosen e.ports
      → IsConsistent (record p { ephemeral_ports = free chosen e })
  rolled_back p addr chosen e c private h =
      let was : contains chosen p.ephemeral_ports.ports ≡ true = elim h.source [
        | inl was ↦ was
        | inr (same, open_port) ↦ absurd (cc (private, open_port))
      ] in
      smaller_pool p (free chosen e) c
        (λ y there. elim (contains-append e.ports chosen y there) [
          | inl left ↦ h.kept y left
          | inr same ↦ subst (λ q. contains q p.ephemeral_ports.ports ≡ true) same was
        ])
        (append-Distinct e.ports chosen h.distinct h.gone)

  -- A socket that is bound to an address that nothing is bound to.
  bound_new :
      (p : UdpPeer ch) (qd : ℕ) (local : SocketAddrV4) (queue : SharedQueue ch)
      → IsConsistent p
      → p.bound local ≡ none
      → contains local.port p.ephemeral_ports.ports ≡ false
      → IsConsistent (record p {
        sockets = set_socket qd (some (some local)) p.sockets;
        bound = insert local queue p.bound;
      })
  bound_new p qd local queue c unbound gone =
      let at : (k : ℕ) (addr : SocketAddrV4)
          → set_socket qd (some (some local)) p.sockets k ≡ some (some addr)
          → ((qd ≡ k) × (local ≡ addr)) ⊎ (p.sockets k ≡ some (some addr)) =
        λ k addr there. elim (number_cases qd k) [
          | inl same ↦
              let there' =
                subst (λ j. set_socket qd (some (some local)) p.sockets j ≡ some (some addr))
                  (sym same) there in
              inl (same, cc (set_socket-same qd (some (some local)) p.sockets, there'))
          | inr other ↦
              inr (sym (set_socket-other qd k (some (some local)) p.sockets other) ∙ there)
        ] in
      let never : (k : ℕ) → p.sockets k ≢ some (some local) =
        λ k is. let (q, there) = c.queued k local is in cc (unbound, there) in
      record {
        queued = λ k addr there. elim (at k addr there) [
          | inl (same, is) ↦ (
            queue,
            subst (λ a. insert local queue p.bound a ≡ some queue) is
                (insert-same local queue p.bound),
          )
          | inr was ↦
              let (q, old) = c.queued k addr was in
              elim (addr_cases local addr) [
                | inl same ↦ absurd (never k (was ∙ ap (λ a. some (some a)) (sym same)))
                | inr apart ↦ (q, insert-other local addr queue p.bound apart ∙ old)
              ]
        ];
        single = λ k k' addr there there'. elim (at k addr there) [
          | inl (same, is) ↦ elim (at k' addr there') [
            | inl (same', is') ↦ sym same ∙ same'
            | inr was' ↦ absurd (never k' (was' ∙ ap (λ a. some (some a)) (sym is)))
          ]
          | inr was ↦ elim (at k' addr there') [
            | inl (same', is') ↦ absurd (never k (was ∙ ap (λ a. some (some a)) (sym is')))
            | inr was' ↦ c.single k k' addr was was'
          ]
        ];
        pooled = λ addr there. elim (addr_cases local addr) [
          | inl same ↦ absurd (cc (ap (λ (a : SocketAddrV4). a.port) same, there, gone))
          | inr apart ↦ insert-other local addr queue p.bound apart ∙ c.pooled addr there
        ];
        private_pool = c.private_pool;
        distinct = c.distinct;
      }

  register-Leaves :
      (p : UdpPeer ch) (qd : ℕ) (addr : SocketAddrV4) (chosen : ℕ) (e : EphemeralPorts)
      (socket : Option (Option SocketAddrV4))
      → IsConsistent p
      → p.bound addr ≡ none
      → Chooses p.ephemeral_ports.ports addr.port chosen e.ports
      → Leaves
          (register ch socket qd (record addr { port = chosen }) (record p { ephemeral_ports = e }))
  unfolding register
  register-Leaves p qd addr chosen e (some none) c unbound h =
      let local : SocketAddrV4 = record addr { port = chosen } in
      let p1 : UdpPeer ch = record p { ephemeral_ports = e } in
      let new = chosen_unbound p addr chosen e c unbound h in
      let queue = Queue.new ch recv_queue_max_size in
      let p2 : UdpPeer ch = record p1 {
        sockets = set_socket qd (some (some local)) p1.sockets;
        bound = insert local queue p1.bound;
      } in
      let done : register ch (some none) qd local p1 ≡ (ok tt, p2) = ground (arith, new) in
      subst Leaves (sym done)
        (bound_new p1 qd local queue (smaller_pool p e c h.kept h.distinct) new h.gone)
  register-Leaves p qd addr chosen e none c unbound h = elim (Bool-cases (is_private chosen)) [
    | inl private ↦ rw private (rolled_back p addr chosen e c private h)
    | inr open_port ↦ rw open_port (smaller_pool p e c h.kept h.distinct)
  ]
  register-Leaves p qd addr chosen e (some (some old)) c unbound h =
      elim (Bool-cases (is_private chosen)) [
        | inl private ↦ rw private (rolled_back p addr chosen e c private h)
        | inr open_port ↦ rw open_port (smaller_pool p e c h.kept h.distinct)
      ]

  bind_free-Leaves :
      (p : UdpPeer ch) (qd : ℕ) (addr : SocketAddrV4)
      → IsConsistent p
      → p.bound addr ≡ none
      → Leaves (bind_free ch qd addr p)
  unfolding bind_free
  bind_free-Leaves p qd addr c unbound =
      elim (Chosen-cases (choose_port addr.port p.ephemeral_ports)) [
        | inl (port, e, chosen) ↦
            let h =
              choose_port-Chooses addr.port port p.ephemeral_ports e c.distinct c.private_pool
                chosen in
            let local : SocketAddrV4 = record addr { port = port } in
            let p1 : UdpPeer ch = record p { ephemeral_ports = e } in
            let done : bind_free ch qd addr p ≡ register ch (p.sockets qd) qd local p1 =
              ground (arith, chosen) in
            subst Leaves (sym done) (register-Leaves p qd addr port e (p.sockets qd) c unbound h)
        | inr (f, refused) ↦
            let done : bind_free ch qd addr p ≡ (err f, p) = ground (arith, refused) in
            subst Leaves (sym done) c
      ]

  pub do_bind-IsConsistent :
      (p : UdpPeer ch) (qd : ℕ) (addr : SocketAddrV4)
      → IsConsistent p
      → IsConsistent (do_bind ch qd addr p).1
  unfolding do_bind
  do_bind-IsConsistent p qd addr c = elim (Option-cases (p.bound addr)) [
    | inl unbound ↦
        let done : do_bind ch qd addr p ≡ bind_free ch qd addr p = ground (arith, unbound) in
        subst Leaves (sym done) (bind_free-Leaves p qd addr c unbound)
    | inr (q, used) ↦
        let done : do_bind ch qd addr p ≡ (fail Errno.eaddrinuse "address in use", p) =
          ground (arith, used) in
        subst Leaves (sym done) c
  ]
