-- ===== src/Udp/Peer/Laws.antt =====
-- The sockets, the bound addresses and the pool of ports of a UDP peer stay consistent.
pub mod Ports
pub mod Bind
pub mod Calls
use capybara.Base.{
  ℕ, ◌+◌, ◌≤◌, ◌<◌, ◌≡◌, ◌≢◌, ◌⊎◌, inl, inr, refl, sym, ap, ◌∙◌, arith, List, [], ◌∷◌, ◌++◌, Bool,
  true, false, ◌==◌, ==_iff, ==_refl, Bool-cases, Option-cases, if◌then◌else◌, Option, none, some,
  Errno, Result, fail,
}
use mathlib.Core.Path.{subst}
use capybara.Base.Fallible.{ok, err}
use capybara.EphemeralPorts.{EphemeralPorts, contains, is_private, alloc_port, alloc_any, free}
use capybara.EphemeralPorts.Laws.{
  Distinct, Draws, alloc_port-Draws, alloc_any-Draws, contains-append, append-Distinct,
}
use capybara.Udp.Peer.{
  SharedQueueSlot, Sockets, set_socket, UdpPeer, do_socket, choose_port, register, bind_free,
  do_bind, unbind, do_close, do_pop,
}
use capybara.Udp.Queue.{Channel, SharedQueue}
use capybara.Wire.{SocketAddrV4, addr_eq, addr_eq_iff}
use capybara.Wire.Addrs.{
  AddrMap, insert, remove, insert-same, insert-other, remove-same, remove-other, addr_cases,
}

pub set_socket-same :
    (qd : ℕ) (s : Option (Option SocketAddrV4)) (m : Sockets) → set_socket qd s m qd ≡ s
set_socket-same qd s m = rw (==_refl qd) refl

pub number_cases : (a b : ℕ) → (a ≡ b) ⊎ ((a == b) ≡ false)
number_cases a b = elim (Bool-cases (a == b)) [
  | inl same ↦ inl ((==_iff a b).0 same)
  | inr other ↦ inr other
]

pub set_socket-other :
    (qd k : ℕ) (s : Option (Option SocketAddrV4)) (m : Sockets)
    → (qd == k) ≡ false
    → set_socket qd s m k ≡ m k
set_socket-other qd k s m other = rw other refl

module _ {ch : Channel SharedQueueSlot} where
  -- Every bound socket has a queue of its own, and no address of a port that is in the pool is bound.
  -- The pool has no port twice, and only private ones.
  pub record IsConsistent (p : UdpPeer ch) : Type 0 where
    pub queued :
        (qd : ℕ) (addr : SocketAddrV4)
        → p.sockets qd ≡ some (some addr)
        → (q : SharedQueue ch) × (p.bound addr ≡ some q)
    pub single :
        (qd qd' : ℕ) (addr : SocketAddrV4)
        → p.sockets qd ≡ some (some addr)
        → p.sockets qd' ≡ some (some addr)
        → qd ≡ qd'
    pub pooled :
        (addr : SocketAddrV4)
        → contains addr.port p.ephemeral_ports.ports ≡ true
        → p.bound addr ≡ none
    pub private_pool :
        (port : ℕ) → contains port p.ephemeral_ports.ports ≡ true → is_private port ≡ true
    pub distinct : Distinct p.ephemeral_ports.ports

  -- A pool with fewer ports.
  pub smaller_pool :
      (p : UdpPeer ch) (e : EphemeralPorts)
      → IsConsistent p
      → ((y : ℕ) → contains y e.ports ≡ true → contains y p.ephemeral_ports.ports ≡ true)
      → Distinct e.ports
      → IsConsistent (record p { ephemeral_ports = e })
  smaller_pool p e c kept distinct = record {
    queued = c.queued;
    single = c.single;
    pooled = λ addr there. c.pooled addr (kept addr.port there);
    private_pool = λ port there. c.private_pool port (kept port there);
    distinct = distinct;
  }

  -- A descriptor that is not bound any more, or not yet.
  without_socket :
      (p : UdpPeer ch) (qd : ℕ) (s : Option (Option SocketAddrV4))
      → ((addr : SocketAddrV4) → s ≢ some (some addr))
      → IsConsistent p
      → IsConsistent (record p { sockets = set_socket qd s p.sockets })
  without_socket p qd s unbound c =
      let old : (k : ℕ) (addr : SocketAddrV4)
          → set_socket qd s p.sockets k ≡ some (some addr)
          → p.sockets k ≡ some (some addr) =
        λ k addr is. elim (number_cases qd k) [
          | inl same ↦ absurd (
              unbound addr (
                sym (set_socket-same qd s p.sockets)
                ∙ subst (λ j. set_socket qd s p.sockets j ≡ some (some addr)) (sym same) is))
          | inr other ↦ sym (set_socket-other qd k s p.sockets other) ∙ is
        ] in
      record {
        queued = λ k addr is. c.queued k addr (old k addr is);
        single = λ k k' addr is is'. c.single k k' addr (old k addr is) (old k' addr is');
        pooled = c.pooled;
        private_pool = c.private_pool;
        distinct = c.distinct;
      }

  -- What a call leaves is consistent.
  abbrev pub Leaves : Result (Unit {0}) × UdpPeer ch → Type 0
  Leaves r = IsConsistent r.1

  pub do_socket-IsConsistent :
      (qd : ℕ) (p : UdpPeer ch) → IsConsistent p → IsConsistent (do_socket ch qd p).1
  unfolding do_socket
  do_socket-IsConsistent qd p c = elim (Option-cases (p.sockets qd)) [
    | inl new ↦
        let p' : UdpPeer ch = record p { sockets = set_socket qd (some none) p.sockets } in
        let e : do_socket ch qd p ≡ (ok tt, p') = ground (arith, new) in
        subst Leaves (sym e) (without_socket p qd (some none) (λ addr e. cc e) c)
    | inr (s, used) ↦
        let e : do_socket ch qd p ≡ (fail Errno.eexist "queue descriptor in use", p) =
          ground (arith, used) in
        subst Leaves (sym e) c
  ]

  -- A socket that is closed, with its binding.
  closed_bound :
      (p : UdpPeer ch) (qd : ℕ) (local : SocketAddrV4)
      → p.sockets qd ≡ some (some local)
      → IsConsistent p
      → IsConsistent
          (record p { sockets = set_socket qd none p.sockets; bound = remove local p.bound })
  closed_bound p qd local is c =
      let old : (k : ℕ) (addr : SocketAddrV4)
          → set_socket qd none p.sockets k ≡ some (some addr)
          → ((qd == k) ≡ false) × (p.sockets k ≡ some (some addr)) =
        λ k addr there. elim (number_cases qd k) [
          | inl same ↦ absurd (
              cc (
                set_socket-same qd none p.sockets,
                subst (λ j. set_socket qd none p.sockets j ≡ some (some addr)) (sym same) there,
              ))
          | inr other ↦ (other, sym (set_socket-other qd k none p.sockets other) ∙ there)
        ] in
      record {
        queued = λ k addr there.
            let (other, was) = old k addr there in
            let (q, queue) = c.queued k addr was in
            elim (addr_cases local addr) [
              | inl same ↦
                  let one = c.single qd k addr (is ∙ ap (λ a. some (some a)) same) was in
                  absurd (cc ((==_iff qd k).1 one, other))
              | inr apart ↦ (q, remove-other local addr p.bound apart ∙ queue)
            ];
        single = λ k k' addr there there'.
            c.single k k' addr (old k addr there).1 (old k' addr there').1;
        pooled = λ addr there. elim (addr_cases local addr) [
          | inl same ↦ subst (λ a. remove local p.bound a ≡ none) same (remove-same local p.bound)
          | inr apart ↦ remove-other local addr p.bound apart ∙ c.pooled addr there
        ];
        private_pool = c.private_pool;
        distinct = c.distinct;
      }

  unbind-Leaves :
      (p : UdpPeer ch) (qd : ℕ) (socket : Option SocketAddrV4)
      → p.sockets qd ≡ some socket
      → IsConsistent p
      → Leaves (unbind ch socket (record p { sockets = set_socket qd none p.sockets }))
  unfolding unbind
  unbind-Leaves p qd none is c = without_socket p qd none (λ addr e. cc e) c
  unbind-Leaves p qd (some local) is c =
      let (q, queue) = c.queued qd local is in
      let p' : UdpPeer ch = record p {
        sockets = set_socket qd none p.sockets;
        bound = remove local p.bound;
      } in
      let e : unbind ch (some local) (record p { sockets = set_socket qd none p.sockets })
          ≡ (ok tt, p') =
        ground (arith, queue) in
      subst Leaves (sym e) (closed_bound p qd local is c)

  pub do_close-IsConsistent :
      (qd : ℕ) (p : UdpPeer ch) → IsConsistent p → IsConsistent (do_close ch qd p).1
  unfolding do_close
  do_close-IsConsistent qd p c = elim (Option-cases (p.sockets qd)) [
    | inl new ↦
        let e : do_close ch qd p ≡ (fail Errno.ebadf "invalid queue descriptor", p) =
          ground (arith, new) in
        subst Leaves (sym e) c
    | inr (socket, is) ↦
        let e : do_close ch qd p
            ≡ unbind ch socket (record p { sockets = set_socket qd none p.sockets }) =
          ground (arith, is) in
        subst Leaves (sym e) (unbind-Leaves p qd socket is c)
  ]
