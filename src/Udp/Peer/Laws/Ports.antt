-- ===== src/Udp/Peer/Laws/Ports.antt =====
-- The choice of a port by a bind, inetstack/protocols/udp/peer.rs.
use capybara.Base.{ℕ, ◌≡◌, ◌⊎◌, inl, inr, refl, arith, List, true, false, ◌==◌, Bool-cases, Result}
use mathlib.Core.Path.{subst}
use capybara.Base.Fallible.{ok, err}
use capybara.EphemeralPorts.{EphemeralPorts, contains, is_private, alloc_port, alloc_any}
use capybara.EphemeralPorts.Laws.{Distinct, Draws, alloc_port-Draws, alloc_any-Draws}
use capybara.Udp.Peer.{choose_port}

-- The port that a bind to `port` takes: what is left of the pool has only ports that were there, and
-- not this one; the port was in the pool, or it is `port` itself and not private.
pub record Chooses (ports : List ℕ) (port chosen : ℕ) (left : List ℕ) : Type 0 where
  pub kept : (y : ℕ) → contains y left ≡ true → contains y ports ≡ true
  pub gone : contains chosen left ≡ false
  pub distinct : Distinct left
  pub source : (contains chosen ports ≡ true) ⊎ ((chosen ≡ port) × (is_private chosen ≡ false))

drawn-Chooses :
    (ports : List ℕ) (port chosen : ℕ) (left : List ℕ)
    → Draws ports chosen left
    → Chooses ports port chosen left
drawn-Chooses ports port chosen left d = record {
  kept = d.kept;
  gone = d.gone;
  distinct = d.distinct;
  source = inl d.was;
}

contains_cases :
    (port : ℕ) (ports : List ℕ) → (contains port ports ≡ true) ⊎ (contains port ports ≡ false)
contains_cases port ports = Bool-cases (contains port ports)

Alloc-cases :
    (r : Result EphemeralPorts) → ((e : EphemeralPorts) × (r ≡ ok e)) ⊎ ((f : _) × (r ≡ err f))
Alloc-cases (ok e) = inl (e, refl)
Alloc-cases (err f) = inr (f, refl)

pub choose_port-Chooses :
    (port chosen : ℕ) (e e' : EphemeralPorts)
    → Distinct e.ports
    → ((y : ℕ) → contains y e.ports ≡ true → is_private y ≡ true)
    → choose_port port e ≡ ok (chosen, e')
    → Chooses e.ports port chosen e'.ports
unfolding choose_port
choose_port-Chooses port chosen e e' d only done = elim (Bool-cases (is_private port)) [
  | inl private ↦ elim (Alloc-cases (alloc_port port e)) [
    | inl (e1, drawn) ↦
        let same_port : port ≡ chosen = ground (arith, private, drawn, done) in
        let same : e1 ≡ e' = ground (arith, private, drawn, done) in
        subst (λ q. Chooses e.ports port q e'.ports) same_port
          (subst (λ q. Chooses e.ports port port q.ports) same
            (drawn-Chooses e.ports port port e1.ports (alloc_port-Draws port e e1 d drawn)))
    | inr (f, refused) ↦ absurd (ground (arith, private, refused, done))
  ]
  | inr open_port ↦ elim (Bool-cases (port == 0)) [
    | inl any ↦
        let drawn : alloc_any e ≡ ok (chosen, e') = ground (arith, open_port, any, done) in
        drawn-Chooses e.ports port chosen e'.ports (alloc_any-Draws chosen e e' d drawn)
    | inr given ↦
        let same_port : port ≡ chosen = ground (arith, open_port, given, done) in
        let same : e ≡ e' = ground (arith, open_port, given, done) in
        subst (λ q. Chooses e.ports port q e'.ports) same_port
          (subst (λ q. Chooses e.ports port port q.ports) same
            (record {
              kept = λ y h. h;
              gone = elim (contains_cases port e.ports) [
                | inl there ↦ absurd (cc (only port there, open_port))
                | inr missing ↦ missing
              ];
              distinct = d;
              source = inr (refl, open_port);
            }))
  ]
]
