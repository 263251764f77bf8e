-- ===== src/EphemeralPorts/Laws.antt =====
-- What an allocation does to the pool: it draws a port.
use capybara.Base.{
  ℕ, ◌≡◌, ◌⊎◌, inl, inr, refl, sym, ap, ◌∙◌, arith, List, [], ◌∷◌, ◌++◌, Bool, true, false, ◌==◌,
  ==_iff, ==_refl, Bool-cases, Option-cases, some, Errno, fail,
}
use mathlib.Core.Path.{subst}
use capybara.Base.Fallible.{ok}
use capybara.EphemeralPorts.{
  EphemeralPorts, contains, retain_other, alloc_port, alloc_any, pop_last,
}

abbrev pub Distinct : List ℕ → Type 0
Distinct [] = Unit
Distinct (p ∷ ports) = (contains p ports ≡ false) × Distinct ports

-- `port` is drawn from `ports`, and `left` is left.
pub record Draws (ports : List ℕ) (port : ℕ) (left : List ℕ) : Type 0 where
  pub kept : (y : ℕ) → contains y left ≡ true → contains y ports ≡ true
  pub was : contains port ports ≡ true
  pub gone : contains port left ≡ false
  pub distinct : Distinct left

not_both : (b : Bool) → (b ≡ true → false ≡ true) → b ≡ false
not_both true h = sym (h refl)
not_both false h = refl

retain_other-gone : (port : ℕ) (ports : List ℕ) → contains port (retain_other port ports) ≡ false
unfolding contains retain_other
retain_other-gone port [] = refl
retain_other-gone port (p ∷ ports) = elim (Bool-cases (p == port)) [
  | inl this ↦ rw this (retain_other-gone port ports)
  | inr other ↦ rw other (rw other (retain_other-gone port ports))
]

retain_other-kept :
    (port : ℕ) (ports : List ℕ) (y : ℕ)
    → contains y (retain_other port ports) ≡ true
    → contains y ports ≡ true
unfolding contains retain_other
retain_other-kept port [] y h = h
retain_other-kept port (p ∷ ports) y h = ground (arith, h, retain_other-kept port ports y)

retain_other-Distinct :
    (port : ℕ) (ports : List ℕ) → Distinct ports → Distinct (retain_other port ports)
unfolding retain_other
retain_other-Distinct port [] d = tt
retain_other-Distinct port (p ∷ ports) (new, d) = elim (Bool-cases (p == port)) [
  | inl this ↦ rw this (retain_other-Distinct port ports d)
  | inr other ↦ rw other (
    not_both (contains p (retain_other port ports))
        (λ there. sym new ∙ retain_other-kept port ports p there),
    retain_other-Distinct port ports d,
  )
]

pop_last-Draws :
    (ports : List ℕ) (port : ℕ) (others : List ℕ)
    → Distinct ports
    → pop_last ports ≡ some (port, others)
    → Draws ports port others
unfolding pop_last contains
pop_last-Draws [] port others d e = cc
pop_last-Draws (p ∷ ports) port others (new, d) e = elim (Option-cases (pop_last ports)) [
  | inl empty ↦
      let same_port : p ≡ port = ground (arith, empty, e) in
      let same : [] ≡ others = ground (arith, empty, e) in
      subst (λ q. Draws (p ∷ ports) q others) same_port
        (subst (Draws (p ∷ ports) p) same (record {
          kept = λ y h. cc h;
          was = ground (arith, ==_refl p);
          gone = refl;
          distinct = tt;
        }))
  | inr ((x, rest), popped) ↦
      let drawn = pop_last-Draws ports x rest d popped in
      let same_port : x ≡ port = ground (arith, popped, e) in
      let same : p ∷ rest ≡ others = ground (arith, popped, e) in
      subst (λ q. Draws (p ∷ ports) q others) same_port
        (subst (Draws (p ∷ ports) x) same (record {
          kept = λ y h. ground (arith, h, drawn.kept y);
          was = ground (arith, drawn.was);
          gone = elim (Bool-cases (p == x)) [
            | inl first ↦
                let e' : p ≡ x = (==_iff p x).0 first in
                absurd (cc (new, drawn.was, ap (λ q. contains q ports) e'))
            | inr other ↦ rw other drawn.gone
          ];
          distinct =
              (not_both (contains p rest) (λ there. sym new ∙ drawn.kept p there), drawn.distinct);
        }))
]

pub alloc_port-Draws :
    (port : ℕ) (e e' : EphemeralPorts)
    → Distinct e.ports
    → alloc_port port e ≡ ok e'
    → Draws e.ports port e'.ports
unfolding alloc_port
alloc_port-Draws port e e' d done = elim (Bool-cases (contains port e.ports)) [
  | inl there ↦
      let same : retain_other port e.ports ≡ e'.ports = ground (arith, there, done) in
      subst (Draws e.ports port) same (record {
        kept = retain_other-kept port e.ports;
        was = there;
        gone = retain_other-gone port e.ports;
        distinct = retain_other-Distinct port e.ports d;
      })
  | inr missing ↦ absurd (ground (arith, missing, done))
]

pub alloc_any-Draws :
    (port : ℕ) (e e' : EphemeralPorts)
    → Distinct e.ports
    → alloc_any e ≡ ok (port, e')
    → Draws e.ports port e'.ports
unfolding alloc_any
alloc_any-Draws port e e' d done = elim (Option-cases (pop_last e.ports)) [
  | inl empty ↦ absurd (ground (arith, empty, done))
  | inr ((x, others), popped) ↦
      let same_port : x ≡ port = ground (arith, popped, done) in
      let same : others ≡ e'.ports = ground (arith, popped, done) in
      subst (λ q. Draws e.ports q e'.ports) same_port
        (subst (Draws e.ports x) same (pop_last-Draws e.ports x others d popped))
]

-- A port that is given back.
pub contains-append :
    (ports : List ℕ) (port y : ℕ)
    → contains y (ports ++ (port ∷ [])) ≡ true
    → (contains y ports ≡ true) ⊎ (port ≡ y)
unfolding contains
contains-append [] port y h = inr (ground (arith, h))
contains-append (p ∷ ports) port y h = ground (arith, h, contains-append ports port y)

pub append-Distinct :
    (ports : List ℕ) (port : ℕ)
    → Distinct ports
    → contains port ports ≡ false
    → Distinct (ports ++ (port ∷ []))
unfolding contains
append-Distinct [] port d new = (refl, tt)
append-Distinct (p ∷ ports) port (first, d) new = (
  not_both (contains p (ports ++ (port ∷ [])))
      (λ there. ground (arith, new, first, contains-append ports port p there)),
  append-Distinct ports port d (ground (arith, new)),
)

pub alloc_port-missing :
    (port : ℕ) (e : EphemeralPorts)
    → contains port e.ports ≡ false
    → alloc_port port e ≡ fail Errno.enoent "port number not found"
unfolding alloc_port
alloc_port-missing port e missing = rw missing refl
