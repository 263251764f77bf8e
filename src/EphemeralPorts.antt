-- ===== src/EphemeralPorts.antt =====
-- The pool of ephemeral ports, inetstack/protocols/ip/ephemeral.rs.
pub mod Laws
use capybara.Base.{
  ℕ, ◌+◌, ◌-◌, List, [], ◌∷◌, ◌++◌, Bool, true, false, ◌==◌, ◌||◌, leb, zero, suc, if◌then◌else◌,
  Option, none, some, Errno, Result, fail,
}
use capybara.Base.Fallible.{ok}

abbrev pub first_private_port : ℕ
first_private_port = 49152

abbrev pub last_private_port : ℕ
last_private_port = 65535

-- `EphemeralPorts`, whose vector is the list of its ports.
pub record EphemeralPorts : Type 0 where
  pub ports : List ℕ

-- `for port in first..first + count`.
unfoldable pub range : ℕ → ℕ → List ℕ
range zero first = []
range (suc count) first = first ∷ range count (first + 1)

-- `EphemeralPorts::new`, with the permutation that `shuffle` makes of a vector, and the number in
-- the variable `CORE_ID`, if it is set.
unfoldable pub new : (List ℕ → List ℕ) → Option ℕ → EphemeralPorts
new shuffle core_id =
    let ports = shuffle (range (last_private_port - first_private_port) first_private_port) in
    record { ports = elim core_id [ none ↦ ports | some id ↦ ports ++ ((9999 + id) ∷ []) ] }

-- `EphemeralPorts::is_private`.
abbrev pub is_private : ℕ → Bool
is_private port = leb first_private_port port

-- `Vec::pop`: the last element, and the others.
unfoldable pub pop_last : List ℕ → Option (ℕ × List ℕ)
pop_last [] = none
pop_last (p ∷ ports) = elim (pop_last ports) [
  | none ↦ some (p, [])
  | some (last, others) ↦ some (last, p ∷ others)
]

-- `Vec::contains`, and `retain` of all that are not the port.
unfoldable pub contains : ℕ → List ℕ → Bool
contains port [] = false
contains port (p ∷ ports) = p == port || contains port ports

unfoldable pub retain_other : ℕ → List ℕ → List ℕ
retain_other port [] = []
retain_other port (p ∷ ports) =
    let rest = retain_other port ports in if p == port then rest else p ∷ rest

-- `EphemeralPorts::alloc_any`.
unfoldable pub alloc_any : EphemeralPorts → Result (ℕ × EphemeralPorts)
alloc_any e = elim (pop_last e.ports) [
  | some (port, others) ↦ ok (port, record { ports = others })
  | none ↦ fail Errno.eaddrinuse "all port numbers in the ephemeral port range are currently in use"
]

-- `EphemeralPorts::alloc_port`.
unfoldable pub alloc_port : ℕ → EphemeralPorts → Result EphemeralPorts
alloc_port port e =
    if contains port e.ports
    then ok (record { ports = retain_other port e.ports })
    else fail Errno.enoent "port number not found"

-- `EphemeralPorts::free`.
abbrev pub free : ℕ → EphemeralPorts → EphemeralPorts
free port e = record { ports = e.ports ++ (port ∷ []) }
