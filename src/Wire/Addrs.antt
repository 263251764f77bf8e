-- ===== src/Wire/Addrs.antt =====
-- `HashMap`s from socket addresses, as functions.
use capybara.Base.{
  ◌≡◌, ◌⊎◌, inl, inr, refl, true, false, Option, none, some, if◌then◌else◌, Bool-cases,
}
use capybara.Wire.{SocketAddrV4, addr_eq, addr_eq_iff}

-- `HashMap<SocketAddrV4, V>`.
abbrev pub AddrMap : Type 0 → Type 0
AddrMap V = SocketAddrV4 → Option V

abbrev pub insert : {V : Type 0} → SocketAddrV4 → V → AddrMap V → AddrMap V
insert k v m j = if addr_eq k j then some v else m j

abbrev pub remove : {V : Type 0} → SocketAddrV4 → AddrMap V → AddrMap V
remove k m j = if addr_eq k j then none else m j

addr_eq_refl : (x : SocketAddrV4) → addr_eq x x ≡ true
addr_eq_refl x = (addr_eq_iff x x).1 refl

pub insert-other :
    {V : Type 0} (j k : SocketAddrV4) (v : V) (m : AddrMap V)
    → addr_eq j k ≡ false
    → insert j v m k ≡ m k
insert-other j k v m other = rw other refl

pub insert-same : {V : Type 0} (k : SocketAddrV4) (v : V) (m : AddrMap V) → insert k v m k ≡ some v
insert-same k v m = rw (addr_eq_refl k) refl

pub remove-same : {V : Type 0} (k : SocketAddrV4) (m : AddrMap V) → remove k m k ≡ none
remove-same k m = rw (addr_eq_refl k) refl

-- An address is another one or the same.
pub addr_cases : (x y : SocketAddrV4) → (x ≡ y) ⊎ (addr_eq x y ≡ false)
addr_cases x y = elim (Bool-cases (addr_eq x y)) [
  | inl same ↦ inl ((addr_eq_iff x y).0 same)
  | inr other ↦ inr other
]

pub remove-other :
    {V : Type 0} (j k : SocketAddrV4) (m : AddrMap V) → addr_eq j k ≡ false → remove j m k ≡ m k
remove-other j k m other = rw other refl
