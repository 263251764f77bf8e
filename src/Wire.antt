-- ===== src/Wire.antt =====
-- What the headers on the wire are made of: addresses, and the third-party interfaces through
-- which the code reads and writes numbers.
pub mod Addrs
use capybara.Base.{
  Bool, true, ◌&&◌, ◌==◌, ◌↔◌, ℕ, ◌+◌, ◌*◌, ◌/◌, ◌%◌, ◌^◌, ◌<◌, ◌≡◌, refl, ◌∙◌, Option, some, arith,
}

-- `Ipv4Addr` of the standard library, as its four octets.
pub record Ipv4Addr : Type 0 where
  pub a : ℕ
  pub b : ℕ
  pub c : ℕ
  pub d : ℕ

abbrev pub IsAddr : Ipv4Addr → Type 0
IsAddr ip = (ip.a < 256) × (ip.b < 256) × (ip.c < 256) × (ip.d < 256)

-- `Ipv4Addr::from(u32)`.
abbrev pub ipv4_from_u32 : ℕ → Ipv4Addr
ipv4_from_u32 n = record {
  a = n / 2 ^ 24 % 256;
  b = n / 2 ^ 16 % 256;
  c = n / 2 ^ 8 % 256;
  d = n % 256;
}

pub record SocketAddrV4 : Type 0 where
  pub ip : Ipv4Addr
  pub port : ℕ

-- `MacAddress` of runtime/network/types/macaddr.rs.
pub record MacAddress : Type 0 where
  pub m0 : ℕ
  pub m1 : ℕ
  pub m2 : ℕ
  pub m3 : ℕ
  pub m4 : ℕ
  pub m5 : ℕ

-- `==` of addresses.
unfoldable pub ip_eq : Ipv4Addr → Ipv4Addr → Bool
ip_eq x y = (x.a == y.a) && ((x.b == y.b) && ((x.c == y.c) && (x.d == y.d)))

unfoldable pub mac_eq : MacAddress → MacAddress → Bool
mac_eq x y =
    (x.m0 == y.m0)
    && ((x.m1 == y.m1)
        && ((x.m2 == y.m2) && ((x.m3 == y.m3) && ((x.m4 == y.m4) && (x.m5 == y.m5)))))

unfoldable pub addr_eq : SocketAddrV4 → SocketAddrV4 → Bool
unfolding ip_eq
addr_eq x y = ip_eq x.ip y.ip && (x.port == y.port)

pub ip_eq_iff : (x y : Ipv4Addr) → (ip_eq x y ≡ true) ↔ (x ≡ y)
unfolding ip_eq
ip_eq_iff x y = (λ h. ground (arith, h), λ e. ground (arith, e))

pub addr_eq_iff : (x y : SocketAddrV4) → (addr_eq x y ≡ true) ↔ (x ≡ y)
unfolding addr_eq
addr_eq_iff x y =
    (λ h. ground (arith, h, ip_eq_iff x.ip y.ip), λ e. ground (arith, e, ip_eq_iff x.ip y.ip))

-- `NetworkEndian` (and `BigEndian`) of the `byteorder` crate: a number and the bytes of the slice
-- that it is read from or written to. The laws are the documented big-endian layout.
pub record NetworkEndian : Type 0 where
  pub read_u16 : ℕ → ℕ → ℕ
  pub read_u32 : ℕ → ℕ → ℕ → ℕ → ℕ
  pub write_u16 : ℕ → ℕ × ℕ
  pub write_u32 : ℕ → ℕ × ℕ × ℕ × ℕ
  pub read_u16_lem : (a b : ℕ) → a < 256 → b < 256 → read_u16 a b ≡ a * 256 + b
  pub read_u32_lem :
      (a b c d : ℕ)
      → a < 256
      → b < 256
      → c < 256
      → d < 256
      → read_u32 a b c d ≡ a * 2 ^ 24 + b * 2 ^ 16 + c * 2 ^ 8 + d
  pub write_u16_lem : (n : ℕ) → n < 2 ^ 16 → write_u16 n ≡ (n / 2 ^ 8, n % 2 ^ 8)
  pub write_u32_lem :
      (n : ℕ) → n < 2 ^ 32 → write_u32 n ≡ (n / 2 ^ 24, n / 2 ^ 16 % 256, n / 2 ^ 8 % 256, n % 256)

-- `#[derive(FromPrimitive)]` of the `num_traits` crate, on an enum with the discriminants `disc`.
pub record FromPrimitive {A : Type 0} (disc : A → ℕ) : Type 0 where
  pub from : ℕ → Option A
  pub from-disc : (a : A) → from (disc a) ≡ some a
  pub disc-from : (n : ℕ) (a : A) → from n ≡ some a → disc a ≡ n

-- Numbers survive the write and the read; bytes survive the read; and what is read fits its width.
module _ (ne : NetworkEndian) where
  open ne use {
    read_u16, read_u32, write_u16, write_u32, read_u16_lem, read_u32_lem, write_u16_lem,
    write_u32_lem,
  }

  pub read-write_u16 : (n : ℕ) → n < 2 ^ 16 → read_u16 (write_u16 n).0 (write_u16 n).1 ≡ n
  read-write_u16 n h =
      rw (write_u16_lem n h)
        (read_u16_lem (n / 2 ^ 8) (n % 2 ^ 8) (omega arith) (omega arith) ∙ omega arith)

  pub read-write_u32 : (n : ℕ) → n < 2 ^ 32 → let w = write_u32 n in read_u32 w.0 w.1 w.2 w.3 ≡ n
  read-write_u32 n h = rw (write_u32_lem n h) (
      read_u32_lem (n / 2 ^ 24) (n / 2 ^ 16 % 256) (n / 2 ^ 8 % 256) (n % 256) (omega arith)
        (omega arith) (omega arith) (omega arith)
      ∙ omega arith)

  pub write_u16_bytes : (n : ℕ) → n < 2 ^ 16 → ((write_u16 n).0 < 256) × ((write_u16 n).1 < 256)
  write_u16_bytes n h = rw (write_u16_lem n h) (omega arith)

  pub write_u32_bytes :
      (n : ℕ)
      → n < 2 ^ 32
      → let w = write_u32 n in (w.0 < 256) × (w.1 < 256) × (w.2 < 256) × (w.3 < 256)
  write_u32_bytes n h = rw (write_u32_lem n h) (omega arith)

  pub read_u16-lt : (a b : ℕ) → a < 256 → b < 256 → read_u16 a b < 2 ^ 16
  read_u16-lt a b h k = rw (read_u16_lem a b h k) (omega arith)

  -- An address is had back from its octets.
  pub read-addr : (ip : Ipv4Addr) → IsAddr ip → ipv4_from_u32 (read_u32 ip.a ip.b ip.c ip.d) ≡ ip
  read-addr ip h = rw (read_u32_lem ip.a ip.b ip.c ip.d h.0 h.1 h.2 h.3) (ground arith)

-- The interface can be met.
abbrev pub big_endian : NetworkEndian
big_endian = record {
  read_u16 = λ a b. a * 256 + b;
  read_u32 = λ a b c d. a * 2 ^ 24 + b * 2 ^ 16 + c * 2 ^ 8 + d;
  write_u16 = λ n. (n / 2 ^ 8, n % 2 ^ 8);
  write_u32 = λ n. (n / 2 ^ 24, n / 2 ^ 16 % 256, n / 2 ^ 8 % 256, n % 256);
  read_u16_lem = λ a b h k. refl;
  read_u32_lem = λ a b c d h k l m. refl;
  write_u16_lem = λ n h. refl;
  write_u32_lem = λ n h. refl;
}
