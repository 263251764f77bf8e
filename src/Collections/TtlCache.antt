-- ===== src/Collections/TtlCache.antt =====
-- The cache of inetstack/collections/hashttlcache/mod.rs. A `HashMap` is a function from keys; `none`
-- is a panic.
pub mod Laws
mod Tests
use capybara.Base.{ℕ, ◌+◌, ◌≡◌, ◌↔◌, Bool, true, false, leb, ltb, if◌then◌else◌, Option, none, some}
use mathlib.Core.Option
use capybara.Base.Panic.{require, ◌>>=◌, ◌>>◌}

-- `Eq` of the keys.
pub record KeyEq (K : Type 0) : Type 0 where
  pub eq : K → K → Bool
  pub eq_iff : (a b : K) → (eq a b ≡ true) ↔ (a ≡ b)

-- `Record`.
pub record Record (V : Type 0) : Type 0 where
  pub value : V
  pub expiration : Option ℕ

-- `HashTtlCache`, with times as numbers.
pub record HashTtlCache (K V : Type 0) : Type 0 where
  pub map : K → Option (Record V)
  pub graveyard : K → Option V
  pub default_ttl : Option ℕ
  pub clock : ℕ

-- `assert!(ttl > Duration::new(0, 0))`, of a time to live that is given.
abbrev pub check_ttl : Option ℕ → Option (Unit {0})
check_ttl none = some tt
check_ttl (some ttl) = require (ltb 0 ttl)

-- `ttl.map(|ttl| ... self.clock + ttl)`.
abbrev pub expiration_at : ℕ → Option ℕ → Option ℕ
expiration_at clock none = none
expiration_at clock (some ttl) = some (clock + ttl)

module _ {V : Type 0} where
  -- `Record::has_expired`.
  abbrev pub has_expired : Record V → ℕ → Bool
  has_expired r now = elim r.expiration [ some e ↦ leb e now | none ↦ false ]

  -- An entry that has not expired.
  abbrev pub living : ℕ → Option (Record V) → Option (Record V)
  living now none = none
  living now (some r) = if has_expired r now then none else some r

  -- The value of an entry that has.
  abbrev pub dead : ℕ → Option (Record V) → Option V → Option V
  dead now none buried = buried
  dead now (some r) buried = if has_expired r now then some r.value else buried

  abbrev pub value_of : Option (Record V) → Option V
  value_of none = none
  value_of (some r) = some r.value

module _ {K V : Type 0} where
  -- `HashTtlCache::new`.
  unfoldable pub new : ℕ → Option ℕ → Option (HashTtlCache K V)
  new now default_ttl =
      check_ttl default_ttl
      >> some (record {
        map = λ k. none;
        graveyard = λ k. none;
        default_ttl = default_ttl;
        clock = now;
      })

  -- `HashTtlCache::clear`.
  abbrev pub clear : HashTtlCache K V → HashTtlCache K V
  clear c = record c { map = λ k. none; graveyard = λ k. none }

  -- `HashTtlCache::advance_clock`.
  unfoldable pub advance_clock : ℕ → HashTtlCache K V → Option (HashTtlCache K V)
  advance_clock now c = require (leb c.clock now) >> some (record c { clock = now })

  -- `HashTtlCache::cleanup`: the dead entries go to the graveyard, in whatever order.
  abbrev pub cleanup : HashTtlCache K V → HashTtlCache K V
  cleanup c = record c {
    map = λ k. living c.clock (c.map k);
    graveyard = λ k. dead c.clock (c.map k) (c.graveyard k);
  }

  -- `HashTtlCache::get`.
  abbrev pub get : K → HashTtlCache K V → Option V
  get k c = value_of (c.map k)

  -- What `HashTtlCache::iter` yields for a key.
  abbrev pub listed : K → HashTtlCache K V → Option V
  listed k c = value_of (living c.clock (c.map k))

  module _ (keys : KeyEq K) where
    abbrev pub put : K → Record V → (K → Option (Record V)) → K → Option (Record V)
    put k r m j = if keys.eq k j then some r else m j

    -- `HashTtlCache::insert_with_ttl`: the old value, and the cache.
    unfoldable pub insert_with_ttl :
        K → V → Option ℕ → HashTtlCache K V → Option (Option V × HashTtlCache K V)
    insert_with_ttl k v ttl c =
        check_ttl ttl
        >> (let cleaned = cleanup c in
            let r : Record V = record { value = v; expiration = expiration_at c.clock ttl } in
            some (value_of (cleaned.map k), record cleaned { map = put k r cleaned.map }))

    -- `HashTtlCache::insert`.
    abbrev pub insert : K → V → HashTtlCache K V → Option (Option V × HashTtlCache K V)
    insert k v c = insert_with_ttl k v c.default_ttl c
