-- ===== src/Collections/TtlCache/Tests.antt =====
-- A cache of numbers.
use capybara.Base.{ℕ, ◌≡◌, refl, ◌==◌, ==_iff, none, some, if◌then◌else◌}
use capybara.Collections.TtlCache.{KeyEq, HashTtlCache, get, listed, insert_with_ttl}
use capybara.Collections.TtlCache.Laws.{insert_with_ttl-listed}

abbrev numbers : KeyEq ℕ
numbers = record { eq = λ a b. a == b; eq_iff = ==_iff }

-- The entry of 1 has expired, that of 2 has not.
abbrev cache : HashTtlCache ℕ ℕ
cache = record {
  map = λ k.
      if k == 1
      then some (record { value = 10; expiration = some 4 })
      else if k == 2
      then some (record { value = 20; expiration = some 9 })
      else none;
  graveyard = λ k. none;
  default_ttl = some 3;
  clock = 5;
}

insert_with_ttl-listed_example :
    (c' : HashTtlCache ℕ ℕ) × (insert_with_ttl numbers 1 11 (some 3) cache ≡ some (none, c'))
    × (listed 2 c' ≡ some 20)
    × (get 2 c' ≡ listed 2 c')
    × (c'.clock ≡ 5)
    × (c'.default_ttl ≡ some 3)
insert_with_ttl-listed_example = insert_with_ttl-listed numbers 1 2 11 (some 3) cache refl
