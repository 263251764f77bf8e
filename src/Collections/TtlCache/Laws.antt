-- ===== src/Collections/TtlCache/Laws.antt =====
-- The cache as the map of the entries that are alive.
use capybara.Base.{
  ℕ, ◌≡◌, inl, inr, refl, arith, Bool, true, false, if◌then◌else◌, Option, none, some, Bool-cases,
}
use capybara.Collections.TtlCache.{
  KeyEq, Record, HashTtlCache, check_ttl, expiration_at, cleanup, put, living, value_of,
  has_expired, get, listed, insert_with_ttl,
}

module _ {V : Type 0} where
  -- A new entry is alive, and cleaning twice changes nothing.
  shown :
      (here : Bool) (v : V) (ttl : Option ℕ) (r : Option (Record V)) (clock : ℕ)
      → check_ttl ttl ≡ some tt
      → value_of (
          living clock (
            if here
            then some (record { value = v; expiration = expiration_at clock ttl })
            else living clock r))
        ≡ (if here then some v else value_of (living clock r))
  shown true v none r clock good = refl
  shown true v (some t) r clock good = ground (arith, good)
  shown false v ttl none clock good = refl
  shown false v ttl (some r) clock good = elim (Bool-cases (has_expired r clock)) [
    | inl over ↦ rw over refl
    | inr alive ↦ rw alive (rw alive refl)
  ]

  all_alive :
      (here : Bool) (v : V) (ttl : Option ℕ) (r : Option (Record V)) (clock : ℕ)
      → check_ttl ttl ≡ some tt
      → let entry : Option (Record V) =
          if here
          then some (record { value = v; expiration = expiration_at clock ttl })
          else living clock r in
        value_of entry ≡ value_of (living clock entry)
  all_alive true v none r clock good = refl
  all_alive true v (some t) r clock good = ground (arith, good)
  all_alive false v ttl none clock good = refl
  all_alive false v ttl (some r) clock good = elim (Bool-cases (has_expired r clock)) [
    | inl over ↦ rw over refl
    | inr alive ↦ rw alive (rw alive refl)
  ]

module _ {K V : Type 0} where
  abbrev inserted : KeyEq K → K → V → Option ℕ → HashTtlCache K V → HashTtlCache K V
  inserted keys k v ttl c = record (cleanup c) {
    map = put keys k (record { value = v; expiration = expiration_at c.clock ttl }) (cleanup c).map;
  }

  -- An insertion, with a time to live that is not zero or with none, gives back the value that the
  -- key had, if its entry was alive; the entry is alive then, and the entries of the other keys are
  -- alive if they were and with their values; nothing in the cache
  -- has expired; and the clock and the default time to live stay.
  pub insert_with_ttl-listed :
      (keys : KeyEq K) (k j : K) (v : V) (ttl : Option ℕ) (c : HashTtlCache K V)
      → check_ttl ttl ≡ some tt
      → (c' : HashTtlCache K V) × (insert_with_ttl keys k v ttl c ≡ some (listed k c, c'))
        × (listed j c' ≡ (if keys.eq k j then some v else listed j c))
        × (get j c' ≡ listed j c')
        × (c'.clock ≡ c.clock)
        × (c'.default_ttl ≡ c.default_ttl)
  unfolding insert_with_ttl
  insert_with_ttl-listed keys k j v ttl c good = (
    inserted keys k v ttl c,
    rw good refl,
    shown (keys.eq k j) v ttl (c.map j) c.clock good,
    all_alive (keys.eq k j) v ttl (c.map j) c.clock good,
    refl,
    refl,
  )
