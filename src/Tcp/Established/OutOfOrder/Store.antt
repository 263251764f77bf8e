-- ===== src/Tcp/Established/OutOfOrder/Store.antt =====
-- `store_out_of_order_segment` ends, does not panic, and stores only the peer's bytes.
use capybara.Base.{
  ℕ, zero, suc, ◌+◌, ◌-◌, ◌≤◌, ◌<◌, ◌≡◌, ◌⊎◌, true, false, length-take, refl, arith, [], ◌∷◌,
  Option, some, length, take, drop, ltb, leb, Bool-cases, inl, inr, length-drop,
}
use capybara.Tcp.SeqNumber
use capybara.Tcp.Established.Block.{Buffer}
use capybara.Tcp.Established.OutOfOrder.{
  Stored, Pass, insert_at, drop_new, remove_at, scan, insert_nth, remove_nth, after_pass,
  store_passes, store_segment, max_out_of_order,
}
use capybara.Tcp.Established.OutOfOrder.Scan.{compare_stored_lem}
use capybara.Tcp.Established.OutOfOrder.Stream.{
  CarriesAt, Carries, AllCarry, take-CarriesAt, drop-CarriesAt,
}
use mathlib.Core.Path.{subst}

after_one : (index i : ℕ) → index + 1 + i ≡ index + suc i
after_one index i = omega arith

from_zero : (i : ℕ) → 0 + i ≡ i
from_zero i = omega arith

no_more : (index : ℕ) → index ≡ index + 0
no_more index = omega arith

-- What the comparison with a stored segment `b` at `o` says of the positions of `buf` at `p`.
module _ (p o : ℕ) (buf b : Buffer) (q : ℕ) where
  encompassed :
      ltb p o ≡ true
      → ltb (o + length b) (p + length buf) ≡ true
      → (o ≤ q) × (q < o + length b)
      → (p ≤ q) × (q < p + length buf)
  encompassed lt enc h = (ground (arith, lt, h), ground (arith, enc, h))

  duplicated :
      ltb p o ≡ false
      → leb (p + length buf) (o + length b) ≡ true
      → (p ≤ q) × (q < p + length buf)
      → (o ≤ q) × (q < o + length b)
  duplicated nlt dup h = (ground (arith, nlt, h), ground (arith, dup, h))

  front_cut :
      ltb p o ≡ true
      → leb (p + length buf) o ≡ false
      → ltb (o + length b) (p + length buf) ≡ false
      → (p ≤ q) × (q < p + length buf)
      → ((o ≤ q) × (q < o + length b)) ⊎ ((p ≤ q) × (q < p + length (take (o - p) buf)))
  front_cut lt nle nenc h = elim (Bool-cases (ltb q o)) [
    | inl before ↦ inr (h.0, ground (arith, before, lt, nle, h, length-take (o - p) buf))
    | inr behind ↦ inl (ground (arith, behind), ground (arith, nenc, h))
  ]

  tail_cut :
      ltb p o ≡ false
      → leb (o + length b) p ≡ false
      → leb (p + length buf) (o + length b) ≡ false
      → (p ≤ q) × (q < p + length buf)
      → ((o ≤ q) × (q < o + length b))
        ⊎ ((o + length b - 1 ≤ q)
            × (q < o + length b - 1 + length (drop (o + length b - 1 - p) buf)))
  tail_cut nlt over ndup h = elim (Bool-cases (ltb q (o + length b))) [
    | inl held ↦ inl (ground (arith, nlt, h), ground (arith, held))
    | inr past ↦ inr (
      ground (arith, past),
      ground (arith, past, nlt, over, ndup, h, length-drop (o + length b - 1 - p) buf),
    )
  ]

module _ (f : ℕ → ℕ) (base next : ℕ) where
  -- A position in the stream that a buffer at offset `p` holds.
  abbrev pub In : ℕ → Buffer → ℕ → Type 0
  In p buf q = (p ≤ q) × (q < p + length buf)

  -- A position that a segment of the store holds.
  abbrev pub Covers : (stored : Stored) → AllCarry f base next stored → ℕ → Type 0
  Covers [] all q = ⊥
  Covers ((s, b) ∷ rest) all q = In all.0.offset b q ⊎ Covers rest all.1 q

  -- A position that the segment at an index holds.
  abbrev CoversAt : (stored : Stored) → AllCarry f base next stored → ℕ → ℕ → Type 0
  CoversAt [] all i q = ⊥
  CoversAt ((s, b) ∷ rest) all zero q = In all.0.offset b q
  CoversAt (x ∷ rest) all (suc i) q = CoversAt rest all.1 i q

  -- How a pass ends over a store of `len` segments, which holds the positions `Whole` and whose segment
  -- at an index holds the positions `At`, with the segment of `buf` at `p` in hand: what that segment
  -- and a removed one hold is still held.
  module _ (len : ℕ) (Whole : ℕ → Type 0) (At : ℕ → ℕ → Type 0) where
    data IsGood (p : ℕ) (buf : Buffer) : Pass → Type 0 where
      inserts :
          (i s : ℕ) (new : Buffer) (c : Carries f base next s new)
          → ((q : ℕ) → In p buf q → Whole q ⊎ In c.offset new q)
          → IsGood p buf (insert_at i s new)
      drops : ((q : ℕ) → In p buf q → Whole q) → IsGood p buf drop_new
      removes :
          (i o : ℕ) (new : Buffer)
          → i < len
          → CarriesAt f next o new
          → ((q : ℕ) → In p buf q → Whole q ⊎ In o new q)
          → ((q : ℕ) → At i q → In o new q)
          → IsGood p buf
              (remove_at i (SeqNumber.add base o) (SeqNumber.add base (o + length new - 1)) new)

    abbrev Scans : ℕ → Buffer → Option Pass → Type 0
    Scans p buf r = (pass : Pass) × (r ≡ some pass) × IsGood p buf pass

    inserts_here :
        (i p : ℕ) (buf new : Buffer)
        → CarriesAt f next p new
        → ((q : ℕ) → In p buf q → Whole q ⊎ In p new q)
        → Scans p buf (some (insert_at i (SeqNumber.add base p) new))
    inserts_here i p buf new c held =
        let here : Carries f base next (SeqNumber.add base p) new = record {
          offset = p;
          seq_at = refl;
          carried = c;
        } in
        (
          insert_at i (SeqNumber.add base p) new,
          refl,
          inserts i (SeqNumber.add base p) new here held,
        )

    -- A shorter segment in hand, when the store holds the rest of the longer one.
    shortened :
        (p o : ℕ) (buf new : Buffer) (r : Option Pass)
        → ((q : ℕ) → In p buf q → Whole q ⊎ In o new q)
        → Scans o new r
        → Scans p buf r
    shortened p o buf new r left (pass, e, inserts i s b c held) =
        (pass, e, inserts i s b c (λ q h. elim (left q h) [ inl w ↦ inl w | inr n ↦ held q n ]))
    shortened p o buf new r left (pass, e, drops held) =
        (pass, e, drops (λ q h. elim (left q h) [ inl w ↦ w | inr n ↦ held q n ]))
    shortened p o buf new r left (pass, e, removes i k b below c held gone) = (
      pass,
      e,
      removes i k b below c (λ q h. elim (left q h) [ inl w ↦ inl w | inr n ↦ held q n ]) gone,
    )

    -- The cases of `compare_stored_lem`, each continued by the rest of the scan.
    scan-Scans :
        (stored : Stored) (index p : ℕ) (buf : Buffer)
        → index + length stored ≡ len
        → CarriesAt f next p buf
        → (all : AllCarry f base next stored) → ((q : ℕ) → Covers stored all q → Whole q)
        → ((i q : ℕ) → At (index + i) q → CoversAt stored all i q)
        → Scans p buf (
            scan len index stored
              (SeqNumber.add base p)
              (SeqNumber.add base (p + length buf - 1))
              buf)
    unfolding scan
    scan-Scans [] index p buf e c all there at = inserts_here len p buf buf c (λ q h. inr h)
    scan-Scans ((s, b) ∷ rest) index p buf e c all there at =
        let o = all.0.offset in
        let l = length b in
        let k = length buf in
        let old = all.0.carried in
        let below : index < len = omega (arith, e) in
        let later : (i q : ℕ) → At (index + 1 + i) q → CoversAt rest all.1 i q =
          λ i q h. at (suc i) q (subst (λ n. At n q) (after_one index i) h) in
        let here : (q : ℕ) → At index q → In o b q =
          λ q h. at zero q (subst (λ n. At n q) (no_more index) h) in
        rw
          (
            all.0.seq_at,
            compare_stored_lem base p o buf b c.nonempty old.nonempty (omega (arith, old))
                (omega (arith, c, old)) (omega (arith, c, old)),
          )
          (elim (Bool-cases (ltb p o)) [
            | inl lt ↦ elim (Bool-cases (leb (p + k) o)) [
              | inl le ↦ rw (lt, le) (inserts_here index p buf buf c (λ q h. inr h))
              | inr nle ↦ elim (Bool-cases (ltb (o + l) (p + k))) [
                | inl enc ↦
                    rw (lt, nle, enc)
                      (
                        remove_at index (SeqNumber.add base p) (SeqNumber.add base (p + k - 1)) buf,
                        refl,
                        removes index p buf below c (λ q h. inr h)
                            (λ q h. encompassed p o buf b q lt enc (here q h)),
                      )
                | inr nenc ↦
                    rw (lt, nle, nenc)
                      (inserts_here len p buf (take (o - p) buf)
                        (take-CarriesAt f (o - p) buf c (ground (arith, lt)) (ground (arith, nle)))
                        (λ q h. elim (front_cut p o buf b q lt nle nenc h) [
                          | inl held ↦ inl (there q (inl held))
                          | inr cut ↦ inr cut
                        ]))
              ]
            ]
            | inr nlt ↦ elim (Bool-cases (leb (p + k) (o + l))) [
              | inl dup ↦
                  rw (nlt, dup)
                    (
                      drop_new,
                      refl,
                      drops (λ q h. there q (inl (duplicated p o buf b q nlt dup h))),
                    )
              | inr ndup ↦ elim (Bool-cases (leb (o + l) p)) [
                | inl aft ↦
                    rw (nlt, ndup, aft)
                      (scan-Scans rest (index + 1) p buf (omega (arith, e)) c all.1
                        (λ q h. there q (inr h)) later)
                | inr over ↦
                    rw (nlt, ndup, over)
                      (let m = o + l - 1 - p in
                        let pos : p + m ≡ o + l - 1 = ground (arith, nlt, ndup, over) in
                        let fits : m < k = ground (arith, nlt, ndup, over) in
                        let c' : CarriesAt f next (o + l - 1) (drop m buf) =
                          subst (λ q. CarriesAt f next q (drop m buf)) pos
                            (drop-CarriesAt f m buf c fits) in
                        let last : p + k - 1 ≡ o + l - 1 + length (drop m buf) - 1 =
                          omega (arith, length-drop m buf, fits, pos) in
                        rw last (
                          shortened p (o + l - 1) buf (drop m buf) _
                            (λ q h. elim (tail_cut p o buf b q nlt over ndup h) [
                              | inl held ↦ inl (there q (inl held))
                              | inr cut ↦ inr cut
                            ])
                            (scan-Scans rest (index + 1) (o + l - 1) (drop m buf) (omega (arith, e))
                              c' all.1 (λ q h. there q (inr h)) later)))
              ]
            ]
          ])

  insert_nth-Covers :
      (i s : ℕ) (buf : Buffer) (stored : Stored) (c : Carries f base next s buf)
      (all : AllCarry f base next stored)
      → (all' : AllCarry f base next (insert_nth i (s, buf) stored)) × ((q : ℕ)
          → In c.offset buf q ⊎ Covers stored all q
          → Covers (insert_nth i (s, buf) stored) all' q)
  unfolding insert_nth
  insert_nth-Covers zero s buf stored c all = ((c, all), λ q h. h)
  insert_nth-Covers (suc i) s buf [] c all = ((c, tt), λ q h. h)
  insert_nth-Covers (suc i) s buf ((t, b) ∷ ys) c all =
      let (all', held) = insert_nth-Covers i s buf ys c all.1 in
      (
        (all.0, all'),
        λ q h. elim h [
          | inl new ↦ inr (held q (inl new))
          | inr old ↦ elim old [ inl first ↦ inl first | inr others ↦ inr (held q (inr others)) ]
        ],
      )

  length-insert_nth :
      (i : ℕ) (x : ℕ × Buffer) (stored : Stored)
      → length (insert_nth i x stored) ≡ length stored + 1
  unfolding insert_nth
  length-insert_nth zero x stored = omega arith
  length-insert_nth (suc i) x [] = refl
  length-insert_nth (suc i) x (y ∷ ys) = omega (arith, length-insert_nth i x ys)

  remove_nth-Covers :
      (i : ℕ) (stored : Stored) (all : AllCarry f base next stored)
      → (all' : AllCarry f base next (remove_nth i stored)) × ((q : ℕ)
          → Covers stored all q
          → Covers (remove_nth i stored) all' q ⊎ CoversAt stored all i q)
  unfolding remove_nth
  remove_nth-Covers zero [] all = (tt, λ q h. inl h)
  remove_nth-Covers (suc i) [] all = (tt, λ q h. inl h)
  remove_nth-Covers zero ((s, b) ∷ ys) all =
      (all.1, λ q h. elim h [ inl first ↦ inr first | inr others ↦ inl others ])
  remove_nth-Covers (suc i) ((s, b) ∷ ys) all =
      let (all', held) = remove_nth-Covers i ys all.1 in
      (
        (all.0, all'),
        λ q h. elim h [
          | inl first ↦ inl (inl first)
          | inr others ↦ elim (held q others) [ inl left ↦ inl (inr left) | inr at ↦ inr at ]
        ],
      )

  length-remove_nth :
      (i : ℕ) (stored : Stored)
      → i < length stored
      → length (remove_nth i stored) + 1 ≡ length stored
  unfolding remove_nth
  length-remove_nth zero [] h = absurd (omega arith)
  length-remove_nth (suc i) [] h = absurd (omega arith)
  length-remove_nth zero (y ∷ ys) h = omega arith
  length-remove_nth (suc i) (y ∷ ys) h = omega (arith, length-remove_nth i ys (omega arith))

  take-Covers :
      (n : ℕ) (stored : Stored) (all : AllCarry f base next stored)
      → (all' : AllCarry f base next (take n stored)) × ((q : ℕ)
          → length stored ≤ n
          → Covers stored all q
          → Covers (take n stored) all' q)
  take-Covers zero [] all = (tt, λ q few h. h)
  take-Covers zero (y ∷ ys) all = (tt, λ q few h. absurd (omega (arith, few)))
  take-Covers (suc n) [] all = (tt, λ q few h. h)
  take-Covers (suc n) ((s, b) ∷ ys) all =
      let (all', held) = take-Covers n ys all.1 in
      (
        (all.0, all'),
        λ q few h. elim h [
          | inl first ↦ inl first
          | inr others ↦ inr (held q (omega (arith, few)) others)
        ],
      )

  -- The store that comes out holds the positions `Held`, unless there were as many segments before as
  -- it can have.
  abbrev Stores : ℕ → (ℕ → Type 0) → Option Stored → Type 0
  Stores before Held r =
      (out : Stored) × (r ≡ some out)
      × (all : AllCarry f base next out) × ((q : ℕ)
          → Held q
          → Covers out all q ⊎ (max_out_of_order ≤ before))

  -- The positions that a store and a segment in hand hold.
  abbrev Both : (stored : Stored) → AllCarry f base next stored → ℕ → Buffer → ℕ → Type 0
  Both stored all p buf q = Covers stored all q ⊎ In p buf q

  room_for : (l n : ℕ) → ltb l max_out_of_order ≡ true → n ≡ l + 1 → n ≤ max_out_of_order
  room_for l n room e = ground (arith, room, e)

  full_of : (l before : ℕ) → ltb l max_out_of_order ≡ false → l ≤ before → max_out_of_order ≤ before
  full_of l before full few = ground (arith, full, few)

  inserted :
      (before i s p : ℕ) (buf new : Buffer) (stored : Stored) (all : AllCarry f base next stored)
      (c : Carries f base next s new)
      → length stored ≤ before
      → ((q : ℕ) → In p buf q → Covers stored all q ⊎ In c.offset new q)
      → Stores before
          (Both stored all p buf)
          (some (take max_out_of_order (insert_nth i (s, new) stored)))
  inserted before i s p buf new stored all c few left =
      let (all1, held1) = insert_nth-Covers i s new stored c all in
      let (all2, held2) = take-Covers max_out_of_order (insert_nth i (s, new) stored) all1 in
      let goes : (q : ℕ) → Both stored all p buf q → In c.offset new q ⊎ Covers stored all q =
        λ q h. elim h [
          | inl old ↦ inr old
          | inr fresh ↦ elim (left q fresh) [ inl old ↦ inr old | inr there ↦ inl there ]
        ] in
      (
        take max_out_of_order (insert_nth i (s, new) stored),
        refl,
        all2,
        λ q h. elim (Bool-cases (ltb (length stored) max_out_of_order)) [
          | inl room ↦ inl (
              held2 q (room_for (length stored) _ room (length-insert_nth i (s, new) stored))
                (held1 q (goes q h)))
          | inr full ↦ inr (full_of (length stored) before full few)
        ],
      )

  after_pass-Stores :
      (before p : ℕ) (buf : Buffer) (stored : Stored) (all : AllCarry f base next stored)
      (again : Stored → ℕ → ℕ → Buffer → Option Stored) {pass : Pass}
      → length stored ≤ before
      → ((i o : ℕ) (new : Buffer) (all' : AllCarry f base next (remove_nth i stored))
          → i < length stored
          → CarriesAt f next o new
          → Stores before (Both (remove_nth i stored) all' o new) (
              again
                (remove_nth i stored)
                (SeqNumber.add base o)
                (SeqNumber.add base (o + length new - 1))
                new))
      → IsGood (length stored) (Covers stored all) (CoversAt stored all) p buf pass
      → Stores before (Both stored all p buf) (after_pass stored again pass)
  unfolding after_pass
  after_pass-Stores before p buf stored all again few rec (inserts i s new c left) =
      inserted before i s p buf new stored all c few left
  after_pass-Stores before p buf stored all again few rec (drops held) =
      (stored, refl, all, λ q h. inl (elim h [ inl old ↦ old | inr fresh ↦ held q fresh ]))
  after_pass-Stores before p buf stored all again few rec (removes i o new below c left gone) =
      let (all', kept) = remove_nth-Covers i stored all in
      let (out, e, all2, held) = rec i o new all' below c in
      let goes : (q : ℕ) → Covers stored all q → Both (remove_nth i stored) all' o new q =
        λ q h. elim (kept q h) [ inl there ↦ inl there | inr at ↦ inr (gone q at) ] in
      (
        out,
        e,
        all2,
        λ q h. held q (elim h [
          | inl old ↦ goes q old
          | inr fresh ↦ elim (left q fresh) [ inl old ↦ goes q old | inr there ↦ inr there ]
        ]),
      )

  store_passes-Stores :
      (fuel before : ℕ) (stored : Stored) (p : ℕ) (buf : Buffer)
      → length stored < fuel
      → length stored ≤ before
      → CarriesAt f next p buf
      → (all : AllCarry f base next stored)
      → Stores before (Both stored all p buf) (
          store_passes fuel stored
            (SeqNumber.add base p)
            (SeqNumber.add base (p + length buf - 1))
            buf)
  unfolding store_passes
  store_passes-Stores zero before stored p buf h few c all = absurd (omega arith)
  store_passes-Stores (suc fuel) before stored p buf h few c all =
      let (pass, e, good) =
        scan-Scans (length stored) (Covers stored all) (CoversAt stored all) stored 0 p buf
          (omega arith) c all (λ q there. there)
          (λ i q at. subst (λ n. CoversAt stored all n q) (from_zero i) at) in
      let again =
        λ (i o : ℕ) (new : Buffer) (all' : AllCarry f base next (remove_nth i stored))
            (below : i < length stored) (c' : CarriesAt f next o new).
          store_passes-Stores fuel before (remove_nth i stored) o new
            (omega (arith, length-remove_nth i stored below))
            (omega (arith, few, length-remove_nth i stored below)) c' all' in
      rw e (after_pass-Stores before p buf stored all (store_passes fuel) few again good)

  -- A segment of the peer's stream that lies within 2 ^ 30 bytes of RCV.NXT is taken into the store
  -- without a panic and within the passes that the store's length allows, whatever the store holds:
  -- every segment in the new store again carries the stream's bytes at its sequence number, and each
  -- byte of the segment, and each byte that was stored before, is in the new store, unless there were
  -- 2048 segments or more before.
  pub store_segment-AllCarry :
      (stored : Stored) (p q : ℕ) (buf : Buffer)
      → CarriesAt f next p buf
      → (all : AllCarry f base next stored) → Covers stored all q ⊎ In p buf q
      → (out : Stored) × (store_segment stored
            (SeqNumber.add base p)
            (SeqNumber.add base (p + length buf - 1))
            buf
          ≡ some out)
        × (all' : AllCarry f base next out) × (Covers out all' q ⊎ (2048 ≤ length stored))
  unfolding store_segment
  store_segment-AllCarry stored p q buf c all held =
      let (out, e, all', keeps) =
        store_passes-Stores (suc (length stored)) (length stored) stored p buf (omega arith)
          (omega arith) c all in
      (out, e, all', keeps q held)
