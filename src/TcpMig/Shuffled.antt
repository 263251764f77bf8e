-- ===== src/TcpMig/Shuffled.antt =====
-- A segment that is fragmented, whose fragments arrive in any order, and that is put together again.
use capybara.Base.{
  ℕ, zero, suc, ◌+◌, ◌-◌, ◌/◌, ◌^◌, ◌≤◌, ◌<◌, ◌≡◌, ◌≢◌, inl, inr, refl, sym, ap, ap₂, ◌∙◌, arith,
  List, [], ◌∷◌, ◌++◌, length, length-append, get_or, if◌then◌else◌, replicate, append-nil, Bool,
  false, Option, none, some, ltb,
}
use mathlib.Core.Path.{subst}
use capybara.Base.Panic.{◌>>=◌}
use capybara.TcpMig.Defragmenter.{TcpMigDefragmenter, new_defragmenter, reset, defragment}
use capybara.TcpMig.Defragmenter.Fill.{concat, bytes}
use capybara.TcpMig.Defragmenter.Laws.{Represents, whole_header, true-false}
use capybara.TcpMig.Defragmenter.Slots.{
  count_full, Slots, received, body_of, mark, bodies, count, size, length-mark, bodies-mark,
  received_full,
}
use capybara.TcpMig.Fragmenter.{TcpMigSegment, max_fragment_size, collect, fragments}
use capybara.TcpMig.Fragmenter.Laws.{
  AreFragments, last, more, payloads, payloads_lem, collect-AreFragments,
}
use capybara.TcpMig.Header.{TcpMigHeader}
use capybara.TcpMig.Reassembly.{Arrives, defragment-Represents}

-- The fragments as they arrive, up to the first message that comes out: what is then left of them.
unfoldable pub reassemble :
    TcpMigDefragmenter
    → List TcpMigSegment
    → Option (TcpMigDefragmenter × Option (TcpMigHeader × List ℕ) × List TcpMigSegment)
reassemble d [] = some (d, none, [])
reassemble d (s ∷ segments) = do
  (d, message) ← defragment d s.tcpmig_hdr s.payload
  elim message [ none ↦ reassemble d segments | some m ↦ some (d, some m, segments) ]

-- The view in which nothing has been received.
abbrev pub slots_of : List TcpMigSegment → Slots
slots_of [] = []
slots_of (s ∷ segments) = (false, s.payload) ∷ slots_of segments

-- What is left to arrive of `segments`, each once, until all of it has been received.
pub data Shuffled (base : TcpMigSegment) (segments : List TcpMigSegment)
    : Slots → List TcpMigSegment → Type 0 where
  complete : {slots : Slots} → count slots ≡ length slots → Shuffled base segments slots []
  arrival :
      {slots : Slots} (i : ℕ) {others : List TcpMigSegment}
      → i < length segments
      → received slots i ≡ false
      → Shuffled base segments (mark i slots) others
      → Shuffled base segments slots (get_or segments i base ∷ others)

slots_of_lem :
    (segments : List TcpMigSegment)
    → (length (slots_of segments) ≡ length segments)
      × (count (slots_of segments) ≡ 0)
      × (size (slots_of segments) ≡ 0)
      × (concat (bodies (slots_of segments)) ≡ payloads segments)
slots_of_lem [] = (refl, refl, refl, refl)
slots_of_lem (s ∷ segments) =
    let (len, none_there, no_bytes, same) = slots_of_lem segments in
    (ap suc len, omega (arith, none_there), omega (arith, no_bytes), ap (◌++◌ s.payload) same)

none_received : (segments : List TcpMigSegment) (i : ℕ) → received (slots_of segments) i ≡ false
none_received [] i = refl
none_received (s ∷ segments) zero = refl
none_received (s ∷ segments) (suc i) = none_received segments i

ltb_shift : (i n : ℕ) → ltb (i + 1) n ≡ ltb (suc i + 1) (suc n)
ltb_shift i n = ground arith

-- The fragment at an index: its offset, its flag, its data and the rest of its header.
fragment_at :
    (base : TcpMigSegment) (offset : ℕ) (payload : List ℕ) (segments : List TcpMigSegment)
    → AreFragments base offset payload segments
    → (i : ℕ) → i < length segments
    → let s = get_or segments i base in
      (body_of (slots_of segments) i ≡ s.payload)
      × (s.tcpmig_hdr.fragment_offset ≡ offset + i)
      × (s.tcpmig_hdr.flag_next_fragment ≡ ltb (i + 1) (length segments))
      × (whole_header s.tcpmig_hdr ≡ whole_header base.tcpmig_hdr)
fragment_at base offset payload [] f i h = elim f [ ]
fragment_at base offset payload (x ∷ []) (last short) zero h = (refl, omega arith, refl, refl)
fragment_at base offset payload (x ∷ []) (last short) (suc i) h = absurd (omega arith)
fragment_at base offset payload (x ∷ []) (more split full left are) i h = elim are [ ]
fragment_at base offset payload (x ∷ y ∷ segments) (more split full left are) zero h =
    (refl, omega arith, ground arith, refl)
fragment_at base offset payload (x ∷ y ∷ segments) (more {rest} split full left are) (suc i) h =
    let (body, at, flag, same) =
      fragment_at base (offset + 1) rest (y ∷ segments) are i (omega arith) in
    (body, omega (arith, at), flag ∙ ltb_shift i (suc (length segments)), same)

fresh :
    (extra : ℕ) (segments : List TcpMigSegment)
    → Represents extra (slots_of segments) (record {
      fragments = [];
      total_fragments = none;
      current_fragments = 0;
      current_size = extra;
    })
fresh extra segments =
    let (len, none_there, no_bytes, same) = slots_of_lem segments in
    record {
      contents = λ j.
          ap (λ (r : Bool). if r then body_of (slots_of segments) j else [])
            (sym (none_received segments j));
      within = omega arith;
      count_is = sym none_there;
      sized = omega (arith, no_bytes);
      known = λ there.
          absurd (ground (arith, there, none_received segments (length (slots_of segments) - 1)));
      unknown = λ missing. refl;
    }

body_of-bodies : (slots : Slots) (i : ℕ) → body_of slots i ≡ get_or (bodies slots) i []
body_of-bodies [] i = refl
body_of-bodies ((r, body) ∷ slots) zero = refl
body_of-bodies ((r, body) ∷ slots) (suc i) = body_of-bodies slots i

bytes_lem : (buffers : List (List ℕ)) → bytes buffers ≡ length (concat buffers)
bytes_lem [] = refl
bytes_lem (f ∷ buffers) = omega (arith, bytes_lem buffers, length-append f (concat buffers))

-- Nothing arrives once everything has been received.
Shuffled-full :
    (base : TcpMigSegment) (segments : List TcpMigSegment) (slots : Slots)
    (order : List TcpMigSegment)
    → length slots ≡ length segments
    → count slots ≡ length slots
    → Shuffled base segments slots order
    → order ≡ []
Shuffled-full base segments slots [] len full (complete all) = refl
Shuffled-full base segments slots (s ∷ order) len full (arrival i inside new others) =
    absurd
      (true-false (received slots i) (received_full i slots full (omega (arith, len, inside))) new)

reassemble-delivers :
    (d d' : TcpMigDefragmenter) (s : TcpMigSegment) (segments : List TcpMigSegment)
    (m : TcpMigHeader × List ℕ)
    → defragment d s.tcpmig_hdr s.payload ≡ some (d', some m)
    → reassemble d (s ∷ segments) ≡ some (d', some m, segments)
unfolding reassemble
reassemble-delivers d d' s segments m e = ground (arith, e)

reassemble-waits :
    (d d' : TcpMigDefragmenter) (s : TcpMigSegment) (segments : List TcpMigSegment)
    → defragment d s.tcpmig_hdr s.payload ≡ some (d', none)
    → reassemble d (s ∷ segments) ≡ reassemble d' segments
unfolding reassemble
reassemble-waits d d' s segments e = ground (arith, e)

-- An empty defragmenter that still counts some bytes.
abbrev pub counted : ℕ → TcpMigDefragmenter
counted size = record {
  fragments = [];
  total_fragments = none;
  current_fragments = 0;
  current_size = size;
}

reassemble_from :
    (extra : ℕ) (base : TcpMigSegment) (payload : List ℕ) (segments : List TcpMigSegment)
    (slots : Slots) (d : TcpMigDefragmenter) (order : List TcpMigSegment)
    → AreFragments base 0 payload segments
    → 2 ≤ length segments
    → 1 ≤ extra + bytes (bodies slots)
    → bodies slots ≡ bodies (slots_of segments)
    → length slots ≡ length segments
    → count slots ≢ length slots
    → Represents extra slots d
    → Shuffled base segments slots order
    → reassemble d order
      ≡ some (
        counted (extra + bytes (bodies slots)),
        some (whole_header base.tcpmig_hdr, concat (bodies slots) ++ replicate extra 0),
        [],
      )
reassemble_from extra base payload segments slots d [] are several some_bytes same len waits r
      (complete full) =
    absurd (waits full)
reassemble_from extra base payload segments slots d (s ∷ order) are several some_bytes same len
      waits r (arrival i inside new others) =
    let (body, at, flag, header) = fragment_at base 0 payload segments are i inside in
    let place : s.tcpmig_hdr.fragment_offset ≡ i = omega (arith, at) in
    let there : body_of (slots_of segments) i ≡ body_of slots i =
      body_of-bodies (slots_of segments) i
      ∙ ap (λ (b : List (List ℕ)). get_or b i []) (sym same)
      ∙ sym (body_of-bodies slots i) in
    let a : Arrives slots s.tcpmig_hdr s.payload = record {
      inside = omega (arith, place, inside, len);
      new = ap (received slots) place ∙ new;
      flag = flag ∙ ap₂ (λ (k n : ℕ). ltb (k + 1) n) (sym place) (sym len);
      body = sym body ∙ there ∙ ap (body_of slots) (sym place);
    } in
    let at_place : mark i slots ≡ mark s.tcpmig_hdr.fragment_offset slots =
      ap (λ k. mark k slots) (sym place) in
    let marked = mark s.tcpmig_hdr.fragment_offset slots in
    let length_marked = length-mark s.tcpmig_hdr.fragment_offset slots in
    let same_bodies = bodies-mark s.tcpmig_hdr.fragment_offset slots in
    let later = subst (λ l. Shuffled base segments l order) at_place others in
    let (d', outcome) =
      defragment-Represents extra slots d s.tcpmig_hdr s.payload r (omega (arith, len, several))
        some_bytes a in
    elim outcome [
      | inl (full, e, r') ↦
          let size_is : d'.current_size ≡ extra + bytes (bodies slots) =
            omega (arith, r'.sized, (count_full marked full).0, ap bytes same_bodies) in
          reassemble-delivers d (reset d') s order _ e
          ∙ ap₂
              (λ (h : TcpMigHeader) (l : List TcpMigSegment).
                some (reset d', some (h, concat (bodies slots) ++ replicate {A = ℕ} extra 0), l))
              header (Shuffled-full base segments marked order (length_marked ∙ len) full later)
          ∙ ap
              (λ n. some (
                counted n,
                some (
                  whole_header base.tcpmig_hdr,
                  concat (bodies slots) ++ replicate {A = ℕ} extra 0,
                ),
                [],
              ))
              size_is
      | inr (missing, e, r') ↦
          let rest =
            reassemble_from extra base payload segments marked d' order are several
              (omega (arith, some_bytes, ap bytes same_bodies)) (same_bodies ∙ same)
              (length_marked ∙ len) missing r' later in
          reassemble-waits d d' s order e
          ∙ rest
          ∙ ap
              (λ (b : List (List ℕ)). some (
                counted (extra + bytes b),
                some (whole_header base.tcpmig_hdr, concat b ++ replicate {A = ℕ} extra 0),
                [],
              ))
              same_bodies
    ]

several_bytes :
    (base : TcpMigSegment) (payload : List ℕ) (segments : List TcpMigSegment)
    → AreFragments base 0 payload segments
    → 2 ≤ length segments
    → 1 ≤ bytes (bodies (slots_of segments))
several_bytes base payload [] are several = absurd (omega arith)
several_bytes base payload (x ∷ []) are several = absurd (omega arith)
several_bytes base payload (x ∷ y ∷ segments) (more split full left are) several =
    omega (arith, full)

-- A defragmenter that is empty but counts `extra` bytes puts `extra` zeros behind the data of a
-- segment of several fragments, in whatever order they arrive, and counts the bytes of those too.
reassemble_counted :
    (extra : ℕ) (base : TcpMigSegment) (payload : List ℕ) (segments order : List TcpMigSegment)
    → AreFragments base 0 payload segments
    → 2 ≤ length segments
    → Shuffled base segments (slots_of segments) order
    → reassemble (counted extra) order
      ≡ some (
        counted (extra + length payload),
        some (whole_header base.tcpmig_hdr, payload ++ replicate extra 0),
        [],
      )
reassemble_counted extra base payload segments order are several shuffled =
    let (len, none_there, no_bytes, same) = slots_of_lem segments in
    let whole : concat (bodies (slots_of segments)) ≡ payload =
      same ∙ payloads_lem base 0 payload segments are in
    let total : bytes (bodies (slots_of segments)) ≡ length payload =
      bytes_lem (bodies (slots_of segments)) ∙ ap (λ (l : List ℕ). length l) whole in
    reassemble_from extra base payload segments (slots_of segments) (counted extra) order are
      several (omega (arith, several_bytes base payload segments are several)) refl len
      (λ full. omega (arith, full, none_there, len, several)) (fresh extra segments) shuffled
    ∙ ap₂
        (λ (n : ℕ) (l : List ℕ). some (
          counted (extra + n),
          some (whole_header base.tcpmig_hdr, l ++ replicate {A = ℕ} extra 0),
          [],
        ))
        total whole

-- The first message.
pub reassemble_first :
    (base : TcpMigSegment) (payload : List ℕ) (segments order : List TcpMigSegment)
    → AreFragments base 0 payload segments
    → 2 ≤ length segments
    → Shuffled base segments (slots_of segments) order
    → reassemble new_defragmenter order
      ≡ some (counted (length payload), some (whole_header base.tcpmig_hdr, payload), [])
reassemble_first base payload segments order are several shuffled =
    let same : 0 + length payload ≡ length payload = omega arith in
    reassemble_counted 0 base payload segments order are several shuffled
    ∙ ap₂ (λ (n : ℕ) (l : List ℕ). some (counted n, some (whole_header base.tcpmig_hdr, l), []))
        same (append-nil payload)

-- When the fragments of two messages come to a new defragmenter, one message after the other and
-- those of each in any order: the first comes out as it was, and the second with a zero behind its
-- data for each byte of the first.
pub reassemble-leftover :
    (base base' : TcpMigSegment) (payload payload' : List ℕ)
    (segments segments' order order' : List TcpMigSegment)
    → AreFragments base 0 payload segments
    → AreFragments base' 0 payload' segments'
    → 2 ≤ length segments
    → 2 ≤ length segments'
    → Shuffled base segments (slots_of segments) order
    → Shuffled base' segments' (slots_of segments') order'
    → (d d' : TcpMigDefragmenter) × (reassemble new_defragmenter order
        ≡ some (d, some (whole_header base.tcpmig_hdr, payload), []))
      × (reassemble d order'
          ≡ some (
            d',
            some (whole_header base'.tcpmig_hdr, payload' ++ replicate (length payload) 0),
            [],
          ))
reassemble-leftover base base' payload payload' segments segments' order order' are are' several
      several' shuffled shuffled' =
    (
      counted (length payload),
      counted (length payload + length payload'),
      reassemble_first base payload segments order are several shuffled,
      reassemble_counted (length payload) base' payload' segments' order' are' several' shuffled',
    )

several_fragments :
    (base : TcpMigSegment) (payload : List ℕ) (segments : List TcpMigSegment)
    → AreFragments base 0 payload segments
    → max_fragment_size < length payload
    → 2 ≤ length segments
several_fragments base payload [] are long = elim are [ ]
several_fragments base payload (x ∷ []) (last short) long = absurd (omega arith)
several_fragments base payload (x ∷ []) (more split full left are) long = elim are [ ]
several_fragments base payload (x ∷ y ∷ segments) are long = omega arith

abbrev or_none : Option (List TcpMigSegment) → List TcpMigSegment
or_none (some segments) = segments
or_none none = []

-- The fragmenter and the defragmenter together: the data of a segment of more than 1452 bytes, whose
-- fragments can be numbered in 16 bits, come out of a new defragmenter as they went into the
-- fragmenter, whatever order the fragments arrive in, each once, and with the segment's header.
pub reassemble-collect :
    (s : TcpMigSegment) (fuel : ℕ) (segments order : List TcpMigSegment)
    → max_fragment_size < length s.payload
    → length s.payload / max_fragment_size + 1 < 2 ^ 16
    → length s.payload / max_fragment_size + 2 ≤ fuel
    → collect fuel (fragments s) ≡ some segments
    → Shuffled s segments (slots_of segments) order
    → (d' : TcpMigDefragmenter) × (reassemble new_defragmenter order
        ≡ some (d', some (whole_header s.tcpmig_hdr, s.payload), []))
reassemble-collect s fuel segments order long fits enough collected shuffled =
    let (segments', e, are, same) = collect-AreFragments s fuel fits enough in
    let equal : segments' ≡ segments = ap or_none (sym e ∙ collected) in
    let are' = subst (AreFragments s 0 s.payload) equal are in
    let several = several_fragments s s.payload segments are' long in
    (counted (length s.payload), reassemble_first s s.payload segments order are' several shuffled)
