-- ===== src/TcpMig/Defragmenter/Slots.antt =====
-- The abstract view of a message that is being put together: its fragments, each with whether it
-- has been received.
use capybara.Base.{
  ℕ, zero, suc, ◌+◌, ◌-◌, ◌≤◌, ◌<◌, ◌≡◌, ◌≢◌, ◌⊎◌, inl, inr, ◌==◌, Bool-cases, max, refl, sym, ap,
  ap₂, ◌∙◌, arith, List, [], ◌∷◌, ◌++◌, length, get_or, set, replicate, length-append,
  length-replicate, length-set, Bool, true, false, if◌then◌else◌,
}
use capybara.TcpMig.Defragmenter.{store}
use capybara.TcpMig.Defragmenter.Fill.{bytes}

abbrev pub Slots : Type 0
Slots = List (Bool × List ℕ)

abbrev pub received : Slots → ℕ → Bool
received [] i = false
received ((r, body) ∷ slots) zero = r
received ((r, body) ∷ slots) (suc i) = received slots i

abbrev pub body_of : Slots → ℕ → List ℕ
body_of [] i = []
body_of ((r, body) ∷ slots) zero = body
body_of ((r, body) ∷ slots) (suc i) = body_of slots i

abbrev pub mark : ℕ → Slots → Slots
mark i [] = []
mark zero ((r, body) ∷ slots) = (true, body) ∷ slots
mark (suc i) ((r, body) ∷ slots) = (r, body) ∷ mark i slots

abbrev pub bodies : Slots → List (List ℕ)
bodies [] = []
bodies ((r, body) ∷ slots) = body ∷ bodies slots

-- What has been received, with nothing in the other places.
abbrev pub present : Slots → ℕ → List ℕ
present slots i = if received slots i then body_of slots i else []

abbrev pub count : Slots → ℕ
count [] = 0
count ((r, body) ∷ slots) = (if r then 1 else 0) + count slots

abbrev pub size : Slots → ℕ
size [] = 0
size ((r, body) ∷ slots) = (if r then length body else 0) + size slots

pub length-mark : (i : ℕ) (slots : Slots) → length (mark i slots) ≡ length slots
length-mark i [] = refl
length-mark zero ((r, body) ∷ slots) = refl
length-mark (suc i) ((r, body) ∷ slots) = ap suc (length-mark i slots)

pub bodies-mark : (i : ℕ) (slots : Slots) → bodies (mark i slots) ≡ bodies slots
bodies-mark i [] = refl
bodies-mark zero ((r, body) ∷ slots) = refl
bodies-mark (suc i) ((r, body) ∷ slots) = ap (◌∷◌ body) (bodies-mark i slots)

pub body_of-mark : (i j : ℕ) (slots : Slots) → body_of (mark i slots) j ≡ body_of slots j
body_of-mark i j [] = refl
body_of-mark zero zero ((r, body) ∷ slots) = refl
body_of-mark zero (suc j) ((r, body) ∷ slots) = refl
body_of-mark (suc i) zero ((r, body) ∷ slots) = refl
body_of-mark (suc i) (suc j) ((r, body) ∷ slots) = body_of-mark i j slots

-- A fragment that is new adds itself to the count and its bytes to the size.
pub count-mark :
    (i : ℕ) (slots : Slots)
    → i < length slots
    → received slots i ≡ false
    → (count (mark i slots) ≡ suc (count slots))
      × (size (mark i slots) ≡ size slots + length (body_of slots i))
count-mark i [] h new = absurd (omega arith)
count-mark zero ((true, body) ∷ slots) h new = absurd (ground (arith, new))
count-mark zero ((false, body) ∷ slots) h new = (omega arith, omega arith)
count-mark (suc i) ((r, body) ∷ slots) h new =
    let (more, bigger) = count-mark i slots (omega arith) new in
    (omega (arith, more), omega (arith, bigger))

pub received-mark_same :
    (i : ℕ) (slots : Slots) → i < length slots → received (mark i slots) i ≡ true
received-mark_same i [] h = absurd (omega arith)
received-mark_same zero ((r, body) ∷ slots) h = refl
received-mark_same (suc i) ((r, body) ∷ slots) h = received-mark_same i slots (omega arith)

pub received-mark_other :
    (i j : ℕ) (slots : Slots) → i ≢ j → received (mark i slots) j ≡ received slots j
received-mark_other i j [] other = refl
received-mark_other zero zero ((r, body) ∷ slots) other = absurd (other refl)
received-mark_other zero (suc j) ((r, body) ∷ slots) other = refl
received-mark_other (suc i) zero ((r, body) ∷ slots) other = refl
received-mark_other (suc i) (suc j) ((r, body) ∷ slots) other =
    received-mark_other i j slots (λ e. other (ap suc e))

pub count-le : (slots : Slots) → count slots ≤ length slots
count-le [] = omega arith
count-le ((true, body) ∷ slots) = omega (arith, count-le slots)
count-le ((false, body) ∷ slots) = omega (arith, count-le slots)

present_first :
    (body : List ℕ) (slots : Slots)
    → ((i : ℕ) → present slots i ≡ get_or (bodies slots) i [])
    → (i : ℕ) → present ((true, body) ∷ slots) i ≡ get_or (body ∷ bodies slots) i []
present_first body slots there zero = refl
present_first body slots there (suc i) = there i

-- As many fragments as there are: all of them.
pub count_full :
    (slots : Slots)
    → count slots ≡ length slots
    → (size slots ≡ bytes (bodies slots)) × ((i : ℕ) → present slots i ≡ get_or (bodies slots) i [])
count_full [] h = (refl, λ i. refl)
count_full ((true, body) ∷ slots) h =
    let (same, there) = count_full slots (omega (arith, h)) in
    (omega (arith, same), present_first body slots there)
count_full ((false, body) ∷ slots) h = absurd (omega (arith, h, count-le slots))

get_or-set_same :
    (xs : List (List ℕ)) (i : ℕ) (v : List ℕ) → i < length xs → get_or (set xs i v) i [] ≡ v
get_or-set_same [] i v h = absurd (omega arith)
get_or-set_same (x ∷ xs) zero v h = refl
get_or-set_same (x ∷ xs) (suc i) v h = get_or-set_same xs i v (omega arith)

get_or-set_other :
    (xs : List (List ℕ)) (i j : ℕ) (v : List ℕ) → i ≢ j → get_or (set xs i v) j [] ≡ get_or xs j []
get_or-set_other [] i j v other = refl
get_or-set_other (x ∷ xs) zero zero v other = absurd (other refl)
get_or-set_other (x ∷ xs) zero (suc j) v other = refl
get_or-set_other (x ∷ xs) (suc i) zero v other = refl
get_or-set_other (x ∷ xs) (suc i) (suc j) v other =
    get_or-set_other xs i j v (λ e. other (ap suc e))

get_or-empties : (n j : ℕ) → get_or {A = List ℕ} (replicate n []) j [] ≡ []
get_or-empties zero j = refl
get_or-empties (suc n) zero = refl
get_or-empties (suc n) (suc j) = get_or-empties n j

get_or-append_empties :
    (xs : List (List ℕ)) (n j : ℕ) → get_or (xs ++ replicate n []) j [] ≡ get_or xs j []
get_or-append_empties [] n j = get_or-empties n j
get_or-append_empties (x ∷ xs) n zero = refl
get_or-append_empties (x ∷ xs) n (suc j) = get_or-append_empties xs n j

pub length-store :
    (i : ℕ) (b : List ℕ) (xs : List (List ℕ)) → length (store i b xs) ≡ max (length xs) (i + 1)
length-store i b xs = omega (
  arith,
  length-set (xs ++ replicate (i + 1 - length xs) []) i b,
  length-append xs (replicate (i + 1 - length xs) []),
  length-replicate {A = List ℕ} (i + 1 - length xs) [],
)

pub same_or_other : (i j : ℕ) → (i ≡ j) ⊎ (i ≢ j)
same_or_other i j = elim (Bool-cases (i == j)) [
  | inl e ↦ inl (ground (arith, e))
  | inr other ↦ inr (λ e. ground (arith, e, other))
]

present_here :
    (i : ℕ) (slots : Slots)
    → received (mark i slots) i ≡ true
    → present (mark i slots) i ≡ body_of slots i
present_here i slots there =
    ap (λ (r : Bool). if r then body_of (mark i slots) i else []) there ∙ body_of-mark i i slots

-- The vector of fragments follows the view.
pub store-present :
    (i : ℕ) (b : List ℕ) (xs : List (List ℕ)) (slots : Slots)
    → i < length slots
    → b ≡ body_of slots i
    → ((j : ℕ) → get_or xs j [] ≡ present slots j)
    → (j : ℕ) → get_or (store i b xs) j [] ≡ present (mark i slots) j
store-present i b xs slots h same there j =
    let n = i + 1 - length xs in
    let longer = xs ++ replicate n [] in
    let room : i < length longer =
      omega (arith, length-append xs (replicate n []), length-replicate {A = List ℕ} n []) in
    elim (same_or_other i j) [
      | inl e ↦
          ap (λ k. get_or (set longer i b) k []) (sym e)
          ∙ get_or-set_same longer i b room
          ∙ same
          ∙ sym (present_here i slots (received-mark_same i slots h))
          ∙ ap (present (mark i slots)) e
      | inr other ↦
          get_or-set_other longer i j b other
          ∙ get_or-append_empties xs n j
          ∙ there j
          ∙ sym (
              ap₂ (λ (r : Bool) (body : List ℕ). if r then body else [])
                (received-mark_other i j slots other) (body_of-mark i j slots))
    ]

pub received_full :
    (i : ℕ) (slots : Slots)
    → count slots ≡ length slots
    → i < length slots
    → received slots i ≡ true
received_full i [] h inside = absurd (omega arith)
received_full i ((false, body) ∷ slots) h inside = absurd (omega (arith, h, count-le slots))
received_full zero ((true, body) ∷ slots) h inside = refl
received_full (suc i) ((true, body) ∷ slots) h inside =
    received_full i slots (omega (arith, h)) (omega arith)

pub length-bodies : (slots : Slots) → length (bodies slots) ≡ length slots
length-bodies [] = refl
length-bodies ((r, body) ∷ slots) = ap suc (length-bodies slots)

-- Vectors of one length and with the same entries are the same.
pub same_entries :
    (xs ys : List (List ℕ))
    → length xs ≡ length ys
    → ((j : ℕ) → get_or xs j [] ≡ get_or ys j [])
    → xs ≡ ys
same_entries [] [] e same = refl
same_entries [] (y ∷ ys) e same = absurd (omega (arith, e))
same_entries (x ∷ xs) [] e same = absurd (omega (arith, e))
same_entries (x ∷ xs) (y ∷ ys) e same =
    ap₂ ◌∷◌ (same zero) (same_entries xs ys (omega (arith, e)) (λ j. same (suc j)))
