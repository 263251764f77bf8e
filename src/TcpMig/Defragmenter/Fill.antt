-- ===== src/TcpMig/Defragmenter/Fill.antt =====
-- Copying fragments into a buffer of zeros.
use capybara.Base.{
  ℕ, zero, suc, ◌+◌, ◌-◌, ◌≤◌, ◌≡◌, sym, ap, ap₂, ◌∙◌, arith, List, [], ◌∷◌, ◌++◌, append_assoc,
  length, length-append, length-replicate, take, drop, take-append, drop-append_ge, replicate, some,
}
use capybara.TcpMig.Defragmenter.{copy_all}

abbrev pub concat : List (List ℕ) → List ℕ
concat [] = []
concat (f ∷ buffers) = f ++ concat buffers

-- The bytes of the buffers, counted.
abbrev pub bytes : List (List ℕ) → ℕ
bytes [] = 0
bytes (f ∷ buffers) = length f + bytes buffers

drop-replicate : (n m : ℕ) → drop {A = ℕ} n (replicate m 0) ≡ replicate (m - n) 0
drop-replicate zero m = let all : m ≡ m - 0 = omega arith in ap (λ k. replicate {A = ℕ} k 0) all
drop-replicate (suc n) zero =
    let no : zero ≡ zero - suc n = omega arith in ap (λ k. replicate {A = ℕ} k 0) no
drop-replicate (suc n) (suc m) =
    let less : m - n ≡ suc m - suc n = omega arith in
    drop-replicate n m ∙ ap (λ k. replicate {A = ℕ} k 0) less

copy_first :
    (f : List ℕ) (buffers : List (List ℕ)) (start : ℕ) (buffer : List ℕ)
    → start + length f ≤ length buffer
    → copy_all (f ∷ buffers) start buffer
      ≡ copy_all buffers
          (start + length f)
          (take start buffer ++ (f ++ drop (start + length f) buffer))
copy_first f buffers start buffer h = ground (arith, h)

-- The buffer has been filled up to `start`, and there is room for the others.
pub copy_all_lem :
    (buffers : List (List ℕ)) (front : List ℕ) (room : ℕ)
    → bytes buffers ≤ room
    → copy_all buffers (length front) (front ++ replicate room 0)
      ≡ some (front ++ (concat buffers ++ replicate (room - bytes buffers) 0))
copy_all_lem [] front room h = ap (λ k. some (front ++ replicate {A = ℕ} k 0)) (omega arith)
copy_all_lem (f ∷ buffers) front room h =
    let n = length f in
    let buffer : List ℕ = front ++ replicate room 0 in
    let kept : take (length front) buffer ≡ front = take-append front (replicate room 0) in
    let behind : drop (length front + n) buffer ≡ replicate (room - n) 0 =
      drop-append_ge (length front + n) front (replicate room 0) (omega arith)
      ∙ drop-replicate (length front + n - length front) room
      ∙ ap (λ k. replicate {A = ℕ} (room - k) 0) (omega arith) in
    copy_first f buffers (length front) buffer
      (omega (arith, h, length-append front (replicate room 0), length-replicate {A = ℕ} room 0))
    ∙ ap₂ (λ (a b : List ℕ). copy_all buffers (length front + n) (a ++ (f ++ b))) kept behind
    ∙ ap₂ (λ (k : ℕ) (b : List ℕ). copy_all buffers k b) (sym (length-append front f))
        (sym (append_assoc front f (replicate (room - n) 0)))
    ∙ copy_all_lem buffers (front ++ f) (room - n) (omega (arith, h))
    ∙ ap some (
        append_assoc front f _
        ∙ ap (λ (b : List ℕ). front ++ b)
            (sym (append_assoc f (concat buffers) _)
              ∙ ap (λ k. (f ++ concat buffers) ++ replicate {A = ℕ} k 0) (omega arith)))
