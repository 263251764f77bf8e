-- ===== src/Tcp/Established/Sender/Unsent.antt =====
-- What is taken from the queue of unsent buffers.
use capybara.Base.{
  ℕ, ◌-◌, ◌≤◌, ◌≡◌, refl, sym, ◌∙◌, ap, arith, Bool, true, false, List, [], ◌∷◌, ◌++◌, some, length,
  take, drop, min, ltb, Bool-cases, inl, inr, adjust_lem, trim_lem, length-take, take-append-drop,
  append_assoc, leb,
}
use capybara.Tcp.Established.Block.{Buffer}
use capybara.Tcp.Established.Sender.{pop_unsent, pop_one_unsent_byte}

abbrev pub unsent_bytes : List Buffer → Buffer
unsent_bytes [] = []
unsent_bytes (buf ∷ rest) = buf ++ unsent_bytes rest

split_front :
    (n : ℕ) (buf rest : Buffer)
    → n ≤ length buf
    → (take (length buf - (length buf - n)) buf ++ (drop n buf ++ rest) ≡ buf ++ rest)
      × (length (take (length buf - (length buf - n)) buf) ≡ n)
split_front n buf rest h =
    let same : length buf - (length buf - n) ≡ n = omega (arith, h) in
    rw same (
      sym (append_assoc (take n buf) (drop n buf) rest)
          ∙ ap (λ xs. xs ++ rest) (take-append-drop n buf),
      omega (arith, length-take n buf, h),
    )

-- From a queue that is not empty, `pop_unsent` takes at most `max_bytes` bytes, all of a buffer that
-- fits, without a panic: what it takes and what it leaves are the bytes of the queue in order, and
-- PSH is set exactly when the whole buffer was taken.
pub pop_unsent_lem :
    (buf : Buffer) (rest : List Buffer) (max_bytes : ℕ)
    → (front : Buffer) × (push : Bool) × (left : List Buffer) × (pop_unsent (buf ∷ rest) max_bytes
        ≡ some (some (front, push, left)))
      × (front ++ unsent_bytes left ≡ buf ++ unsent_bytes rest)
      × (length front ≡ min max_bytes (length buf))
      × (push ≡ leb (length buf) max_bytes)
unfolding pop_unsent
pop_unsent_lem buf rest max_bytes = elim (Bool-cases (ltb max_bytes (length buf))) [
  | inl e ↦
      rw
        (
          e,
          adjust_lem max_bytes buf (ground (arith, e)),
          trim_lem (length buf - max_bytes) buf (ground arith),
        )
        (
          take (length buf - (length buf - max_bytes)) buf,
          false,
          drop max_bytes buf ∷ rest,
          refl,
          (split_front max_bytes buf (unsent_bytes rest) (ground (arith, e))).0,
          ground (arith, e, (split_front max_bytes buf (unsent_bytes rest) (ground (arith, e))).1),
          ground (arith, e),
        )
  | inr e ↦ rw e (buf, true, rest, refl, refl, ground (arith, e), ground (arith, e))
]

-- The probe of a closed window is the first byte of the queue, and the rest stays.
pub pop_one_unsent_byte_lem :
    (buf : Buffer) (rest : List Buffer)
    → 1 ≤ length buf
    → (probe : Buffer) × (left : List Buffer) × (pop_one_unsent_byte (buf ∷ rest)
        ≡ some (some (probe, left)))
      × (probe ++ unsent_bytes left ≡ buf ++ unsent_bytes rest)
      × (length probe ≡ 1)
unfolding pop_one_unsent_byte
pop_one_unsent_byte_lem buf rest h =
    rw (adjust_lem 1 buf h, trim_lem (length buf - 1) buf (omega arith))
      (
        take (length buf - (length buf - 1)) buf,
        drop 1 buf ∷ rest,
        refl,
        (split_front 1 buf (unsent_bytes rest) h).0,
        (split_front 1 buf (unsent_bytes rest) h).1,
      )
