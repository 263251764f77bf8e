-- ===== src/TcpMig/Defragmenter/Laws.antt =====
-- The defragmenter implements the abstract view: the fragments of one message, in any order, each
-- once, give the message.
use capybara.Base.{
  ℕ, ◌+◌, ◌-◌, ◌≤◌, ◌<◌, ◌≡◌, ◌≢◌, ◌⊎◌, inl, inr, refl, sym, ap, ◌∙◌, arith, List, [], ◌++◌, length,
  get_or, replicate, Bool, true, false, none, some,
}
use capybara.TcpMig.Defragmenter.{
  TcpMigDefragmenter, reset, stored, copy_all, finish_message, defragment,
}
use capybara.TcpMig.Defragmenter.Fill.{concat, bytes, copy_all_lem}
use capybara.TcpMig.Defragmenter.Slots.{
  Slots, received, body_of, mark, bodies, present, count, size, length-mark, count-mark,
  received-mark_same, received-mark_other, count_full, received_full, length-bodies, length-store,
  store-present, same_entries,
}
use capybara.TcpMig.Header.{TcpMigHeader}

-- The defragmenter holds what the view says, beside `extra` bytes that it has counted before.
pub record Represents (extra : ℕ) (slots : Slots) (d : TcpMigDefragmenter) : Type 0 where
  pub contents : (j : ℕ) → get_or d.fragments j [] ≡ present slots j
  pub within : length d.fragments ≤ length slots
  pub count_is : d.current_fragments ≡ count slots
  pub sized : d.current_size ≡ extra + size slots
  pub known :
      received slots (length slots - 1) ≡ true
      → (d.total_fragments ≡ some (length slots)) × (length d.fragments ≡ length slots)
  pub unknown : received slots (length slots - 1) ≡ false → d.total_fragments ≡ none

-- With no fragments, and the size that it has counted.
abbrev pub emptied : TcpMigDefragmenter → TcpMigDefragmenter
emptied d = record {
  fragments = [];
  total_fragments = none;
  current_fragments = 0;
  current_size = d.current_size;
}

-- A total that is not reached yet.
pub finish-waits :
    (d : TcpMigDefragmenter) (hdr : TcpMigHeader) (k : ℕ)
    → (d.total_fragments ≡ none) ⊎ (d.total_fragments ≡ some k)
    → k ≢ d.current_fragments
    → finish_message d hdr ≡ some (d, none)
unfolding finish_message
finish-waits d hdr k (inl e) differ = ground (arith, e)
finish-waits d hdr k (inr e) differ = ground (arith, e, differ)

-- The header of the message, made from that of the fragment that completes it.
abbrev pub whole_header : TcpMigHeader → TcpMigHeader
whole_header hdr = record hdr { flag_next_fragment = false; fragment_offset = 0 }

finish-delivers :
    (d : TcpMigDefragmenter) (hdr : TcpMigHeader) (buffer : List ℕ)
    → d.total_fragments ≡ some d.current_fragments
    → 1 ≤ d.current_size
    → copy_all d.fragments 0 (replicate d.current_size 0) ≡ some buffer
    → finish_message d hdr ≡ some (reset d, some (whole_header hdr, buffer))
unfolding finish_message
finish-delivers d hdr buffer e some_bytes copied = ground (arith, e, some_bytes, copied)

-- What the end of `defragment` does, once the view says that all the fragments are there.
pub finish-full :
    (extra : ℕ) (slots : Slots) (d : TcpMigDefragmenter) (hdr : TcpMigHeader)
    → Represents extra slots d
    → 1 ≤ length slots
    → 1 ≤ extra + bytes (bodies slots)
    → count slots ≡ length slots
    → finish_message d hdr
      ≡ some (reset d, some (whole_header hdr, concat (bodies slots) ++ replicate extra 0))
finish-full extra slots d hdr r some_slots some_bytes full =
    let (same_size, there) = count_full slots full in
    let (total, long) = r.known (received_full (length slots - 1) slots full (omega arith)) in
    let all : d.fragments ≡ bodies slots =
      same_entries d.fragments (bodies slots) (long ∙ sym (length-bodies slots))
        (λ j. r.contents j ∙ there j) in
    let left : d.current_size - bytes (bodies slots) ≡ extra = omega (arith, r.sized, same_size) in
    finish-delivers d hdr (concat (bodies slots) ++ replicate extra 0)
      (total ∙ ap some (omega (arith, r.count_is, full)))
      (omega (arith, r.sized, same_size, some_bytes))
      (ap (λ b. copy_all b 0 (replicate {A = ℕ} d.current_size 0)) all
        ∙ copy_all_lem (bodies slots) [] d.current_size (omega (arith, r.sized, same_size))
        ∙ ap (λ k. some (concat (bodies slots) ++ replicate {A = ℕ} k 0)) left)

-- Whether the last fragment has been received, after one more.
last-mark :
    (i : ℕ) (slots : Slots)
    → received (mark i slots) (length (mark i slots) - 1)
      ≡ received (mark i slots) (length slots - 1)
last-mark i slots = ap (λ k. received (mark i slots) (k - 1)) (length-mark i slots)

pub true-false : (b : Bool) → b ≡ true → b ≢ false
true-false b e f = ground (arith, e, f)

-- A fragment that is not the last one, and the last one.
pub stored-other :
    (extra : ℕ) (slots : Slots) (d : TcpMigDefragmenter) (i : ℕ)
    → Represents extra slots d
    → i + 1 < length slots
    → received slots i ≡ false
    → Represents extra (mark i slots) (stored d d.total_fragments i (body_of slots i))
stored-other extra slots d i r inside new =
    let k = length slots in
    let (more, bigger) = count-mark i slots (omega arith) new in
    let len = length-mark i slots in
    let long = length-store i (body_of slots i) d.fragments in
    let same_last : received (mark i slots) (length (mark i slots) - 1) ≡ received slots (k - 1) =
      last-mark i slots ∙ received-mark_other i (k - 1) slots (λ e. omega (arith, e, inside)) in
    record {
      contents = store-present i (body_of slots i) d.fragments slots (omega arith) refl r.contents;
      within = omega (arith, long, len, r.within);
      count_is = omega (arith, r.count_is, more);
      sized = omega (arith, r.sized, bigger);
      known = λ there.
          let (total, full) = r.known (sym same_last ∙ there) in
          (total ∙ ap some (sym len), omega (arith, long, len, full));
      unknown = λ missing. r.unknown (sym same_last ∙ missing);
    }

pub stored-last :
    (extra : ℕ) (slots : Slots) (d : TcpMigDefragmenter) (i : ℕ)
    → Represents extra slots d
    → i + 1 ≡ length slots
    → received slots i ≡ false
    → Represents extra (mark i slots) (stored d (some (i + 1)) i (body_of slots i))
stored-last extra slots d i r at_end new =
    let (more, bigger) = count-mark i slots (omega arith) new in
    let len = length-mark i slots in
    let long = length-store i (body_of slots i) d.fragments in
    let there : received (mark i slots) (length (mark i slots) - 1) ≡ true =
      last-mark i slots
      ∙ ap (received (mark i slots)) (omega (arith, at_end))
      ∙ received-mark_same i slots (omega arith) in
    record {
      contents = store-present i (body_of slots i) d.fragments slots (omega arith) refl r.contents;
      within = omega (arith, long, len, r.within, at_end);
      count_is = omega (arith, r.count_is, more);
      sized = omega (arith, r.sized, bigger);
      known = λ seen.
          (ap some (omega (arith, len, at_end)), omega (arith, long, len, r.within, at_end));
      unknown = λ missing. absurd (true-false _ there missing);
    }

-- What `defragment` does with a fragment that is not the last one, and with the last one of several.
pub defragment-other :
    (d : TcpMigDefragmenter) (hdr : TcpMigHeader) (buf : List ℕ)
    → hdr.flag_next_fragment ≡ true
    → defragment d hdr buf ≡ finish_message (stored d d.total_fragments hdr.fragment_offset buf) hdr
unfolding defragment
defragment-other d hdr buf e = ground (arith, e)

pub defragment-last :
    (d : TcpMigDefragmenter) (hdr : TcpMigHeader) (buf : List ℕ)
    → hdr.flag_next_fragment ≡ false
    → 1 ≤ hdr.fragment_offset
    → length d.fragments ≤ hdr.fragment_offset + 1
    → defragment d hdr buf
      ≡ finish_message (stored d (some (hdr.fragment_offset + 1)) hdr.fragment_offset buf) hdr
unfolding defragment
defragment-last d hdr buf e later room = ground (arith, e, later, room)
