-- ===== src/TcpMig/Defragmenter.antt =====
-- Putting fragments together, inetstack/protocols/tcpmig/segment/defragmenter.rs. `none` is a panic.
pub mod Slots
pub mod Fill
pub mod Laws
use capybara.Base.{
  ℕ, zero, suc, ◌+◌, ◌-◌, List, [], ◌∷◌, ◌++◌, length, take, drop, set, replicate, ltb, leb, ◌==◌,
  ◌!=◌, Bool, true, false, Option, none, some, if◌then◌else◌,
}
use capybara.Base.Panic.{require, ◌>>=◌, ◌>>◌}
use capybara.TcpMig.Header.{TcpMigHeader}

-- `TcpMigDefragmenter`.
pub record TcpMigDefragmenter : Type 0 where
  pub fragments : List (List ℕ)
  pub total_fragments : Option ℕ
  pub current_fragments : ℕ
  pub current_size : ℕ

-- `TcpMigDefragmenter::new`.
abbrev pub new_defragmenter : TcpMigDefragmenter
new_defragmenter = record {
  fragments = [];
  total_fragments = none;
  current_fragments = 0;
  current_size = 0;
}

-- `TcpMigDefragmenter::reset`, which leaves the size.
abbrev pub reset : TcpMigDefragmenter → TcpMigDefragmenter
reset d = record d { fragments = []; total_fragments = none; current_fragments = 0 }

-- `self.fragments.reserve(count - self.fragments.len())`: the difference of a smaller count wraps
-- around, and no vector has that capacity.
abbrev pub reserve : ℕ → List (List ℕ) → Option (Unit {0})
reserve count buffers = require (leb (length buffers) count)

-- `self.fragments[offset] = buf`, after as many empty buffers as it takes to have that place.
abbrev pub store : ℕ → List ℕ → List (List ℕ) → List (List ℕ)
store offset buf buffers = set (buffers ++ replicate (offset + 1 - length buffers) []) offset buf

-- `buffer[start..end].copy_from_slice(&f)`, for each fragment in turn.
abbrev pub copy_all : List (List ℕ) → ℕ → List ℕ → Option (List ℕ)
copy_all [] start buffer = some buffer
copy_all (f ∷ buffers) start buffer =
    require (leb (start + length f) (length buffer))
    >> copy_all buffers (start + length f)
        (take start buffer ++ (f ++ drop (start + length f) buffer))

-- `DataBuffer::new(size).unwrap()`: zeros, and an error for no bytes at all.
abbrev pub new_buffer : ℕ → Option (List ℕ)
new_buffer size = require (ltb 0 size) >> some (replicate size 0)

-- The end of `defragment`, once the fragment has been stored.
unfoldable pub finish_message :
    TcpMigDefragmenter → TcpMigHeader → Option (TcpMigDefragmenter × Option (TcpMigHeader × List ℕ))
finish_message d hdr = elim d.total_fragments [
  | none ↦ some (d, none)
  | some count ↦ if count != d.current_fragments then some (d, none) else (do
    zeros ← new_buffer d.current_size
    buffer ← copy_all d.fragments 0 zeros
    some (reset d, some (record hdr { flag_next_fragment = false; fragment_offset = 0 }, buffer)))
]

-- The storing of a fragment, with the total that is known after it.
abbrev pub stored : TcpMigDefragmenter → Option ℕ → ℕ → List ℕ → TcpMigDefragmenter
stored d total offset buf = record {
  fragments = store offset buf d.fragments;
  total_fragments = total;
  current_fragments = d.current_fragments + 1;
  current_size = d.current_size + length buf;
}

-- `TcpMigDefragmenter::defragment`: the message, once all its fragments are there.
unfoldable pub defragment :
    TcpMigDefragmenter
    → TcpMigHeader
    → List ℕ
    → Option (TcpMigDefragmenter × Option (TcpMigHeader × List ℕ))
defragment d hdr buf =
    let offset = hdr.fragment_offset in
    if hdr.flag_next_fragment
    then finish_message (stored d d.total_fragments offset buf) hdr
    else if offset == 0
    then some (reset d, some (hdr, buf))
    else reserve (offset + 1) d.fragments
      >> finish_message (stored d (some (offset + 1)) offset buf) hdr
