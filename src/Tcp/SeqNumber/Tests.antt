-- ===== src/Tcp/SeqNumber/Tests.antt =====
-- The unit tests of tcp/sequence_number.rs, and the laws at concrete numbers.
use capybara.Base.{◌^◌, ◌≤◌, ◌≡◌, ◌↔◌, refl, true, arith}
use capybara.Tcp.SeqNumber.{add, sub, lt, gt}
use capybara.Tcp.SeqNumber.Laws.{lt-iff_ahead}

comparison : (lt 0 0x7fff_ffff ≡ true) × (lt 0 0x8000_0000 ≡ true) × (gt 0 0x8000_0001 ≡ true)
unfolding lt gt
comparison = (refl, refl, refl)

wrap_around : add 0xffff_ffff 1 ≡ 0
unfolding add
wrap_around = refl

lt-iff_ahead_example :
    (lt 0xffff_ffff 3 ≡ true) ↔ ((1 ≤ sub 3 0xffff_ffff) × (sub 3 0xffff_ffff ≤ 2 ^ 31))
lt-iff_ahead_example = lt-iff_ahead 0xffff_ffff 3 (omega arith) (omega arith)
