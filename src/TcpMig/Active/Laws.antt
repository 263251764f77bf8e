-- ===== src/TcpMig/Active/Laws.antt =====
-- What a side of a migration sends, and how its fragments are taken by the other side.
use capybara.Base.{
  ℕ, zero, suc, ◌+◌, ◌-◌, ◌/◌, ◌^◌, ◌≤◌, ◌<◌, ◌≡◌, inl, inr, refl, arith, List, [], ◌∷◌, length,
  true, false, none, some, leb, u16_mod, Option-cases,
}
use mathlib.Core.Path.{subst}
use capybara.Base.Panic.{require-eq_some}
use capybara.TcpMig.Active.{ActiveMigration, outgoing, send, fragment_fuel}
use capybara.TcpMig.Fragmenter.{
  TcpMigSegment, TcpMigFragmenter, max_fragment_size, next, cut, collect, fragments,
}
use capybara.TcpMig.Fragmenter.Laws.{AreFragments, collect-AreFragments}
use capybara.TcpMig.Header.{TcpMigHeader, MigrationStage}

le→leb : (a b : ℕ) → a ≤ b → leb a b ≡ true
le→leb a b h = ground arith

-- A list of segments of one stage.
abbrev pub AllAt : MigrationStage → List TcpMigSegment → Type 0
AllAt stage [] = Unit
AllAt stage (s ∷ segments) = (s.tcpmig_hdr.stage ≡ stage) × AllAt stage segments

-- Every fragment has the stage of its segment.
next-stage :
    (f f' : TcpMigFragmenter) (s : TcpMigSegment)
    → next f ≡ some (some s, f')
    → (s.tcpmig_hdr.stage ≡ f.segment.tcpmig_hdr.stage)
      × (f'.segment.tcpmig_hdr.stage ≡ f.segment.tcpmig_hdr.stage)
unfolding next
next-stage f f' s e = elim (Option-cases (cut max_fragment_size f.segment.payload)) [
  | inl failed ↦ ground (arith, failed, e)
  | inr ((front, rest, more), done) ↦ ground (arith, done, e)
]

pub collect-AllAt :
    (fuel : ℕ) (f : TcpMigFragmenter) (segments : List TcpMigSegment)
    → collect fuel f ≡ some segments
    → AllAt f.segment.tcpmig_hdr.stage segments
unfolding collect
collect-AllAt zero f segments e = cc
collect-AllAt (suc fuel) f segments e = elim (Option-cases (next f)) [
  | inl failed ↦ ground (arith, failed, e)
  | inr ((none, f'), done) ↦
      let same : [] ≡ segments = ground (arith, done, e) in
      subst (AllAt f.segment.tcpmig_hdr.stage) same tt
  | inr ((some s, f'), done) ↦ elim (Option-cases (collect fuel f')) [
    | inl failed ↦ ground (arith, done, failed, e)
    | inr (others, rest) ↦
        let same : s ∷ others ≡ segments = ground (arith, done, rest, e) in
        let (first_stage, left_stage) = next-stage f f' s done in
        subst (AllAt f.segment.tcpmig_hdr.stage) same (
          first_stage,
          subst (λ stage. AllAt stage others) left_stage (collect-AllAt fuel f' others rest),
        )
  ]
]

-- A segment without data is one fragment.
pub send-empty :
    (a : ActiveMigration) (hdr : TcpMigHeader)
    → send a hdr []
      ≡ some (outgoing a (record hdr { flag_next_fragment = false; fragment_offset = 0 }) [] ∷ [])
unfolding send collect next cut
send-empty a hdr = refl

pub send-AllAt :
    (a : ActiveMigration) (hdr : TcpMigHeader) (buf : List ℕ) (segments : List TcpMigSegment)
    → send a hdr buf ≡ some segments
    → AllAt hdr.stage segments
unfolding send
send-AllAt a hdr buf segments e =
    collect-AllAt (fragment_fuel buf) (fragments (outgoing a hdr buf)) segments
      (require-eq_some _ _ e).1

-- Data whose fragments can be numbered are sent as their fragments.
pub send-AreFragments :
    (a : ActiveMigration) (hdr : TcpMigHeader) (buf : List ℕ)
    → length buf / max_fragment_size + 1 < 2 ^ 16
    → (segments : List TcpMigSegment) × (send a hdr buf ≡ some segments)
      × AreFragments (outgoing a hdr buf) 0 buf segments
unfolding send
send-AreFragments a hdr buf small =
    let (segments, e, are, same) =
      collect-AreFragments (outgoing a hdr buf) (fragment_fuel buf) small (omega arith) in
    let numbered : leb (length buf / max_fragment_size) (u16_mod - 1) ≡ true =
      le→leb _ _ (omega arith) in
    (segments, rw numbered e, are)
