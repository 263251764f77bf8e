-- ===== src/Base/Fallible.antt =====
-- `runtime/fail.rs`: errors as values, and the chain of fallible steps.
use Prim.Native.String.{String}
use mathlib.Core.Bool.{Bool}
use capybara.Base.Tests.{if◌then◌else◌}

-- The `libc` error numbers that the modelled code uses, by name.
pub data Errno : Type 0 where
  ebadmsg enotsup einval ebusy eaddrinuse enoent eagain eio eexist ebadf enotconn : Errno

-- `Fail`.
pub record Fail : Type 0 where
  pub errno : Errno
  pub cause : String

-- `Result<A, Fail>`, with `Ok` and `Err`.
pub data Result {ℓ} (A : Type ℓ) : Type ℓ where
  err : Fail → Result A
  ok : A → Result A

abbrev pub fail {ℓ} : {A : Type ℓ} → Errno → String → Result A
fail errno cause = err (record { errno = errno; cause = cause })

-- `if bad { return Err(Fail::new(errno, cause)); }`
abbrev pub reject : Bool → Errno → String → Result (Unit {0})
reject bad errno cause = if bad then fail errno cause else ok tt

-- The operator `?`, and a test before the next statement.
infixl 5 ◌>>=◌ ◌>>◌
abbrev pub ◌>>=◌ {ℓ κ} : {B : Type κ} {A : Type ℓ} → Result A → (A → Result B) → Result B
result >>= next = elim result [ ok value ↦ next value | err failure ↦ err failure ]

abbrev pub ◌>>◌ {ℓ} : {B : Type ℓ} → Result (Unit {0}) → Result B → Result B
test >> rest = elim test [ ok passed ↦ rest | err failure ↦ err failure ]
