-- ===== src/Tcp/Established/Receive/Diagram.antt =====
-- The arrows of the state diagram, and predicates on the result of an operation that can panic.
use capybara.Base.{Bool, true, false, Option, some, none, if◌then◌else◌}
use capybara.Base.Panic.{◌>>=◌}
use capybara.Tcp.Established.Block.{
  State, established, fin_wait1, fin_wait2, closing, time_wait, close_wait, last_ack, closed,
}
use capybara.Tcp.Established.Receive.{after_all_acked, after_fin_received}

-- What one event of a segment does to the state: everything sent is acknowledged, the FIN of the
-- peer is consumed, or the connection is shut by a RST or a SYN. These are the arrows of RFC 793.
pub data Move : State → State → Type 0 where
  our_fin_acked : Move fin_wait1 fin_wait2
  closing_acked : Move closing time_wait
  last_acked : Move last_ack closed
  fin_in_established : Move established close_wait
  fin_in_fin_wait1 : Move fin_wait1 closing
  fin_in_fin_wait2 : Move fin_wait2 time_wait
  shut : (s : State) → Move s closed

-- None, one or two moves.
pub data Moves : State → State → Type 0 where
  stay : (s : State) → Moves s s
  once : (s t : State) → Move s t → Moves s t
  twice : (s t u : State) → Move s t → Move t u → Moves s u

-- At most one move.
pub data MovesOnce : State → State → Type 0 where
  same : (s : State) → MovesOnce s s
  one : (s t : State) → Move s t → MovesOnce s t

pub after_all_acked-MovesOnce : (s : State) → MovesOnce s (after_all_acked s)
unfolding after_all_acked
after_all_acked-MovesOnce established = same established
after_all_acked-MovesOnce fin_wait1 = one fin_wait1 fin_wait2 our_fin_acked
after_all_acked-MovesOnce fin_wait2 = same fin_wait2
after_all_acked-MovesOnce closing = one closing time_wait closing_acked
after_all_acked-MovesOnce time_wait = same time_wait
after_all_acked-MovesOnce close_wait = same close_wait
after_all_acked-MovesOnce last_ack = one last_ack closed last_acked
after_all_acked-MovesOnce closed = same closed

-- `P` holds of the result, if there is one.
pub data Holds {ℓ} {A : Type ℓ} (P : A → Type 0) : Option A → Type ℓ where
  panicked : Holds P none
  returned : (a : A) → P a → Holds P (some a)

pub after_fin_received-MovesOnce : (s : State) → Holds (MovesOnce s) (after_fin_received s)
unfolding after_fin_received
after_fin_received-MovesOnce established =
    returned close_wait (one established close_wait fin_in_established)
after_fin_received-MovesOnce fin_wait1 = returned closing (one fin_wait1 closing fin_in_fin_wait1)
after_fin_received-MovesOnce fin_wait2 =
    returned time_wait (one fin_wait2 time_wait fin_in_fin_wait2)
after_fin_received-MovesOnce closing = returned closing (same closing)
after_fin_received-MovesOnce time_wait = returned time_wait (same time_wait)
after_fin_received-MovesOnce close_wait = returned close_wait (same close_wait)
after_fin_received-MovesOnce last_ack = returned last_ack (same last_ack)
after_fin_received-MovesOnce closed = panicked

pub join : (s t u : State) → MovesOnce s t → MovesOnce t u → Moves s u
join s _ _ (same _) (same _) = stay s
join s _ u (same _) (one _ _ m) = once s u m
join s t _ (one _ _ m) (same _) = once s t m
join s t u (one _ _ m) (one _ _ m') = twice s t u m m'

pub Holds-bind {ℓ κ} :
    {A : Type ℓ} {B : Type κ} (P : A → Type 0) (Q : B → Type 0) (x : Option A) (f : A → Option B)
    → Holds P x
    → ((a : A) → P a → Holds Q (f a))
    → Holds Q (x >>= f)
Holds-bind P Q _ f panicked k = panicked
Holds-bind P Q _ f (returned a h) k = k a h

pub Holds-map {ℓ} :
    {A : Type ℓ} {P Q : A → Type 0} (x : Option A) → Holds P x → ((a : A) → P a → Q a) → Holds Q x
Holds-map _ panicked k = panicked
Holds-map _ (returned a h) k = returned a (k a h)

pub at_result {ℓ} : {A : Type ℓ} (P : A → Type 0) (a : A) → Holds P (some a) → P a
at_result P _ (returned a h) = h

-- A result of any kind.
pub trivially {ℓ} : {A : Type ℓ} (x : Option A) → Holds (λ a. Unit {0}) x
trivially none = panicked
trivially (some a) = returned a tt

pub Holds-if {ℓ} :
    {A : Type ℓ} (P : A → Type 0) (b : Bool) (x y : Option A)
    → Holds P x
    → Holds P y
    → Holds P (if b then x else y)
Holds-if P true x y h h' = h
Holds-if P false x y h h' = h'
