-- ===== src/Base/Exec.antt =====
-- A coroutine that runs on one database session: it reads and writes the session's state, and
-- returns or raises. What was written before a raise stays in the session, so the state comes back
-- beside the exception too; `transact` is what discards it.
use mathlib.Core.Bool.{Bool, true, false}
use mathlib.Core.Option.{Option, none, some}
use mathlib.Core.Path.{◌≡◌, refl}
use car_flow_mvp.Base.Result.{Result, ok, err}
use car_flow_mvp.Base.Tests.{⊤}

abbrev pub Exec : Type 0 → Type 0 → Type 0 → Type 0
Exec S E A = S → Result E A × S

module _ {S E A : Type 0} where
  abbrev pub pure : A → Exec S E A
  pure a s = (ok a, s)

  abbrev pub raise : E → Exec S E A
  raise e s = (err e, s)

  abbrev pub lift : Result E A → Exec S E A
  lift r s = (r, s)

  abbrev pub gets : (S → A) → Exec S E A
  gets f s = (ok (f s), s)

  -- `if row is None: raise e`
  abbrev pub or_raise : E → Option A → Exec S E A
  or_raise e none = raise e
  or_raise e (some a) = pure a

-- What comes after a block, by how the block ended.
abbrev pub continue : {S E A B : Type 0} → (A → Exec S E B) → Result E A × S → Result E B × S
continue f (ok a, s) = f a s
continue f (err e, s) = (err e, s)

infixl 5 ◌>>=◌ ◌>>◌
abbrev pub ◌>>=◌ : {S E A B : Type 0} → Exec S E A → (A → Exec S E B) → Exec S E B
◌>>=◌ m f s = continue f (m s)

abbrev pub ◌>>◌ : {S E B : Type 0} → Exec S E ⊤ → Exec S E B → Exec S E B
m >> k = m >>= λ _. k

module _ {S E : Type 0} where
  abbrev pub modify : (S → S) → Exec S E ⊤
  modify f s = (ok tt, f s)

  -- `if test: raise e`
  abbrev pub raise_if : Bool → E → Exec S E ⊤
  raise_if true e s = (err e, s)
  raise_if false e s = (ok tt, s)

  -- `if test: m`
  abbrev pub when : Bool → Exec S E ⊤ → Exec S E ⊤
  when true m s = m s
  when false m s = (ok tt, s)

-- `except E as e: raise f(e) from e` around a block.
abbrev pub caught : {S E E' A : Type 0} → (E → E') → Result E A × S → Result E' A × S
caught f (ok a, s) = (ok a, s)
caught f (err e, s) = (err (f e), s)

abbrev pub catching : {S E E' A : Type 0} → (E → E') → Exec S E A → Exec S E' A
catching f m s = caught f (m s)

-- One transaction: the session is committed if the block returns, and rolled back if it raises.
abbrev pub settle : {S E A : Type 0} → S → Result E A × S → Result E A × S
settle before (ok a, s) = (ok a, s)
settle before (err e, s) = (err e, before)

abbrev pub transact : {S E A : Type 0} → Exec S E A → Exec S E A
transact m s = settle s (m s)

-- A transaction that returns has the block's state, and one that raises has the state before it.
pub settle-ok :
    {S E A : Type 0} (before : S) (out : Result E A × S) {a : A}
    → (settle before out).0 ≡ ok a
    → (out.0 ≡ ok a) × (settle before out ≡ out)
settle-ok before (ok a, s) h = (h, refl)
settle-ok before (err e, s) h = cc

pub settle-err :
    {S E A : Type 0} (before : S) (out : Result E A × S) {e : E}
    → (settle before out).0 ≡ err e
    → (settle before out).1 ≡ before
settle-err before (ok a, s) h = cc
settle-err before (err e, s) h = refl

-- Inversion of the steps of a coroutine that returned.
pub bind-ok :
    {S E A B : Type 0} (m : Exec S E A) (f : A → Exec S E B) (s s' : S) {b : B}
    → (m >>= f) s ≡ (ok b, s')
    → (a : A) × (s1 : S) × (m s ≡ (ok a, s1)) × (f a s1 ≡ (ok b, s'))
bind-ok {S} {E} {A} {B} m f s s' {b} h = go (m s) refl h
  where
    go :
        (out : Result E A × S)
        → m s ≡ out
        → continue f out ≡ (ok b, s')
        → (a : A) × (s1 : S) × (m s ≡ (ok a, s1)) × (f a s1 ≡ (ok b, s'))
    go (ok a, s1) e k = (a, s1, e, k)
    go (err x, s1) e k = cc

pub raise_if-ok :
    {S E : Type 0} (test : Bool) (e : E) (s s' : S) {x : ⊤}
    → raise_if test e s ≡ (ok x, s')
    → (test ≡ false) × (s' ≡ s)
raise_if-ok true e s s' h = cc
raise_if-ok false e s s' h = (refl, cc)

pub or_raise-ok :
    {S E A : Type 0} (e : E) (o : Option A) (s s' : S) {a : A}
    → or_raise e o s ≡ (ok a, s')
    → (o ≡ some a) × (s' ≡ s)
or_raise-ok e none s s' h = cc
or_raise-ok e (some x) s s' h = (cc, cc)

pub pure-ok :
    {S E A : Type 0} (a : A) (s s' : S) {b : A} → pure {E = E} a s ≡ (ok b, s') → (b ≡ a) × (s' ≡ s)
pure-ok a s s' h = (cc, cc)
