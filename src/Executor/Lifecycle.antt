-- ===== src/Executor/Lifecycle.antt =====
-- executor/base.py's Executor: open, next and close, which call the hooks _open, _next and _close of
-- the subclass. These are any functions on the subclass's state.
pub mod Protocol
use mini_postgres.Base.{
  Bool, true, false, not, ◌||◌, Option, List, [], ◌∷◌, if◌then◌else◌, Result, ok, err, Error,
  runtime_error,
}
use mini_postgres.Action.{Action}

-- the type of None, which these methods return
abbrev pub NoneType : Type 0
NoneType = Unit

pub record Hooks (S A : Type 0) : Type 0 where
  pub on_open : Action S NoneType
  pub on_next : Action S (Option A)
  pub on_close : Action S NoneType

pub record Lifecycle (S : Type 0) : Type 0 where
  pub opened : Bool
  pub closed : Bool
  pub inner : S

abbrev pub new_executor : {S : Type 0} → S → Lifecycle S
new_executor s = record { opened = false; closed = false; inner = s }

module _ {S A : Type 0} (hooks : Hooks S A) where
  -- an exception of _close replaces that of _open
  abbrev pub after_failed_open : Error → Result NoneType × S → Result NoneType × Lifecycle S
  after_failed_open e (ok u, s) = (err e, record { opened = false; closed = true; inner = s })
  after_failed_open e (err x, s) = (err x, record { opened = false; closed = true; inner = s })

  abbrev pub after_open : Result NoneType × S → Result NoneType × Lifecycle S
  after_open (ok u, s) = (ok tt, record { opened = true; closed = false; inner = s })
  after_open (err e, s) = after_failed_open e (hooks.on_close s)

  unfoldable pub open_executor : Action (Lifecycle S) NoneType
  open_executor x =
      if x.opened
      then (ok tt, x)
      else if x.closed
      then (err runtime_error, x)
      else after_open (hooks.on_open x.inner)

  abbrev pub after_next : Lifecycle S → Result (Option A) × S → Result (Option A) × Lifecycle S
  after_next x (r, s) = (r, record x { inner = s })

  unfoldable pub next_row : Action (Lifecycle S) (Option A)
  next_row x =
      if not x.opened || x.closed
      then (err runtime_error, x)
      else after_next x (hooks.on_next x.inner)

  abbrev pub after_close : Lifecycle S → Result NoneType × S → Result NoneType × Lifecycle S
  after_close x (r, s) = (r, record x { closed = true; inner = s })

  unfoldable pub close_executor : Action (Lifecycle S) NoneType
  close_executor x =
      if x.closed
      then (ok tt, x)
      else if x.opened
      then after_close x (hooks.on_close x.inner)
      else (ok tt, record x { closed = true })
