-- ===== src/Executor/Lifecycle/Protocol.antt =====
-- In which order an executor calls its subclass's hooks.
use mini_postgres.Base.{Bool, true, false, List, [], ◌∷◌, Result, ok, err}
use mini_postgres.Action.{Action}
use mini_postgres.Executor.Lifecycle.{
  Hooks, Lifecycle, new_executor, after_failed_open, after_open, open_executor, next_row,
  close_executor, NoneType,
}

pub data Hook : Type 0 where
  open_hook next_hook close_hook : Hook

pub data Call : Type 0 where
  call_open call_next call_close : Call

-- The hooks that were called, the last one first.
abbrev pub Logged : Type 0 → Type 0
Logged S = List Hook × S

-- _open, and then _next any number of times
pub data IsOpened : List Hook → Type 0 where
  just_opened : IsOpened (open_hook ∷ [])
  after_next_hook : (log : List Hook) → IsOpened log → IsOpened (next_hook ∷ log)

-- The calls so far, by the flags opened and closed.
pub data IsProtocol : Bool → Bool → List Hook → Type 0 where
  fresh : IsProtocol false false []
  running : (log : List Hook) → IsOpened log → IsProtocol true false log
  never_opened : IsProtocol false true []
  failed_to_open : IsProtocol false true (close_hook ∷ open_hook ∷ [])
  ended : (log : List Hook) → IsOpened log → IsProtocol true true (close_hook ∷ log)

module _ {S A : Type 0} (hooks : Hooks S A) where
  abbrev logging : {B : Type 0} → Hook → Action S B → Action (Logged S) B
  logging hook f (log, s) = let (r, s') = f s in (r, (hook ∷ log, s'))

  -- The hooks, with a log of their calls.
  abbrev pub logged : Hooks (Logged S) A
  logged = record {
    on_open = logging open_hook hooks.on_open;
    on_next = logging next_hook hooks.on_next;
    on_close = logging close_hook hooks.on_close;
  }

  -- The executor after some calls, whatever they return or raise.
  unfoldable pub run : List Call → Lifecycle (Logged S) → Lifecycle (Logged S)
  unfolding open_executor next_row close_executor
  run [] x = x
  run (call_open ∷ cs) x = run cs (open_executor logged x).1
  run (call_next ∷ cs) x = run cs (next_row logged x).1
  run (call_close ∷ cs) x = run cs (close_executor logged x).1

  abbrev pub Follows : Lifecycle (Logged S) → Type 0
  Follows x = IsProtocol x.opened x.closed x.inner.0

  logged_open-Follows :
      (p : Result NoneType × S) → Follows (after_open logged (p.0, (open_hook ∷ [], p.1))).1
  logged_open-Follows (ok u, s) = running _ just_opened
  logged_open-Follows (err e, s) = logged_close (hooks.on_close s)
    where
      logged_close :
          (q : Result NoneType × S)
          → Follows (after_failed_open logged e (q.0, (close_hook ∷ open_hook ∷ [], q.1))).1
      logged_close (ok u, s') = failed_to_open
      logged_close (err x, s') = failed_to_open

  abbrev state : Bool → Bool → List Hook → S → Lifecycle (Logged S)
  state o c log s = record { opened = o; closed = c; inner = (log, s) }

  open-Follows :
      (o c : Bool) (log : List Hook) (s : S)
      → IsProtocol o c log
      → Follows (open_executor logged (state o c log s)).1
  unfolding open_executor
  open-Follows _ _ _ s fresh = logged_open-Follows (hooks.on_open s)
  open-Follows _ _ _ s (running log h) = running log h
  open-Follows _ _ _ s never_opened = never_opened
  open-Follows _ _ _ s failed_to_open = failed_to_open
  open-Follows _ _ _ s (ended log h) = ended log h

  next-Follows :
      (o c : Bool) (log : List Hook) (s : S)
      → IsProtocol o c log
      → Follows (next_row logged (state o c log s)).1
  unfolding next_row
  next-Follows _ _ _ s fresh = fresh
  next-Follows _ _ _ s (running log h) = running _ (after_next_hook log h)
  next-Follows _ _ _ s never_opened = never_opened
  next-Follows _ _ _ s failed_to_open = failed_to_open
  next-Follows _ _ _ s (ended log h) = ended log h

  close-Follows :
      (o c : Bool) (log : List Hook) (s : S)
      → IsProtocol o c log
      → Follows (close_executor logged (state o c log s)).1
  unfolding close_executor
  close-Follows _ _ _ s fresh = never_opened
  close-Follows _ _ _ s (running log h) = ended log h
  close-Follows _ _ _ s never_opened = never_opened
  close-Follows _ _ _ s failed_to_open = failed_to_open
  close-Follows _ _ _ s (ended log h) = ended log h

  run-Follows_from : (cs : List Call) (x : Lifecycle (Logged S)) → Follows x → Follows (run cs x)
  unfolding run
  run-Follows_from [] x h = h
  run-Follows_from (call_open ∷ cs) x h =
      run-Follows_from cs _ (open-Follows x.opened x.closed x.inner.0 x.inner.1 h)
  run-Follows_from (call_next ∷ cs) x h =
      run-Follows_from cs _ (next-Follows x.opened x.closed x.inner.0 x.inner.1 h)
  run-Follows_from (call_close ∷ cs) x h =
      run-Follows_from cs _ (close-Follows x.opened x.closed x.inner.0 x.inner.1 h)

  -- Whatever is called on a new executor, and whatever the hooks return or raise, the hooks are called
  -- in this order: _open at most once and first, then _next any number of times, and _close at most
  -- once and last, only after an _open. A closed executor calls no hook, and neither does one that was
  -- closed before it was opened.
  pub run-Follows : (s : S) (cs : List Call) → Follows (run cs (new_executor ([], s)))
  run-Follows s cs = run-Follows_from cs (new_executor ([], s)) fresh
