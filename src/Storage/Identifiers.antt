-- ===== src/Storage/Identifiers.antt =====
-- storage/identifiers.py and storage/constants.py. An object_id or page_id outside the unsigned
-- 64-bit range, which the constructors refuse, is refused here where it is packed.
use mini_postgres.Base.{ℕ, Option, none, some, if◌then◌else◌, nat_hashable, ◌==◌, ◌≡◌, arith}

pub data ForkKind : Type 0 where
  heap btree : ForkKind

pub record RelationId : Type 0 where
  pub fork : ForkKind
  pub object_id : ℕ

pub record PageKey : Type 0 where
  pub relation : RelationId
  pub page_id : ℕ

-- int(fork)
unfoldable pub fork_value : ForkKind → ℕ
fork_value heap = 1
fork_value btree = 2

-- ForkKind(value); none is the ValueError
unfoldable pub fork_kind : ℕ → Option ForkKind
fork_kind n = if n == 1 then some heap else if n == 2 then some btree else none

unfoldable pub page_size : ℕ
page_size = 8192

pub fork_kind-fork_value : (f : ForkKind) → fork_kind (fork_value f) ≡ some f
unfolding fork_kind fork_value
fork_kind-fork_value f = ground arith
