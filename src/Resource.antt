-- ===== src/Resource.antt =====
-- resource.go: the count of holds that keeps a closed resource's memory, and in buffer.go `Close` and
-- `release`. The count is Go's `int32`, as a 32-bit pattern, and each function is one atomic step; a
-- retain that loses its race loads again, so that it is the step that its exchange makes. `Close` of a
-- graph's transient buffer is refused before all this, and is not here.
pub mod Counted
pub mod Lifetime
mod Tests
use accel.Base.{
  ℕ, zero, suc, ◌+◌, ◌-◌, ◌%◌, ◌^◌, ◌≡◌, Bool, true, false, ◌||◌, ◌==◌, leb, if◌then◌else◌,
}
use accel.Base.Result.{Result, fail_if}

pub data LifetimeError : Type 0 where
  is_closed is_pending : LifetimeError

pub record ResourceState : Type 0 where
  pub refs : ℕ
  pub closed : Bool

-- `init`
unfoldable pub init_state : ResourceState
init_state = record { refs = 1; closed = false }

unfoldable pub retain : ResourceState → Bool × ResourceState
retain r =
    if r.refs == 0 || leb (2 ^ 31) r.refs
    then (false, r)
    else (true, record r { refs = (r.refs + 1) % 2 ^ 32 })

unfoldable pub release : ResourceState → Bool × ResourceState
release r = let n = (r.refs + 2 ^ 32 - 1) % 2 ^ 32 in (n == 0, record r { refs = n })

unfoldable pub check_open : ResourceState → Result LifetimeError (Unit {0})
check_open r = fail_if r.closed is_closed

unfoldable pub begin_close : ResourceState → Bool × ResourceState
begin_close r = if r.closed then (false, r) else (true, record r { closed = true })

-- A buffer's lifetime as its callers see it: `freed` counts the calls of `free`, `holders` those that
-- retained it and have not released it, `closing` the calls of `Close` between their two steps.
pub record Life : Type 0 where
  pub state : ResourceState
  pub freed : ℕ
  pub holders : ℕ
  pub closing : ℕ

unfoldable pub new_life : Life
new_life = record { state = init_state; freed = 0; holders = 0; closing = 0 }

-- `if b.state.release() { b.free() }`
unfoldable pub release_free : Life → Life
release_free l =
    let (last, s) = release l.state in
    record l { state = s; freed = if last then suc l.freed else l.freed }

-- The calls on a buffer of a pool: a retain that is granted or refused, a holder's release, and the two steps of a `Close`,
-- of which only one that begins it goes on.
pub data Step : Life → Life → Type 0 where
  granted :
      (l : Life) (s : ResourceState)
      → retain l.state ≡ (true, s)
      → Step l (record l { state = s; holders = suc l.holders })
  refused :
      (l : Life) (s : ResourceState) → retain l.state ≡ (false, s) → Step l (record l { state = s })
  released :
      (l : Life) (h : ℕ) → l.holders ≡ suc h → Step l (record (release_free l) { holders = h })
  began :
      (l : Life) (s : ResourceState)
      → begin_close l.state ≡ (true, s)
      → Step l (record l { state = s; closing = suc l.closing })
  again :
      (l : Life) (s : ResourceState)
      → begin_close l.state ≡ (false, s)
      → Step l (record l { state = s })
  finished :
      (l : Life) (c : ℕ) → l.closing ≡ suc c → Step l (record (release_free l) { closing = c })

-- A resource after that many steps.
pub data Run : ℕ → Life → Type 0 where
  start : Run 0 new_life
  next : (n : ℕ) (l l' : Life) → Run n l → Step l l' → Run (suc n) l'

-- Every holder releases: `release` by each of `h` holders.
unfoldable pub drain : ℕ → Life → Life
drain zero l = l
drain (suc h) l = drain h (record (release_free l) { holders = h })
