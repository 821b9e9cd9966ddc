-- ===== src/Resource/Tests.antt =====
-- resource.go: a resource that is closed while it is held.
use accel.Base.{◌≡◌, refl, true, false, arith}
use accel.Resource.{
  init_state, retain, release, begin_close, Life, new_life, release_free, granted, began, finished,
  Run, start, next, drain,
}
use accel.Resource.Lifetime.{IsFreedOnce, Run-IsFreedOnce, drain-freed}

-- A holder retains, and `Close` begins and ends.
abbrev held : Life
held = record { state = record { refs = 2; closed = false }; freed = 0; holders = 1; closing = 0 }

abbrev closing : Life
closing = record { state = record { refs = 2; closed = true }; freed = 0; holders = 1; closing = 1 }

abbrev closed : Life
closed = record { state = record { refs = 1; closed = true }; freed = 0; holders = 1; closing = 0 }

closed-Run : Run 3 closed
unfolding new_life init_state retain release begin_close release_free
closed-Run =
    next 2 closing closed
      (next 1 held closing
        (next 0 new_life held start (granted new_life (record { refs = 2; closed = false }) refl))
        (began held (record { refs = 2; closed = true }) refl))
      (finished closing 0 refl)

released_last : (drain 1 closed).freed ≡ 1
unfolding drain release_free release
released_last = refl

Run-IsFreedOnce_example : IsFreedOnce closed
Run-IsFreedOnce_example = Run-IsFreedOnce 3 closed (omega arith) closed-Run

drain-freed_example : (drain 1 closed).freed ≡ 1
drain-freed_example = drain-freed 3 closed (omega arith) closed-Run refl refl
