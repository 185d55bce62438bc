-- ===== src/CoAlloc/Tests.antt =====
-- 25 elements of 4 bytes on a stack at address 4096.
use parallel_load_balancing.Common.{refl, true, none, [], arith}
use parallel_load_balancing.Frame.{make_frame}
use parallel_load_balancing.Stack.{Stack, capacity}
use parallel_load_balancing.Stack.Inv.{Inv, Fits}
use parallel_load_balancing.CoAlloc.{Task, bytes, await_resume}
use parallel_load_balancing.CoAlloc.Scope.{IsScoped, await_resume-IsScoped}

abbrev base : Stack
base = record { below = []; fib = record { lo = 4144; sp = 4144; hi = 8144 }; cached = none }

abbrev task : Task
task = record { frame = make_frame 4144; stack = base }

base-Inv : Inv base
base-Inv = record { top = (omega arith, omega arith); used = tt; rooted = λ _. refl; spare = tt }

base-Fits : Fits base (bytes 25 4)
unfolding capacity
base-Fits = record { block = omega arith; segment = omega arith }

await_resume-IsScoped_example : IsScoped task (bytes 25 4) (await_resume 25 4 true none task)
await_resume-IsScoped_example = await_resume-IsScoped 25 4 true none task base-Inv base-Fits refl
