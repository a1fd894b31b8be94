-- ===== src/System/Process/Running.antt =====
-- What the running process sets in its own entry of the table: in `sys_rpc` of grass/procsys.c,
-- `user_proc` of grass/spawnsvr.c and `proc_frame_alloc` of grass/process.c.
use cs4411_p.Base.{ℕ, Bool, Option, none, some, [], ◌∷◌}
use cs4411_p.System.Process.{Kernel, update, set_proc}

-- `proc_current->server = pid`, between the two messages of `sys_rpc`.
unfoldable pub set_server : ℕ → Kernel → Kernel
set_server pid k = set_proc k k.current (record (k.procs k.current) { server = pid })

-- `proc_current->interruptable = interruptable`, at the start of a user process.
unfoldable pub set_interruptable : Bool → Kernel → Kernel
set_interruptable b k = set_proc k k.current (record (k.procs k.current) { interruptable = b })

-- `proc_frame_alloc`: the first of the free frames; without one it panics.
unfoldable pub proc_frame_alloc : ℕ → Kernel → Option Kernel
proc_frame_alloc page k = elim k.freeframes [
  | [] ↦ none
  | frame ∷ frames ↦
      let p = k.procs k.current in
      some (record (set_proc k k.current (record p { pages = update p.pages page (some frame) })) {
        freeframes = frames;
      })
]
