-- ===== src/Runner/Data.antt =====
-- internal/runner/runner.go: the options, the worker pool and what a run meets.
use go_boxcopy.Base.{ℕ, String, Bool, List, Option}
use go_boxcopy.Base.Int.{ℤ}
use go_boxcopy.Base.Errors.{Error}
use go_boxcopy.Config.Data.{MailboxConfig}
use go_boxcopy.Store.Ops.{Faults, Disk}

-- The worker pool of tideland.dev/go/worker, which is not part of the repository. Its tasks are
-- named by their mailboxes. `work` tells which of the tasks in its queue have run by the time that
-- the program is done with the pool, in the order of their turns, and what WaitForTasks returns
-- under a timeout in nanoseconds.
pub record Pool (World : Type 0) : Type 0 where
  pub new_worker_pool : ℤ → World → Option Error × World
  pub enqueue : MailboxConfig → World → Option Error × World
  pub work : List MailboxConfig → ℤ → World → (List MailboxConfig × Option Error) × World
  pub stop : World → Option Error × World

-- A line of the input: what was read, whether the input ended before the line did, and a failure
-- other than that.
pub record Line : Type 0 where
  pub text : String
  pub ended : Bool
  pub failure : Option Error

-- The duration is in nanoseconds.
pub record Options : Type 0 where
  pub config_path : String
  pub encryption_key : String
  pub perform : Bool
  pub max_copy_duration : ℤ
  pub input : Line

-- The pools, the failures of the system calls of the load and the two saves of the state, and the
-- schedule of each folder's pipeline.
pub record Surroundings (World : Type 0) : Type 0 where
  pub cleaners : Pool World
  pub copiers : Pool World
  pub load_faults : Faults
  pub clear_faults : Faults
  pub save_faults : Faults
  pub plan : MailboxConfig → ℕ → List Bool

-- The disk with the state file, and the world.
pub record Machine (World : Type 0) : Type 0 where
  pub disk : Disk
  pub world : World
