-- ===== src/Hidraw/Writer.antt =====
-- The background writer of linux/freespace_hidraw.c, which LIBFREESPACE_THREADED_WRITES adds. Jobs
-- stand in memory by their addresses, so that a pointer that is left behind shows. Each function is
-- called with the lock held, and is one step.
pub mod Fifo
pub mod Flush
pub mod Drain
use libfreespace.Common.{
  ℕ, zero, suc, ◌+◌, ◌-◌, Bool, true, false, not, ◌&&◌, List, [], ◌∷◌, ◌++◌, Option, none, some,
  ◌==◌, ltb, if◌then◌else◌, is_some, length, ℤ, pos, negsuc,
}
use libfreespace.Errors.{success}

-- `struct FreespaceBGWriteJob`
pub record Job : Type 0 where
  pub fd : ℤ
  pub cookie : ℕ
  pub message : List ℕ
  pub next : Option ℕ

-- the memory: `none` is not allocated
abbrev pub Memory : Type 0
Memory = ℕ → Option Job

abbrev pub write : Memory → ℕ → Option Job → Memory
write m p o q = if q == p then o else m q

-- `struct FreespaceBGWriter` without its thread, with the memory of the jobs
pub record Writer : Type 0 where
  pub memory : Memory
  pub head : Option ℕ
  pub tail : Option ℕ
  pub free : Option ℕ
  pub exit_thread : Bool
  pub queue_len : ℤ
  pub num_free : ℕ

-- `++` and `--` on an `int`
abbrev pub incr : ℤ → ℤ
incr (pos n) = pos (n + 1)
incr (negsuc zero) = pos 0
incr (negsuc (suc n)) = negsuc n

abbrev pub decr : ℤ → ℤ
decr (pos zero) = negsuc 0
decr (pos (suc n)) = pos n
decr (negsuc n) = negsuc (suc n)

abbrev pub num_max_jobs : ℕ
num_max_jobs = 5

abbrev pub num_max_free_jobs : ℕ
num_max_free_jobs = 3

-- `_popFreeJobLocked`: the outer `none` is a use of memory that is not allocated.
unfoldable pub pop_free_job : Writer → Option (Writer × Option ℕ)
pop_free_job w = elim w.free [
  | none ↦ some (w, none)
  | some j ↦ elim (w.memory j) [
    | none ↦ none
    | some job ↦ some (
      record w { free = job.next; memory = write w.memory j (some (record job { next = none })) },
      some j,
    )
  ]
]

-- `_returnWriteJobLocked`
unfoldable pub return_write_job : Writer → ℕ → Option Writer
return_write_job w j = elim (w.memory j) [
  | none ↦ none
  | some job ↦ some (
      if ltb num_max_free_jobs (w.num_free + 1)
      then record w { memory = write w.memory j none }
      else record w {
        num_free = w.num_free + 1;
        memory = write w.memory j (some (record job { next = w.free }));
        free = some j;
      })
]

-- `_popWriteJobLocked`
unfoldable pub pop_write_job : Writer → Option (Writer × Option ℕ)
pop_write_job w = elim w.head [
  | none ↦ some (record w { queue_len = decr w.queue_len }, none)
  | some j ↦ elim (w.memory j) [
    | none ↦ none
    | some job ↦ some (
      record w {
        head = job.next;
        tail = if is_some job.next then w.tail else none;
        queue_len = decr w.queue_len;
      },
      some j,
    )
  ]
]

-- `_pushWriteJobLocked`
unfoldable pub push_write_job : Writer → ℕ → Option Writer
push_write_job w j = elim w.tail [
  | none ↦ some (record w { head = some j; tail = some j; queue_len = incr w.queue_len })
  | some t ↦ elim (w.memory t) [
    | none ↦ none
    | some job ↦ some (record w {
      memory = write w.memory t (some (record job { next = some j }));
      tail = some j;
      queue_len = incr w.queue_len;
    })
  ]
]

-- `prev->next = next`, if there is a `prev`
unfoldable pub link : Memory → Option ℕ → Option ℕ → Option Memory
link m none next = some m
link m (some p) next = elim (m p) [
  | none ↦ none
  | some job ↦ some (write m p (some (record job { next = next })))
]

-- The part of the loop of `_flushWriteJobsLocked` that takes `j` out of the list: the writer and
-- the next `j`. A `j` that is NULL is a fault.
unfoldable pub unlink : Writer → Option ℕ → Option ℕ → Option (Writer × Option ℕ)
unfolding return_write_job link
unlink w prev none = none
unlink w prev (some j) = elim (w.memory j) [
  | none ↦ none
  | some job ↦
      let w' = if is_some prev then w else record w { head = job.next } in
      elim (return_write_job w' j) [
        | none ↦ none
        | some w'' ↦ elim (link w''.memory prev job.next) [
          | none ↦ none
          | some m ↦ some (record w'' { memory = m }, job.next)
        ]
      ]
]

-- the limit of `_flushWriteJobsLocked` after a job; -1 is no limit
abbrev pub lower : ℤ → ℤ
lower (pos n) = pos (n - 1)
lower (negsuc n) = negsuc n

abbrev pub is_zero : ℤ → Bool
is_zero (pos n) = n == 0
is_zero (negsuc n) = false

-- The loop of `_flushWriteJobsLocked`. After a job that is to be kept it does not go on with the
-- next round, but takes the job behind it out. `none` also if the fuel does not suffice.
unfoldable pub flush_from : ℕ → ℕ → ℤ → Writer → Option ℕ → Option ℕ → Option Writer
unfolding unlink
flush_from zero cookie limit w prev j = none
flush_from (suc fuel) cookie limit w prev j = elim j [
  | none ↦ some w
  | some p ↦
      let job_at = w.memory p in
      let rest : Job → Option Writer = λ job.
        elim (unlink w (if job.cookie == cookie then prev else some p)
          (if job.cookie == cookie then some p else job.next)) [
            | none ↦ none
            | some (w', next) ↦
                flush_from fuel cookie (lower limit) w'
                  (if job.cookie == cookie then prev else some p) next
          ] in
      if is_zero limit then some w else elim job_at [ none ↦ none | some job ↦ rest job ]
]

-- `_flushWriteJobsLocked` for the device with this cookie
unfoldable pub flush_write_jobs : ℕ → ℕ → ℤ → Writer → Option Writer
unfolding flush_from
flush_write_jobs fuel cookie limit w =
    if is_some w.head then flush_from fuel cookie limit w none w.head else some w

-- The choice of a job of `freespace_private_sendAsync`; `malloc` is the address of a new job.
unfoldable pub choose_job : ℕ → ℕ → Option ℕ → Writer → Option (Writer × Option ℕ)
unfolding pop_free_job flush_write_jobs
choose_job fuel cookie malloc w = elim (pop_free_job w) [
  | none ↦ none
  | some (w', some j) ↦ some (w', some j)
  | some (w', none) ↦
      let full : Bool = elim (incr w'.queue_len) [
        | pos n ↦ ltb num_max_jobs n
        | negsuc n ↦ false
      ] in
      if full
      then (elim (flush_write_jobs fuel cookie (pos 1) w') [
        | none ↦ none
        | some w'' ↦ pop_free_job w''
      ])
      else some (w', malloc)
]

-- `freespace_private_sendAsync` on an opened device with this descriptor and cookie, from the lock
-- to the signal. `garbage` is its result if there is no job: `rc` is not initialised then.
unfoldable pub send_async : ℕ → ℤ → Option ℕ → ℤ → ℕ → List ℕ → Writer → Option (Writer × ℤ)
unfolding choose_job push_write_job
send_async fuel garbage malloc fd cookie message w = elim (choose_job fuel cookie malloc w) [
  | none ↦ none
  | some (w', none) ↦ some (w', garbage)
  | some (w', some j) ↦
      let job : Job = record { fd = fd; cookie = cookie; message = message; next = none } in
      elim (push_write_job (record w' { memory = write w'.memory j (some job) }) j) [
        | none ↦ none
        | some w'' ↦ some (w'', success)
      ]
]

-- The inner loop of `_writeThread_fn`, with what it writes where; the jobs of other threads that
-- are pushed between its steps are not in this function. `none` also if the fuel does not suffice.
unfoldable pub drain_jobs : ℕ → Writer → Option (Writer × List (ℤ × List ℕ))
unfolding pop_write_job return_write_job
drain_jobs zero w = none
drain_jobs (suc fuel) w = if w.exit_thread then some (w, []) else elim (pop_write_job w) [
  | none ↦ none
  | some (w', none) ↦ some (w', [])
  | some (w', some j) ↦ elim (w'.memory j) [
    | none ↦ none
    | some job ↦ elim (return_write_job w' j) [
      | none ↦ none
      | some w'' ↦ elim (drain_jobs fuel w'') [
        | none ↦ none
        | some (w''', written) ↦ some (w''', (job.fd, job.message) ∷ written)
      ]
    ]
  ]
]
