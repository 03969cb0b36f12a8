-- ===== src/Hidraw/Writer/Flush.antt =====
-- What `_flushWriteJobsLocked` of linux/freespace_hidraw.c does to short queues.
use libfreespace.Common.{
  ℕ, zero, suc, ◌≡◌, ◌≢◌, ◌≤◌, ◌<◌, ◌+◌, ◌==◌, refl, true, false, ltb, if◌then◌else◌, Bool-cases,
  inl, inr, [], ◌∷◌, none, some, ℤ, arith,
}
use libfreespace.Hidraw.Writer.{
  Job, Writer, write, num_max_free_jobs, incr, return_write_job, unlink, link, flush_from,
  flush_write_jobs, push_write_job, is_zero,
}
use libfreespace.Hidraw.Writer.Fifo.{Queues}

-- When the only job of the queue is of another device, the flush does not keep it and stop: it goes
-- on with the job behind it, and uses a NULL pointer. So it does not return, for any limit but 0.
pub flush_write_jobs-foreign :
    (fuel cookie p : ℕ) (limit : ℤ) (w : Writer) {job : Job}
    → Queues w (p ∷ [])
    → w.memory p ≡ some job
    → job.cookie ≢ cookie
    → is_zero limit ≡ false
    → flush_write_jobs fuel cookie limit w ≡ none
unfolding flush_write_jobs flush_from unlink
flush_write_jobs-foreign zero cookie p limit w s m f l = ground (arith, s.0)
flush_write_jobs-foreign (suc fuel) cookie p limit w {job} s m f l =
    ground (arith, s.0, m, f, l, s.2.2)

-- what the flush of a queue whose only job `p` is of the device leaves
abbrev pub flushed : Writer → ℕ → Job → Writer
flushed w p job =
    if ltb num_max_free_jobs (w.num_free + 1)
    then record w { head = none; memory = write w.memory p none }
    else record w {
      head = none;
      num_free = w.num_free + 1;
      memory = write w.memory p (some (record job { next = w.free }));
      free = some p;
    }

unlink-flushed :
    (w : Writer) (p : ℕ) {job : Job}
    → w.memory p ≡ some job
    → job.next ≡ none
    → unlink w none (some p) ≡ some (flushed w p job, none)
unfolding unlink link return_write_job
unlink-flushed w p {job} m n = elim (Bool-cases (ltb num_max_free_jobs (w.num_free + 1))) [
  | inl b ↦ ground (arith, m, n, b)
  | inr b ↦ ground (arith, m, n, b)
]

flush-flushed :
    (fuel cookie p : ℕ) (limit : ℤ) (w : Writer) {job : Job}
    → Queues w (p ∷ [])
    → w.memory p ≡ some job
    → job.cookie ≡ cookie
    → is_zero limit ≡ false
    → flush_write_jobs (suc (suc fuel)) cookie limit w ≡ some (flushed w p job)
unfolding flush_write_jobs flush_from
flush-flushed fuel cookie p limit w {job} s m f l =
    let n : job.next ≡ none = ground (arith, m, s.2.2) in
    let t : (job.cookie == cookie) ≡ true = ground (arith, f) in
    let u = unlink-flushed w p {job = job} m n in ground (arith, s.0, l, m, t, u)

-- A push behind the flush puts the job `j` behind `p`, which the queue's head does not lead to.
abbrev pub PutsBehind : ℕ → ℕ → Writer → Type 0
PutsBehind p j w =
    (w' : Writer) × (push_write_job w j ≡ some w')
    × (w'.head ≡ none)
    × (w'.tail ≡ some j)
    × ((job : Job) × (w'.memory p ≡ some job) × (job.next ≡ some j))

-- A flush of a queue whose only job `p` is of the device, under any limit but 0, returns and empties
-- the queue's head, but its tail stays `p`. Where the list of free jobs takes `p`, the push of a job
-- then puts it behind `p` and leaves the head NULL, so that the job is never reached. Where that list
-- is full and `p` is freed, the push uses the freed memory.
pub push-flush_lost :
    (fuel cookie p j : ℕ) (limit : ℤ) (w : Writer) {job : Job}
    → Queues w (p ∷ [])
    → w.memory p ≡ some job
    → job.cookie ≡ cookie
    → is_zero limit ≡ false
    → (w' : Writer) × (flush_write_jobs (suc (suc fuel)) cookie limit w ≡ some w')
      × (w'.head ≡ none)
      × (w'.tail ≡ some p)
      × (w.num_free + 1 ≤ num_max_free_jobs → PutsBehind p j w')
      × (num_max_free_jobs < w.num_free + 1 → push_write_job w' j ≡ none)
unfolding push_write_job
push-flush_lost fuel cookie p j limit w {job} s m f l = (
  flushed w p job,
  flush-flushed fuel cookie p limit w {job = job} s m f l,
  ground arith,
  ground (arith, s.1),
  λ h. (
    record (flushed w p job) {
      memory = write (flushed w p job).memory p (some (record job { next = some j }));
      tail = some j;
      queue_len = incr w.queue_len;
    },
    ground (arith, s.1, h),
    ground (arith, h),
    refl,
    (record job { next = some j }, ground arith, refl),
  ),
  λ h. ground (arith, s.1, h),
)
