-- ===== src/Tests/Jobs.antt =====
-- Examples for the writer of linux/freespace_hidraw.c.
use libfreespace.Common.{
  ℕ, ◌≡◌, ◌≤◌, ◌<◌, refl, false, [], ◌∷◌, Option, none, some, ℤ, pos, negsuc, arith,
}
use libfreespace.Hidraw.Writer.{
  num_max_free_jobs, Job, Memory, write, Writer, pop_write_job, push_write_job, flush_write_jobs,
  drain_jobs,
}
use libfreespace.Hidraw.Writer.Fifo.{Queues, push_refines, pop_refines}
use libfreespace.Hidraw.Writer.Flush.{flush_write_jobs-foreign, push-flush_lost, PutsBehind}
use libfreespace.Hidraw.Writer.Drain.{writes_of, lowered, drain_jobs_lem}

abbrev job : ℕ → Option ℕ → Job
job cookie next = record { fd = pos 7; cookie = cookie; message = cookie ∷ 2 ∷ []; next = next }

abbrev nothing : Memory
nothing p = none

-- a writer with the memory and the two ends of its queue
abbrev holding : Memory → Option ℕ → Option ℕ → ℤ → Writer
holding memory head tail queue_len = record {
  memory = memory;
  head = head;
  tail = tail;
  free = none;
  exit_thread = false;
  queue_len = queue_len;
  num_free = 0;
}

-- jobs of devices 1 and 2 at the addresses 10 and 20, and a job at 30 that is not in the queue
abbrev two_jobs : Writer
two_jobs =
    holding
      (write (write (write nothing 10 (some (job 1 (some 20)))) 20 (some (job 2 none))) 30
        (some (job 1 none)))
      (some 10) (some 20) (pos 2)

abbrev one_job : Writer
one_job = holding (write nothing 10 (some (job 1 none))) (some 10) (some 10) (pos 1)

two_jobs-Queues : Queues two_jobs (10 ∷ 20 ∷ [])
two_jobs-Queues =
    (refl, (omega arith, tt), (job 1 (some 20), refl, (refl, refl, (job 2 none, refl, refl))))

one_job-Queues : Queues one_job (10 ∷ [])
one_job-Queues = (refl, refl, (job 1 none, refl, refl))

push_refines_example :
    (w' : Writer) × (push_write_job two_jobs 30 ≡ some w')
    × Queues w' (10 ∷ 20 ∷ 30 ∷ [])
    × (w'.queue_len ≡ pos 3)
push_refines_example =
    push_refines two_jobs (10 ∷ 20 ∷ []) 30 {new = job 1 none} two_jobs-Queues
      (omega arith, (omega arith, tt)) refl refl

pop_refines_example :
    (w' : Writer) × (pop_write_job two_jobs ≡ some (w', some 10))
    × Queues w' (20 ∷ [])
    × (w'.queue_len ≡ pos 1)
pop_refines_example = pop_refines two_jobs (10 ∷ 20 ∷ []) two_jobs-Queues

flush_write_jobs-foreign_example : flush_write_jobs 8 2 (negsuc 0) one_job ≡ none
flush_write_jobs-foreign_example =
    flush_write_jobs-foreign 8 2 10 (negsuc 0) one_job {job = job 1 none} one_job-Queues refl
      (omega arith) refl

drain_jobs_lem_example :
    (w' : Writer) × (drain_jobs 3 two_jobs ≡ some (w', writes_of two_jobs.memory (10 ∷ 20 ∷ [])))
    × (w'.head ≡ none)
    × (w'.queue_len ≡ lowered 3 (pos 2))
drain_jobs_lem_example = drain_jobs_lem 3 two_jobs (10 ∷ 20 ∷ []) two_jobs-Queues refl (omega arith)

push-flush_lost_example :
    (w' : Writer) × (flush_write_jobs 5 1 (negsuc 0) one_job ≡ some w')
    × (w'.head ≡ none)
    × (w'.tail ≡ some 10)
    × (1 ≤ num_max_free_jobs → PutsBehind 10 30 w')
    × (num_max_free_jobs < 1 → push_write_job w' 30 ≡ none)
push-flush_lost_example =
    push-flush_lost 3 1 10 30 (negsuc 0) one_job {job = job 1 none} one_job-Queues refl refl refl
