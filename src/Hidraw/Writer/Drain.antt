-- ===== src/Hidraw/Writer/Drain.antt =====
-- One wake of the writer's thread of linux/freespace_hidraw.c.
use libfreespace.Common.{
  ℕ, zero, suc, ◌+◌, ◌<◌, ◌≡◌, refl, sym, ap, subst, ◌∙◌, false, List, [], ◌∷◌, Option, none, some,
  ltb, if◌then◌else◌, is_some, length, ℤ, arith, Bool-cases, inl, inr,
}
use libfreespace.Hidraw.Writer.{
  Job, Memory, write, Writer, decr, pop_write_job, return_write_job, num_max_free_jobs, drain_jobs,
}
use libfreespace.Hidraw.Writer.Fifo.{Avoids, IsSegment, Queues, write-ne, from_head}

-- what is written for the jobs at these addresses
abbrev pub writes_of : Memory → List ℕ → List (ℤ × List ℕ)
writes_of m [] = []
writes_of m (p ∷ rest) =
    let more = writes_of m rest in
    elim (m p) [ none ↦ more | some job ↦ (job.fd, job.message) ∷ more ]

-- `queueLen--`, `n` times
abbrev pub lowered : ℕ → ℤ → ℤ
lowered zero z = z
lowered (suc n) z = lowered n (decr z)

-- A write at an address that the list avoids changes nothing of it.
IsSegment-write :
    (m : Memory) (p : ℕ) (o : Option Job) (from last : Option ℕ) (ps : List ℕ)
    → Avoids p ps
    → IsSegment m from last ps
    → IsSegment (write m p o) from last ps
IsSegment-write m p o from last [] a s = s
IsSegment-write m p o from last (q ∷ []) a s =
    let (f, l, (job, e, n)) = s in (f, l, (job, write-ne m p q o a.0 ∙ e, n))
IsSegment-write m p o from last (q ∷ r ∷ rest) a s =
    let (f, av, (job, e, t)) = s in
    (f, av, (job, write-ne m p q o a.0 ∙ e, IsSegment-write m p o job.next last (r ∷ rest) a.1 t))

writes_of-write :
    (m : Memory) (p : ℕ) (o : Option Job) (ps : List ℕ)
    → Avoids p ps
    → writes_of (write m p o) ps ≡ writes_of m ps
writes_of-write m p o [] a = refl
writes_of-write m p o (q ∷ rest) a =
    ground (arith, write-ne m p q o a.0, writes_of-write m p o rest a.1)

-- what a returned job leaves in its memory
abbrev left : Writer → Job → Option Job
left w job =
    if ltb num_max_free_jobs (w.num_free + 1) then none else some (record job { next = w.free })

-- the writer after a job is returned
abbrev given_back : Writer → ℕ → Job → Writer
given_back w p job =
    if ltb num_max_free_jobs (w.num_free + 1)
    then record w { memory = write w.memory p none }
    else record w {
      num_free = w.num_free + 1;
      memory = write w.memory p (some (record job { next = w.free }));
      free = some p;
    }

given_back_lem :
    (w : Writer) (p : ℕ) (job : Job)
    → ((given_back w p job).memory ≡ write w.memory p (left w job))
      × ((given_back w p job).head ≡ w.head)
      × ((given_back w p job).tail ≡ w.tail)
      × ((given_back w p job).exit_thread ≡ w.exit_thread)
      × ((given_back w p job).queue_len ≡ w.queue_len)
given_back_lem w p job = elim (Bool-cases (ltb num_max_free_jobs (w.num_free + 1))) [
  | inl e ↦ rw e (refl, refl, refl, refl, refl)
  | inr e ↦ rw e (refl, refl, refl, refl, refl)
]

return_write_job-given_back :
    (w : Writer) (p : ℕ) {job : Job}
    → w.memory p ≡ some job
    → return_write_job w p ≡ some (given_back w p job)
unfolding return_write_job
return_write_job-given_back w p e = rw (e, return_write_job) refl

-- the writer after the first of its jobs is taken
abbrev taken : Writer → Job → Writer
taken w job = record w {
  head = job.next;
  tail = if is_some job.next then w.tail else none;
  queue_len = decr w.queue_len;
}

-- Taking the first job of a queue.
first_taken :
    (w : Writer) (p : ℕ) (rest : List ℕ)
    → Queues w (p ∷ rest)
    → (job : Job) × (w.memory p ≡ some job)
      × (pop_write_job w ≡ some (taken w job, some p))
      × Queues (taken w job) rest
      × Avoids p rest
unfolding pop_write_job
first_taken w p [] s =
    let (f, l, (job, e, n)) = s in (job, e, rw (f, pop_write_job, e) refl, (n, rw n refl), tt)
first_taken w p (q ∷ rest) s =
    let (f, a, (job, e, t)) = s in
    let h = from_head w.memory job.next w.tail q rest t in
    (
      job,
      e,
      rw (f, pop_write_job, e) refl,
      subst (λ o. IsSegment w.memory job.next (if is_some o then w.tail else none) (q ∷ rest))
          (sym h) t,
      a,
    )

-- The rest of the queue stands as before when the first job is taken and returned.
given_back-Queues :
    (w : Writer) (p : ℕ) (job : Job) (rest : List ℕ)
    → Queues w rest
    → Avoids p rest
    → Queues (given_back w p job) rest
given_back-Queues w p job rest s a = elim (Bool-cases (ltb num_max_free_jobs (w.num_free + 1))) [
  | inl e ↦ rw e (IsSegment-write w.memory p none w.head w.tail rest a s)
  | inr e ↦
      rw e (IsSegment-write w.memory p (some (record job { next = w.free })) w.head w.tail rest a s)
]

drain_jobs-step :
    (fuel : ℕ) (w w' : Writer) (p : ℕ) {job : Job} {written : List (ℤ × List ℕ)}
    → w.exit_thread ≡ false
    → w.memory p ≡ some job
    → pop_write_job w ≡ some (taken w job, some p)
    → drain_jobs fuel (given_back (taken w job) p job) ≡ some (w', written)
    → drain_jobs (suc fuel) w ≡ some (w', (job.fd, job.message) ∷ written)
unfolding drain_jobs
drain_jobs-step fuel w w' p {job} x e g r =
    rw (x, g, e, return_write_job-given_back (taken w job) p e, r) refl

writes_of-cons :
    (m : Memory) (p : ℕ) (rest : List ℕ) {job : Job}
    → m p ≡ some job
    → writes_of m (p ∷ rest) ≡ (job.fd, job.message) ∷ writes_of m rest
writes_of-cons m p rest e = rw (e, writes_of) refl

-- One wake of the writer's thread, while it is not told to exit and no other thread comes between,
-- writes all the jobs of the queue in their order, and leaves the queue empty. It lowers the count
-- of the queue's jobs once more than there were jobs.
pub drain_jobs_lem :
    (fuel : ℕ) (w : Writer) (ps : List ℕ)
    → Queues w ps
    → w.exit_thread ≡ false
    → length ps < fuel
    → (w' : Writer) × (drain_jobs fuel w ≡ some (w', writes_of w.memory ps))
      × (w'.head ≡ none)
      × (w'.queue_len ≡ lowered (suc (length ps)) w.queue_len)
unfolding drain_jobs pop_write_job
drain_jobs_lem zero w ps s x h = absurd (omega arith)
drain_jobs_lem (suc fuel) w [] s x h =
    (record w { queue_len = decr w.queue_len }, ground (arith, x, s.0), s.0, refl)
drain_jobs_lem (suc fuel) w (p ∷ rest) s x h =
    let (job, e, g, q, a) = first_taken w p rest s in
    let w1 = given_back (taken w job) p job in
    let (m, hd, tl, ex, ql) = given_back_lem (taken w job) p job in
    let (w', r, z, n) =
      drain_jobs_lem fuel w1 rest (given_back-Queues (taken w job) p job rest q a) (ex ∙ x)
        (omega arith) in
    let same : writes_of w1.memory rest ≡ writes_of w.memory rest =
      ap (λ mem. writes_of mem rest) m
      ∙ writes_of-write w.memory p (left (taken w job) job) rest a in
    (
      w',
      drain_jobs-step fuel w w' p x e g r
          ∙ ap (λ ws. some (w', (job.fd, job.message) ∷ ws)) same
          ∙ ap (λ ws. some (w', ws)) (sym (writes_of-cons w.memory p rest e)),
      z,
      n ∙ ap (λ k. lowered (suc (length rest)) k) ql,
    )
