-- ===== src/Hidraw/Writer/Fifo.antt =====
-- The write queue of linux/freespace_hidraw.c is a first-in, first-out queue, as long as nothing is
-- flushed.
use libfreespace.Common.{
  ℕ, ◌≡◌, ◌≢◌, refl, sym, ◌∙◌, List, [], ◌∷◌, ◌++◌, Option, none, some, arith,
}
use libfreespace.Hidraw.Writer.{
  Job, Memory, write, Writer, incr, decr, pop_write_job, push_write_job,
}

-- `p` is not among the addresses.
abbrev pub Avoids : ℕ → List ℕ → Type 0
Avoids p [] = Unit {0}
Avoids p (q ∷ rest) = (p ≢ q) × Avoids p rest

-- The list from a pointer on to NULL goes through these addresses, each once; `last` is the last.
abbrev pub IsSegment : Memory → Option ℕ → Option ℕ → List ℕ → Type 0
IsSegment m from last [] = (from ≡ none) × (last ≡ none)
IsSegment m from last (p ∷ []) =
    (from ≡ some p) × (last ≡ some p) × ((job : Job) × (m p ≡ some job) × (job.next ≡ none))
IsSegment m from last (p ∷ q ∷ rest) =
    (from ≡ some p)
    × Avoids p (q ∷ rest)
    × ((job : Job) × (m p ≡ some job) × IsSegment m job.next last (q ∷ rest))

-- The queue holds the jobs at these addresses, in order.
abbrev pub Queues : Writer → List ℕ → Type 0
Queues w ps = IsSegment w.memory w.head w.tail ps

pub write-ne : (m : Memory) (p q : ℕ) (o : Option Job) → p ≢ q → write m p o q ≡ m q
write-ne m p q o h = ground arith

write_self : (m : Memory) (p : ℕ) (o : Option Job) → write m p o p ≡ o
write_self m p o = ground arith

Avoids-last : (p j : ℕ) (ps : List ℕ) → Avoids p ps → p ≢ j → Avoids p (ps ++ j ∷ [])
Avoids-last p j [] a h = (h, tt)
Avoids-last p j (q ∷ rest) a h = (a.0, Avoids-last p j rest a.1 h)

-- The last address of a list that is not empty.
last_of : ℕ → List ℕ → ℕ
last_of p [] = p
last_of p (q ∷ rest) = last_of q rest

IsSegment-last :
    (m : Memory) (from last : Option ℕ) (p : ℕ) (rest : List ℕ)
    → IsSegment m from last (p ∷ rest)
    → last ≡ some (last_of p rest)
unfolding last_of
IsSegment-last m from last p [] s = s.1
IsSegment-last m from last p (q ∷ rest) s =
    let (f, a, (job, e, t)) = s in IsSegment-last m job.next last q rest t

Avoids-last_of : (p q : ℕ) (rest : List ℕ) → Avoids p (q ∷ rest) → p ≢ last_of q rest
unfolding last_of
Avoids-last_of p q [] a = a.0
Avoids-last_of p q (r ∷ rest) a = Avoids-last_of p r rest a.1

-- the memory after `tail->next = j`
abbrev linked : Memory → ℕ → Job → ℕ → Memory
linked m t job j = write m t (some (record job { next = some j }))

-- Linking a new job behind the last one makes the list one longer.
append-IsSegment :
    (m : Memory) (from last : Option ℕ) (p j : ℕ) (rest : List ℕ) (new : Job)
    → IsSegment m from last (p ∷ rest)
    → Avoids j (p ∷ rest)
    → m j ≡ some new
    → new.next ≡ none
    → (job : Job) × (m (last_of p rest) ≡ some job)
      × IsSegment (linked m (last_of p rest) job j) from (some j) (p ∷ rest ++ j ∷ [])
unfolding last_of
append-IsSegment m from last p j [] new s a h n =
    let (f, l, (job, e, z)) = s in
    (
      job,
      e,
      (
        f,
        ((λ x. a.0 (sym x)), tt),
        (
          record job { next = some j },
          write_self m p (some (record job { next = some j })),
          (
            refl,
            refl,
            (new, write-ne m p j (some (record job { next = some j })) (λ x. a.0 (sym x)) ∙ h, n),
          ),
        ),
      ),
    )
append-IsSegment m from last p j (q ∷ rest) new s a h n =
    let (f, av, (job, e, t)) = s in
    let (job', e', t') = append-IsSegment m job.next last q j rest new t a.1 h n in
    let apart = Avoids-last_of p q rest av in
    (
      job',
      e',
      (
        f,
        Avoids-last p j (q ∷ rest) av (λ x. a.0 (sym x)),
        (
          job,
          write-ne m (last_of q rest) p (some (record job' { next = some j })) (λ x. apart (sym x))
              ∙ e,
          t',
        ),
      ),
    )

-- `_pushWriteJobLocked` of a job that is not in the queue, and that points to no other, puts it at
-- the end, and counts it.
pub push_refines :
    (w : Writer) (ps : List ℕ) (j : ℕ) {new : Job}
    → Queues w ps
    → Avoids j ps
    → w.memory j ≡ some new
    → new.next ≡ none
    → (w' : Writer) × (push_write_job w j ≡ some w')
      × Queues w' (ps ++ j ∷ [])
      × (w'.queue_len ≡ incr w.queue_len)
unfolding push_write_job
push_refines w [] j {new} s a h n = (
  record w { head = some j; tail = some j; queue_len = incr w.queue_len },
  ground (arith, s.1),
  (refl, refl, (new, h, n)),
  refl,
)
push_refines w (p ∷ rest) j {new} s a h n =
    let l = IsSegment-last w.memory w.head w.tail p rest s in
    let (job, e, t) = append-IsSegment w.memory w.head w.tail p j rest new s a h n in
    (
      record w {
        memory = linked w.memory (last_of p rest) job j;
        tail = some j;
        queue_len = incr w.queue_len;
      },
      ground (arith, l, e),
      t,
      refl,
    )

pub from_head :
    (m : Memory) (from last : Option ℕ) (q : ℕ) (rest : List ℕ)
    → IsSegment m from last (q ∷ rest)
    → from ≡ some q
from_head m from last q [] s = s.0
from_head m from last q (r ∷ rest) s = s.0

-- `_popWriteJobLocked` takes the first job, and leaves the others in order; from an empty queue it
-- takes nothing. It lowers the count in both cases.
pub pop_refines :
    (w : Writer) (ps : List ℕ)
    → Queues w ps
    → (w' : Writer) × (pop_write_job w ≡ some (w', elim ps [ [] ↦ none | p ∷ rest ↦ some p ]))
      × Queues w' (elim ps [ [] ↦ [] | p ∷ rest ↦ rest ])
      × (w'.queue_len ≡ decr w.queue_len)
unfolding pop_write_job
pop_refines w [] s = (record w { queue_len = decr w.queue_len }, ground (arith, s.0), s, refl)
pop_refines w (p ∷ []) s =
    let (f, l, (job, e, n)) = s in
    (
      record w { head = none; tail = none; queue_len = decr w.queue_len },
      ground (arith, f, e, n),
      (refl, refl),
      refl,
    )
pop_refines w (p ∷ q ∷ rest) s =
    let (f, a, (job, e, t)) = s in
    (
      record w { head = job.next; queue_len = decr w.queue_len },
      ground (arith, f, e, from_head w.memory job.next w.tail q rest t),
      t,
      refl,
    )
