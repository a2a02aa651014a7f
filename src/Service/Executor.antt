-- ===== src/Service/Executor.antt =====
-- NativeDNS.Core/src/bounded_executor.hpp: `BoundedExecutor`. Each critical section under `mutex_`
-- is one step. A worker thread is idle in its wait, busy with a job that it took, or gone.
use native_dns.Prelude.{
  ℕ, ◌≤◌, Bool, true, false, not, ◌||◌, ◌≡◌, refl, subst, List, [], ◌∷◌, ◌++◌, leb, ◌==◌,
  if◌then◌else◌, if_cases, is_empty, length, length-append, replicate, All, other, codes, Result,
  ok, arith, throw_if, ◌>>◌, passed,
}

is_empty-nil {ℓ} : {A : Type ℓ} (xs : List A) → not (is_empty xs) ≡ false → xs ≡ []
is_empty-nil [] h = refl
is_empty-nil (x ∷ xs) h = cc

append-cons-nil {ℓ} : {A : Type ℓ} (xs : List A) (y : A) (ys : List A) → ¬ (xs ++ y ∷ ys ≡ [])
append-cons-nil [] y ys h = cc
append-cons-nil (x ∷ xs) y ys h = cc

ok-injective {ℓ} : {A : Type ℓ} {a b : A} → ok a ≡ ok b → a ≡ b
ok-injective e = cc

module _ (Job : Type 0) where
  pub data Worker : Type 0 where
    idle gone : Worker
    busy : Job → Worker

  pub record Executor : Type 0 where
    pub jobs : List Job
    pub threads : List Worker
    pub capacity : ℕ
    pub stopping : Bool

  abbrev pub new_executor : Executor
  new_executor = record { jobs = []; threads = []; capacity = 0; stopping = true }

  -- `start`, where every thread is created.
  unfoldable pub start : ℕ → ℕ → Executor → Result Executor
  start workers capacity e = do
    throw_if (workers == 0 || capacity == 0) (other (codes "invalid_argument"))
    throw_if (not (is_empty e.threads)) (other (codes "logic_error"))
    ok (record e { threads = replicate workers idle; capacity = capacity; stopping = false })

  -- A thread that cannot be created: some threads are there, and `stop` comes next.
  unfoldable pub fail_start : ℕ → Executor → Executor
  fail_start count e = record e { threads = replicate count idle; stopping = true }

  -- `submit`
  unfoldable pub submit : Job → Executor → Executor × Bool
  submit job e =
      if e.stopping || is_empty e.threads || leb e.capacity (length e.jobs)
      then (e, false)
      else (record e { jobs = e.jobs ++ job ∷ [] }, true)

  -- The first critical section of `stop`.
  unfoldable pub begin_stop : Executor → Executor
  begin_stop e = record e { jobs = []; stopping = true }

  -- The end of `stop`, behind the joins.
  unfoldable pub end_stop : Executor → Executor
  end_stop e = record e { threads = []; capacity = 0 }

  -- The critical section of `run`, for a thread whose wait is over: it returns or takes a job.
  unfoldable pub take_job : Bool → List Job → Worker × List Job
  take_job stopping [] = (if stopping then gone else idle, [])
  take_job stopping (job ∷ rest) = (busy job, rest)

  unfoldable pub wake : Executor → Worker × List Job
  unfolding take_job
  wake e = take_job e.stopping e.jobs

  abbrev pub IsGone : Worker → Type 0
  IsGone w = w ≡ gone

  pub data Step : Executor → Executor → Type 0 where
    started : {e f : Executor} (workers capacity : ℕ) → start workers capacity e ≡ ok f → Step e f
    start_failed :
        {e f : Executor} (workers capacity count : ℕ)
        → start workers capacity e ≡ ok f
        → Step e (fail_start count f)
    submitted : {e : Executor} (job : Job) → Step e (submit job e).0
    stop_began : {e : Executor} → Step e (begin_stop e)
    stop_ended : {e : Executor} → e.stopping ≡ true → All IsGone e.threads → Step e (end_stop e)
    woke :
        {e : Executor} (before behind : List Worker)
        → e.threads ≡ before ++ idle ∷ behind
        → Step e (record e { threads = before ++ (wake e).0 ∷ behind; jobs = (wake e).1 })
    finished :
        {e : Executor} (before behind : List Worker) (job : Job)
        → e.threads ≡ before ++ busy job ∷ behind
        → Step e (record e { threads = before ++ idle ∷ behind })

  -- The executors that come about from a new one.
  pub data Reachable : Executor → Type 0 where
    made : Reachable new_executor
    then_step : {e f : Executor} → Reachable e → Step e f → Reachable f

  -- The queue is within its capacity, and holds nothing where nobody will serve it.
  pub record IsBounded (e : Executor) : Type 0 where
    pub within : length e.jobs ≤ e.capacity
    pub drained : e.stopping ≡ true → e.jobs ≡ []
    pub served : e.threads ≡ [] → e.jobs ≡ []

  submit-IsBounded : (job : Job) (e : Executor) → IsBounded e → IsBounded (submit job e).0
  unfolding submit
  submit-IsBounded job e i =
      if_cases {A = Executor × Bool} (λ s. IsBounded (s.0))
        (e.stopping || is_empty e.threads || leb e.capacity (length e.jobs)) (λ _. i)
        (λ free. record {
          within = ground (arith, length-append e.jobs (job ∷ []));
          drained = λ s. ground arith;
          served = λ none. ground arith;
        })

  start-IsBounded :
      (workers capacity : ℕ) (e f : Executor)
      → start workers capacity e ≡ ok f
      → IsBounded e
      → IsBounded f × (f.jobs ≡ [])
  unfolding start
  start-IsBounded workers capacity e f h i =
      let (positive, h₁) = passed (workers == 0 || capacity == 0) _ _ h in
      let (unstarted, h₂) = passed (not (is_empty e.threads)) _ _ h₁ in
      let empty : e.jobs ≡ [] = i.served (is_empty-nil e.threads unstarted) in
      subst (λ f. IsBounded f × (f.jobs ≡ [])) (ok-injective h₂)
        (
          record { within = rw empty (omega arith); drained = λ _. empty; served = λ _. empty },
          empty,
        )

  take_job-length :
      (stopping : Bool) (jobs : List Job)
      → (length (take_job stopping jobs).1 ≤ length jobs)
        × (jobs ≡ [] → (take_job stopping jobs).1 ≡ [])
  unfolding take_job
  take_job-length stopping [] = (omega arith, λ e. e)
  take_job-length stopping (job ∷ rest) = (omega arith, λ e. cc)

  wake-IsBounded :
      (e : Executor) (before behind : List Worker)
      → IsBounded e
      → IsBounded (record e { threads = before ++ (wake e).0 ∷ behind; jobs = (wake e).1 })
  unfolding wake
  wake-IsBounded e before behind i =
      let (few, none) = take_job-length e.stopping e.jobs in
      record {
        within = omega (arith, few, i.within);
        drained = λ s. none (i.drained s);
        served = λ n. absurd (append-cons-nil before (wake e).0 behind n);
      }

  Step-IsBounded : {e f : Executor} → Step e f → IsBounded e → IsBounded f
  unfolding begin_stop end_stop fail_start
  Step-IsBounded {e} {f} (started workers capacity h) i =
      (start-IsBounded workers capacity e f h i).0
  Step-IsBounded {e} (start_failed {f = f} workers capacity count h) i =
      let (bounded, empty) = start-IsBounded workers capacity e f h i in
      record { within = bounded.within; drained = λ _. empty; served = λ _. empty }
  Step-IsBounded {e} (submitted job) i = submit-IsBounded job e i
  Step-IsBounded stop_began i = record {
    within = omega arith;
    drained = λ _. refl;
    served = λ _. refl;
  }
  Step-IsBounded {e} (stop_ended stopped _) i = record {
    within = rw (i.drained stopped) (omega arith);
    drained = λ _. i.drained stopped;
    served = λ _. i.drained stopped;
  }
  Step-IsBounded {e} (woke before behind _) i = wake-IsBounded e before behind i
  Step-IsBounded {e} (finished before behind job h) i = record {
    within = i.within;
    drained = i.drained;
    served = λ none. absurd (append-cons-nil before idle behind none);
  }

  -- In every state that an executor comes to, the queue is within its capacity, it is empty once
  -- the executor stops, and it is empty as long as there is no thread to serve it.
  pub Reachable-IsBounded : (e : Executor) → Reachable e → IsBounded e
  Reachable-IsBounded e made = record {
    within = omega arith;
    drained = λ _. refl;
    served = λ _. refl;
  }
  Reachable-IsBounded e (then_step {e = d} r s) = Step-IsBounded s (Reachable-IsBounded d r)
