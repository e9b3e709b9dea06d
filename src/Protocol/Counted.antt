-- ===== src/Protocol/Counted.antt =====
-- contracts.py, `job_lifecycle_metrics`: what the counts and the lists of jobs say of the events.
use autonomous_math_ai.Base.{
  ℕ, ◌+◌, ◌≡◌, ◌∙◌, refl, arith, sym, ap, inl, inr, Bool, true, false, ◌&&◌, ◌||◌, String, List, [],
  ◌∷◌, ◌++◌, length, length-append, keep, tally, elem, elem-append, has_duplicates,
  has_duplicates-snoc, if◌then◌else◌, string_eq, ◌==◌, Bool-cases,
}
use autonomous_math_ai.Base.Dict.{Dict, has, get, put, get-put}
use autonomous_math_ai.Base.Sorting.{length-sort}
use autonomous_math_ai.Protocol.Metrics.{
  JobEvent, JobSets, add_once, minus, names, no_jobs, is_job_end, end_job, job_step, job_sets,
  job_lifecycle_metrics,
}

-- Sets as lists without repetition.
length-add_once :
    (x : String) (xs : List String)
    → length (add_once x xs) ≡ length xs + (if elem x xs then 0 else 1)
length-add_once x xs = ground (arith, length-append xs (x ∷ []))

add_once-distinct :
    (x : String) (xs : List String)
    → has_duplicates xs ≡ false
    → has_duplicates (add_once x xs) ≡ false
add_once-distinct x xs h = ground (arith, has_duplicates-snoc x xs h)

pub elem-add_once :
    (y x : String) (xs : List String) → elem y (add_once x xs) ≡ (elem y xs || y == x)
elem-add_once y x xs = ground (arith, elem-append y xs (x ∷ []), string_eq.beq_iff y x)

pub elem-names : (x : String) (m : Dict String String) → elem x (names m) ≡ has x m
unfolding get
elem-names x [] = refl
elem-names x ((k, v) ∷ m) =
    ground (arith, elem-names x m, string_eq.beq_iff x k, string_eq.beq_iff k x)

names-put :
    (k v : String) (m : Dict String String)
    → has k m ≡ false
    → names (put k v m) ≡ names m ++ k ∷ []
unfolding get put
names-put k v [] h = refl
names-put k v ((j, w) ∷ m) h = ground (arith, names-put k v m)

pub elem-keep :
    (x : String) (p : String → Bool) (xs : List String) → elem x (keep p xs) ≡ (elem x xs && p x)
elem-keep x p [] = refl
elem-keep x p (y ∷ xs) = elim (Bool-cases (x == y)) [
  | inl same ↦
      let p_same : p x ≡ p y = ap p ((string_eq.beq_iff x y).0 same) in
      ground (arith, elem-keep x p xs)
  | inr other ↦ ground (arith, elem-keep x p xs)
]

-- The elements that two lists share, counted from either side.
shared : List String → List String → ℕ
shared xs ys = tally (λ x. elem x ys) xs

length-minus : (xs ys : List String) → length (minus xs ys) + shared xs ys ≡ length xs
unfolding shared
length-minus [] ys = refl
length-minus (x ∷ xs) ys = ground (arith, length-minus xs ys)

tally-one :
    (x : String) (ys : List String)
    → has_duplicates ys ≡ false
    → tally (λ y. y == x) ys ≡ (if elem x ys then 1 else 0)
tally-one x [] d = refl
tally-one x (y ∷ ys) d =
    ground (arith, tally-one x ys, string_eq.beq_iff x y, string_eq.beq_iff y x)

tally-none : (ys : List String) → tally (λ y. false) ys ≡ 0
tally-none [] = refl
tally-none (y ∷ ys) = omega (arith, tally-none ys)

tally-or :
    (x : String) (xs ys : List String)
    → elem x xs ≡ false
    → tally (λ y. y == x || elem y xs) ys ≡ tally (λ y. y == x) ys + tally (λ y. elem y xs) ys
tally-or x xs [] new = refl
tally-or x xs (y ∷ ys) new = elim (Bool-cases (y == x)) [
  | inl same ↦
      let e : elem y xs ≡ elem x xs =
        ap (λ (z : String). elem z xs) ((string_eq.beq_iff y x).0 same) in
      ground (arith, tally-or x xs ys new)
  | inr other ↦ ground (arith, tally-or x xs ys new)
]

shared_comm :
    (xs ys : List String)
    → has_duplicates xs ≡ false
    → has_duplicates ys ≡ false
    → shared xs ys ≡ shared ys xs
unfolding shared
shared_comm [] ys dx dy = sym (tally-none ys)
shared_comm (x ∷ xs) ys dx dy =
    ground (arith, shared_comm xs ys, tally-one x ys dy, tally-or x xs ys)

-- What holds of the sets whatever the events.
record IsCounted (s : JobSets) : Type 0 where
  started : has_duplicates s.started ≡ false
  terminal : has_duplicates (names s.first_terminal) ≡ false
  balance : length s.completed + length s.cancelled ≡ length (names s.first_terminal)
  completed_in : (x : String) → elem x s.completed ≡ true → has x s.first_terminal ≡ true
  cancelled_in : (x : String) → elem x s.cancelled ≡ true → has x s.first_terminal ≡ true

end_job-IsCounted : (e : JobEvent) (s : JobSets) → IsCounted s → IsCounted (end_job e s)
unfolding end_job
end_job-IsCounted e s h = elim (Bool-cases (has e.job_id s.first_terminal)) [
  | inl ended ↦ rw ended (record {
    started = h.started;
    terminal = h.terminal;
    balance = h.balance;
    completed_in = h.completed_in;
    cancelled_in = h.cancelled_in;
  })
  | inr first ↦
      let put_at = λ (x : String). get-put e.job_id x e.kind s.first_terminal in
      rw first (record {
        started = h.started;
        terminal = rw (names-put e.job_id e.kind s.first_terminal first) (
            has_duplicates-snoc e.job_id (names s.first_terminal) h.terminal
              (elem-names e.job_id s.first_terminal ∙ first));
        balance = ground (
          arith,
          names-put e.job_id e.kind s.first_terminal first,
          length-append (names s.first_terminal) (e.job_id ∷ []),
          length-add_once e.job_id s.completed,
          length-add_once e.job_id s.cancelled,
          h.completed_in e.job_id,
          h.cancelled_in e.job_id,
          h.balance,
        );
        completed_in = λ x m. ground (
          arith,
          put_at x,
          h.completed_in x,
          elem-add_once x e.job_id s.completed,
          string_eq.beq_iff x e.job_id,
          string_eq.beq_iff e.job_id x,
        );
        cancelled_in = λ x m. ground (
          arith,
          put_at x,
          h.cancelled_in x,
          elem-add_once x e.job_id s.cancelled,
          string_eq.beq_iff x e.job_id,
          string_eq.beq_iff e.job_id x,
        );
      })
]

job_step-IsCounted : (e : JobEvent) (s : JobSets) → IsCounted s → IsCounted (job_step e s)
unfolding job_step
job_step-IsCounted e s h = elim (Bool-cases (e.job_id == "")) [
  | inl unnamed ↦ rw unnamed h
  | inr named ↦ elim (Bool-cases (e.kind == "JOB_STARTED")) [
    | inl starts ↦
        rw (named, starts)
          (record {
            started = add_once-distinct e.job_id s.started h.started;
            terminal = h.terminal;
            balance = h.balance;
            completed_in = h.completed_in;
            cancelled_in = h.cancelled_in;
          })
    | inr goes_on ↦ elim (Bool-cases (is_job_end e.kind)) [
      | inl ends ↦ rw (named, goes_on, ends) (end_job-IsCounted e s h)
      | inr other ↦ rw (named, goes_on, other) h
    ]
  ]
]

job_sets-IsCounted : (es : List JobEvent) (s : JobSets) → IsCounted s → IsCounted (job_sets es s)
unfolding job_sets
job_sets-IsCounted [] s h = h
job_sets-IsCounted (e ∷ es) s h = job_sets-IsCounted es (job_step e s) (job_step-IsCounted e s h)

-- Whatever the events, the jobs that completed and those that were cancelled are together the
-- terminal jobs, and the jobs that started with the orphans are as many as the active jobs with the
-- terminal ones.
pub job_counts_balance :
    (events : List JobEvent)
    → let m = job_lifecycle_metrics events in
      (m.jobs_completed + m.jobs_cancelled ≡ m.jobs_terminal)
      × (m.jobs_started + length m.orphan_terminal_job_ids
          ≡ length m.active_job_ids + m.jobs_terminal)
unfolding job_lifecycle_metrics
job_counts_balance events =
    let s = job_sets events no_jobs in
    let h = job_sets-IsCounted events no_jobs (record {
      started = refl;
      terminal = refl;
      balance = refl;
      completed_in = λ x m. cc;
      cancelled_in = λ x m. cc;
    }) in
    let terminal = names s.first_terminal in
    (
      h.balance,
      omega (
        arith,
        length-sort (minus s.started terminal),
        length-sort (minus terminal s.started),
        length-minus s.started terminal,
        length-minus terminal s.started,
        shared_comm s.started terminal h.started h.terminal,
      ),
    )
