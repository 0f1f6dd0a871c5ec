-- ===== src/Worker/Queues.antt =====
-- What each step on the queues of a worker does to the responses that the worker owes.
use distributed_task_dispatc.Prelude.{
  ℕ, zero, suc, ◌+◌, ◌≡◌, refl, ap, inl, inr, Bool, List, [], ◌∷◌, ◌++◌, Option, none, some, String,
  ok, >>=-eq-ok, arith, map, get_elem?, if◌then◌else◌, str_eq, Bool-cases, Option-cases, List-cases,
  ltb, length, true, false,
}
use distributed_task_dispatc.Domain.{expr_type_of}
use distributed_task_dispatc.Domain.Arith.{Reducer}
use distributed_task_dispatc.Messages.{WorkerTask, WorkerTaskId, WorkerMessage, task_id}
use distributed_task_dispatc.Database.{Store}
use distributed_task_dispatc.Worker.{
  Worker, calculate_task, calculate_task_impl, extract_operands, read_request, take_task,
  finish_task, check_output_queue, erase_at,
}

abbrev pub answer_of : WorkerTask → WorkerTaskId
answer_of t = record { identity = t.identity; id = t.task.id }

-- What the worker still owes: tasks in the queue, tasks under calculation, responses in the queue.
abbrev pub owed : Worker → List WorkerTaskId
owed w = map answer_of w.tasks ++ (map answer_of w.running ++ w.finished_tasks)

-- How many elements pass a test.
abbrev pub count {ℓ} : {A : Type ℓ} → (A → Bool) → List A → ℕ
count p [] = 0
count p (x ∷ xs) = (if p x then 1 else 0) + count p xs

pub count-append {ℓ} :
    {A : Type ℓ} (p : A → Bool) (xs ys : List A) → count p (xs ++ ys) ≡ count p xs + count p ys
count-append p [] ys = omega arith
count-append p (x ∷ xs) ys = omega (arith, count-append p xs ys)

map-append_last :
    (ts : List WorkerTask) (t : WorkerTask)
    → map answer_of (ts ++ t ∷ []) ≡ map answer_of ts ++ answer_of t ∷ []
map-append_last [] t = refl
map-append_last (u ∷ ts) t = ap (◌∷◌ (answer_of u)) (map-append_last ts t)

count-erase_at :
    (p : WorkerTaskId → Bool) (ts : List WorkerTask) (i : ℕ) {t : WorkerTask}
    → get_elem? ts i ≡ some t
    → count p (map answer_of ts)
      ≡ count p (map answer_of (erase_at ts i)) + count p (answer_of t ∷ [])
unfolding erase_at
count-erase_at p [] i h = cc
count-erase_at p (u ∷ ts) zero {t} h =
    let q : u ≡ t = cc h in let e = ap (λ v. count p (answer_of v ∷ [])) q in omega arith
count-erase_at p (u ∷ ts) (suc i) {t} h = let ih = count-erase_at p ts i {t = t} h in omega arith

-- The responses that a message carries.
abbrev pub sent_by : Option WorkerMessage → List WorkerTaskId
sent_by (some (task_id t)) = t ∷ []
sent_by _ = []

-- A task that is for this worker.
abbrev pub taken_in : String → WorkerTask → List WorkerTaskId
taken_in identity t = if str_eq t.identity identity then answer_of t ∷ [] else []

abbrev pub Balanced :
    (WorkerTaskId → Bool) → Worker → List WorkerTaskId → Worker → List WorkerTaskId → Type 0
Balanced p w got w' sent =
    (w'.identity ≡ w.identity) × (count p got + count p (owed w) ≡ count p sent + count p (owed w'))

count-owed :
    (p : WorkerTaskId → Bool) (w : Worker)
    → count p (owed w)
      ≡ count p (map answer_of w.tasks)
        + (count p (map answer_of w.running) + count p w.finished_tasks)
count-owed p w = omega (
  arith,
  count-append p (map answer_of w.tasks) (map answer_of w.running ++ w.finished_tasks),
  count-append p (map answer_of w.running) w.finished_tasks,
)

pub read_request-Balanced :
    (p : WorkerTaskId → Bool) (w : Worker) (t : WorkerTask)
    → Balanced p w (taken_in w.identity t) (read_request w t) []
unfolding read_request
read_request-Balanced p w t = elim (Bool-cases (str_eq t.identity w.identity)) [
  | inr b ↦ rw b (refl, refl)
  | inl b ↦
      let w' : Worker = record w { tasks = w.tasks ++ t ∷ [] } in
      let last = ap (count p) (map-append_last w.tasks t) in
      let split = count-append p (map answer_of w.tasks) (answer_of t ∷ []) in
      let before = count-owed p w in let after = count-owed p w' in rw b (refl, omega arith)
]

pub take_none : (w : Worker) → w.tasks ≡ [] → take_task w ≡ w
unfolding take_task
take_none w e = rw (e, take_task) (ap (λ l. record w { tasks = l }) e)

pub take_busy : (w : Worker) → ltb (length w.running) w.cores ≡ false → take_task w ≡ w
unfolding take_task
take_busy w b = elim (List-cases w.tasks) [
  | inl e ↦ take_none w e
  | inr (t, ts, e) ↦ rw (e, take_task, b) (ap (λ l. record w { tasks = l }) e)
]

pub take_some :
    (w : Worker) {t : WorkerTask} {ts : List WorkerTask}
    → w.tasks ≡ t ∷ ts
    → ltb (length w.running) w.cores ≡ true
    → take_task w ≡ record w { tasks = ts; running = w.running ++ t ∷ [] }
unfolding take_task
take_some w e b = rw (e, take_task, b) refl

pub take_task-Balanced : (p : WorkerTaskId → Bool) (w : Worker) → Balanced p w [] (take_task w) []
take_task-Balanced p w = elim (List-cases w.tasks) [
  | inl e ↦ rw (take_none w e) (refl, refl)
  | inr (t, ts, e) ↦ elim (Bool-cases (ltb (length w.running) w.cores)) [
    | inr b ↦ rw (take_busy w b) (refl, refl)
    | inl b ↦
        let w' : Worker = record w { tasks = ts; running = w.running ++ t ∷ [] } in
        let last = ap (count p) (map-append_last w.running t) in
        let split = count-append p (map answer_of w.running) (answer_of t ∷ []) in
        let front = ap (λ l. count p (map answer_of l)) e in
        let before = count-owed p w in
        let after = count-owed p w' in rw (take_some w e b) (refl, omega arith)
  ]
]

pub calculate_task-answer :
    (r : Reducer) (s : Store) (t : WorkerTask) (a : Store × WorkerTaskId)
    → calculate_task r s t ≡ ok a
    → answer_of t ≡ a.1
unfolding calculate_task
calculate_task-answer r s t a run =
    let (values, _, k₁) = >>=-eq-ok (extract_operands s t.task.operands) _ run in
    let (v, _, k₂) =
      >>=-eq-ok (calculate_task_impl r (expr_type_of t.task.operation_type) values) _ k₁ in
    cc k₂

finish_some :
    (p : WorkerTaskId → Bool) (r : Reducer) (s s' : Store) (w w' : Worker) (i : ℕ) (t : WorkerTask)
    → get_elem? w.running i ≡ some t
    → finish_task r s w i ≡ ok (s', w')
    → Balanced p w [] w' []
unfolding finish_task
finish_some p r s s' w w' i t e h =
    let h₁ = rw (e, finish_task) at h in
    let (a, run, h₂) = >>=-eq-ok (calculate_task r s t) _ h₁ in
    let answered = calculate_task-answer r s t a run in
    let end : record w {
      running = erase_at w.running i;
      finished_tasks = w.finished_tasks ++ a.1 ∷ [];
    }
        ≡ w' =
      cc h₂ in
    let gone = count-erase_at p w.running i e in
    let split = count-append p w.finished_tasks (a.1 ∷ []) in
    let one = ap (λ x. count p (x ∷ [])) answered in
    let before = count-owed p w in
    let after = count-owed p (record w {
      running = erase_at w.running i;
      finished_tasks = w.finished_tasks ++ a.1 ∷ [];
    }) in
    rw (← end) (refl, omega arith)

pub finish_task-Balanced :
    (p : WorkerTaskId → Bool) (r : Reducer) (s s' : Store) (w w' : Worker) (i : ℕ)
    → finish_task r s w i ≡ ok (s', w')
    → Balanced p w [] w' []
unfolding finish_task
finish_task-Balanced p r s s' w w' i h = elim (Option-cases (get_elem? w.running i)) [
  | inl e ↦
      let q : ok (s, w) ≡ ok (s', w') = rw (e, finish_task) at h in
      let same : w' ≡ w = cc q in rw same (refl, refl)
  | inr (t, e) ↦ finish_some p r s s' w w' i t e h
]

reply_none : (w : Worker) → w.finished_tasks ≡ [] → check_output_queue w ≡ (w, none)
unfolding check_output_queue
reply_none w e = rw (e, check_output_queue) (ap (λ l. (record w { finished_tasks = l }, none)) e)

pub reply_some :
    (w : Worker) {t : WorkerTaskId} {ts : List WorkerTaskId}
    → w.finished_tasks ≡ t ∷ ts
    → check_output_queue w ≡ (record w { finished_tasks = ts }, some (task_id t))
unfolding check_output_queue
reply_some w e = rw (e, check_output_queue) refl

pub check_output_queue-Balanced :
    (p : WorkerTaskId → Bool) (w : Worker)
    → Balanced p w [] (check_output_queue w).0 (sent_by (check_output_queue w).1)
check_output_queue-Balanced p w = elim (List-cases w.finished_tasks) [
  | inl e ↦ rw (reply_none w e) (refl, refl)
  | inr (t, ts, e) ↦
      let w' : Worker = record w { finished_tasks = ts } in
      let front = ap (count p) e in
      let before = count-owed p w in
      let after = count-owed p w' in rw (reply_some w e) (refl, omega arith)
]
