-- ===== src/Dispatch/Work.antt =====
-- The steps that the tasks of a problem still take.
use distributed_task_dispatc.Prelude.{
  ℕ, ◌+◌, ◌*◌, ◌≤◌, ◌≡◌, ◌≢◌, refl, sym, ap, ◌∙◌, subst, inl, inr, List, [], ◌∷◌, Option, none,
  some, arith, Option-cases, length, In, Distinct, keys, lookup, lookup-assign_self,
  lookup-assign_ne, assign, Eq_nat,
}
use distributed_task_dispatc.Dispatch.{TaskStatus, processing, completed}
use distributed_task_dispatc.Dispatch.Send.{mark_processing}

-- The steps that a task still takes: it is sent, and it is answered.
abbrev pub cost : Option TaskStatus → ℕ
cost none = 2
cost (some processing) = 1
cost (some completed) = 0

abbrev pub work : List (ℕ × TaskStatus) → List ℕ → ℕ
work m [] = 0
work m (t ∷ ts) = cost (lookup t m) + work m ts

pub work-bound : (m : List (ℕ × TaskStatus)) (ts : List ℕ) → work m ts ≤ 2 * length ts
work-bound m [] = omega arith
work-bound m (t ∷ ts) =
    let ih = work-bound m ts in
    elim (Option-cases (lookup t m)) [
      | inl e ↦ rw e (omega arith)
      | inr (processing, e) ↦ rw e (omega arith)
      | inr (completed, e) ↦ rw e (omega arith)
    ]

work_other :
    (m : List (ℕ × TaskStatus)) (k : ℕ) (s : TaskStatus) (ts : List ℕ)
    → ¬ In k ts
    → work (assign k s m) ts ≡ work m ts
work_other m k s [] n = refl
work_other m k s (t ∷ ts) n =
    rw (lookup-assign_ne k t s m (λ e. n (inl e)), work_other m k s ts (λ i. n (inr i))) refl

pub work-assign :
    (m : List (ℕ × TaskStatus)) (k : ℕ) (s : TaskStatus) (ts : List ℕ)
    → Distinct ts
    → In k ts
    → work m ts + cost (some s) ≡ work (assign k s m) ts + cost (lookup k m)
work-assign m k s [] d i = absurd i
work-assign m k s (t ∷ ts) d (inl e) =
    subst (λ u. work m (t ∷ ts) + cost (some s) ≡ work (assign u s m) (t ∷ ts) + cost (lookup u m))
      (sym e) (rw (lookup-assign_self t s m, work_other m t s ts d.0) (omega arith))
work-assign m k s (t ∷ ts) d (inr i) =
    let ih = work-assign m k s ts d.1 i in
    let apart : k ≢ t = λ e. d.0 (subst (λ u. In u ts) e i) in
    rw (lookup-assign_ne k t s m apart) (omega arith)

pub work-mark_processing :
    (entries : List (ℕ × List ℕ)) (m : List (ℕ × TaskStatus)) (ts : List ℕ)
    → Distinct ts
    → Distinct (keys entries)
    → ((t : ℕ) → In t (keys entries) → In t ts × (lookup t m ≡ none))
    → work (mark_processing entries m) ts + length entries ≡ work m ts
work-mark_processing [] m ts d once open_ = omega arith
work-mark_processing ((t, deps) ∷ entries) m ts d once open_ =
    let (listed, unseen) = open_ t (inl refl) in
    let first = work-assign m t processing ts d listed in
    let after = ap cost unseen in
    let ih = work-mark_processing entries (assign t processing m) ts d once.1 λ u i.
      let (l, n) = open_ u (inr i) in
      (
        l,
        lookup-assign_ne t u processing m (λ e. once.0 (subst (λ v. In v (keys entries)) (sym e) i))
            ∙ n,
      ) in
    omega arith
