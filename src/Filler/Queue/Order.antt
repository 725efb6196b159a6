-- ===== src/Filler/Queue/Order.antt =====
-- Sorting a numbered queue puts the jobs of each priority together, in the order of arrival.
use atomicassets_api.Prelude.{
  ℕ, zero, suc, ◌+◌, ◌<◌, ◌≤◌, ◌≡◌, refl, true, false, List, [], ◌∷◌, ◌++◌, ◌==◌, arith, Bool-cases,
  inl, inr,
}
use atomicassets_api.Prelude.Predicates.{All, All-append}
use atomicassets_api.Filler.Queue.{Job, job_le, insert_job, sort_jobs}
use atomicassets_api.Filler.Queue.Phases.{of_priority, IsNumbered, IsBelow}

module _ {S : Type 0} where
  unfoldable pub buckets : ℕ → ℕ → List (Job S) → List (Job S)
  buckets lo zero q = []
  buckets lo (suc n) q = of_priority lo q ++ buckets (suc lo) n q

  abbrev Later : Job S → List (Job S) → Type 0
  Later x = All (λ (j : Job S). x.index < j.index)

  abbrev AtLeast : ℕ → List (Job S) → Type 0
  AtLeast p = All (λ (j : Job S). p ≤ j.priority)

  IsNumbered-Later :
      (x : Job S) (k : ℕ) (q : List (Job S)) → x.index ≤ k → IsNumbered k q → Later x q
  IsNumbered-Later x k [] h n = tt
  IsNumbered-Later x k (j ∷ js) h n = (omega arith, IsNumbered-Later x (suc k) js (omega arith) n.1)

  insert_job_first :
      (x : Job S) (l : List (Job S))
      → All (λ (j : Job S). job_le x j ≡ true) l
      → insert_job x l ≡ x ∷ l
  unfolding insert_job
  insert_job_first x [] h = refl
  insert_job_first x (y ∷ l) h = ground arith

  insert_job_past :
      (x : Job S) (f r : List (Job S))
      → All (λ (j : Job S). job_le x j ≡ false) f
      → insert_job x (f ++ r) ≡ f ++ insert_job x r
  unfolding insert_job
  insert_job_past x [] r h = refl
  insert_job_past x (y ∷ f) r h = ground (arith, insert_job_past x f r)

  of_priority-le :
      (x : Job S) (lo : ℕ) (q : List (Job S))
      → x.priority ≡ lo
      → Later x q
      → All (λ (j : Job S). job_le x j ≡ true) (of_priority lo q)
  of_priority-le x lo [] p h = tt
  of_priority-le x lo (j ∷ q) p h = elim (Bool-cases (j.priority == lo)) [
    | inl e ↦ rw e (ground arith, of_priority-le x lo q p h.1)
    | inr e ↦ rw e (of_priority-le x lo q p h.1)
  ]

  of_priority-gt :
      (x : Job S) (lo : ℕ) (q : List (Job S))
      → lo < x.priority
      → All (λ (j : Job S). job_le x j ≡ false) (of_priority lo q)
  of_priority-gt x lo [] h = tt
  of_priority-gt x lo (j ∷ q) h = elim (Bool-cases (j.priority == lo)) [
    | inl e ↦ rw e (ground arith, of_priority-gt x lo q h)
    | inr e ↦ rw e (of_priority-gt x lo q h)
  ]

  of_priority-AtLeast : (lo : ℕ) (q : List (Job S)) → AtLeast lo (of_priority lo q)
  of_priority-AtLeast lo [] = tt
  of_priority-AtLeast lo (j ∷ q) = elim (Bool-cases (j.priority == lo)) [
    | inl e ↦ rw e (ground arith, of_priority-AtLeast lo q)
    | inr e ↦ rw e (of_priority-AtLeast lo q)
  ]

  AtLeast-weaken : (a b : ℕ) (l : List (Job S)) → a ≤ b → AtLeast b l → AtLeast a l
  AtLeast-weaken a b [] h k = tt
  AtLeast-weaken a b (j ∷ l) h k = (omega arith, AtLeast-weaken a b l h k.1)

  pub buckets-AtLeast : (lo n : ℕ) (q : List (Job S)) → AtLeast lo (buckets lo n q)
  unfolding buckets
  buckets-AtLeast lo zero q = tt
  buckets-AtLeast lo (suc n) q =
      All-append (λ (j : Job S). lo ≤ j.priority) (of_priority lo q) (buckets (suc lo) n q)
        (of_priority-AtLeast lo q)
        (AtLeast-weaken lo (suc lo) _ (omega arith) (buckets-AtLeast (suc lo) n q))

  AtLeast-le :
      (x : Job S) (lo : ℕ) (l : List (Job S))
      → x.priority < lo
      → AtLeast lo l
      → All (λ (j : Job S). job_le x j ≡ true) l
  AtLeast-le x lo [] h k = tt
  AtLeast-le x lo (j ∷ l) h k = (ground arith, AtLeast-le x lo l h k.1)

  of_priority_skip :
      (x : Job S) (lo : ℕ) (q : List (Job S))
      → x.priority < lo
      → of_priority lo (x ∷ q) ≡ of_priority lo q
  of_priority_skip x lo q h = ground arith

  buckets_skip :
      (x : Job S) (lo n : ℕ) (q : List (Job S))
      → x.priority < lo
      → buckets lo n (x ∷ q) ≡ buckets lo n q
  unfolding buckets
  buckets_skip x lo zero q h = refl
  buckets_skip x lo (suc n) q h =
      rw (of_priority_skip x lo q h, buckets_skip x (suc lo) n q (omega arith)) refl

  insert_job-buckets :
      (x : Job S) (lo n : ℕ) (q : List (Job S))
      → Later x q
      → lo ≤ x.priority
      → x.priority < lo + n
      → insert_job x (buckets lo n q) ≡ buckets lo n (x ∷ q)
  unfolding buckets
  insert_job-buckets x lo zero q h a b = absurd (omega arith)
  insert_job-buckets x lo (suc n) q h a b = elim (Bool-cases (x.priority == lo)) [
    | inl e ↦
        let same : x.priority ≡ lo = ground arith in
        rw (e, buckets_skip x (suc lo) n q (omega arith))
          (insert_job_first x (of_priority lo q ++ buckets (suc lo) n q) (
            All-append (λ (j : Job S). job_le x j ≡ true) (of_priority lo q) (buckets (suc lo) n q)
              (of_priority-le x lo q same h)
              (AtLeast-le x (suc lo) _ (omega arith) (buckets-AtLeast (suc lo) n q))))
    | inr e ↦
        let above : lo < x.priority = ground arith in
        rw
          (
            e,
            insert_job_past x (of_priority lo q) (buckets (suc lo) n q)
                (of_priority-gt x lo q above),
          )
          (rw (insert_job-buckets x (suc lo) n q h (omega arith) (omega arith)))
  ]

  buckets-nil : (lo n : ℕ) → [] ≡ buckets lo n []
  unfolding buckets
  buckets-nil lo zero = refl
  buckets-nil lo (suc n) = buckets-nil (suc lo) n

  pub sort_jobs-buckets :
      (k n : ℕ) (q : List (Job S)) → IsNumbered k q → IsBelow n q → sort_jobs q ≡ buckets 0 n q
  unfolding sort_jobs
  sort_jobs-buckets k n [] h b = buckets-nil 0 n
  sort_jobs-buckets k n (x ∷ q) h b = rw (sort_jobs-buckets (suc k) n q h.1 b.1) (
      insert_job-buckets x 0 n q (IsNumbered-Later x (suc k) q (omega arith) h.1) (omega arith)
        (omega arith))
