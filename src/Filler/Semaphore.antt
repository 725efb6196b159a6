-- ===== src/Filler/Semaphore.antt =====
-- `Semaphore` of src/utils/semaphore.ts, by which the receiver bounds the blocks that it prepares. A
-- waiting task is known by a number; what is resolved and rejected is the result of an operation.
use atomicassets_api.Prelude.{
  ℕ, zero, suc, ◌≡◌, ◌≢◌, refl, ap, ◌∙◌, Bool, true, false, List, [], ◌∷◌, ◌++◌, if◌then◌else◌,
}
use atomicassets_api.Prelude.Int.{ℤ, pos, negsuc, lt_nat}

-- The counter may become negative: `purge` sets it to 0 while tasks hold the semaphore.
pub record Semaphore : Type 0 where
  pub max_holders : ℕ
  pub counter : ℤ
  pub waiting : List ℕ

abbrev pub new_semaphore : ℕ → Semaphore
new_semaphore n = record { max_holders = n; counter = pos 0; waiting = [] }

abbrev increment : ℤ → ℤ
increment (pos n) = pos (suc n)
increment (negsuc zero) = pos 0
increment (negsuc (suc n)) = negsuc n

abbrev decrement : ℤ → ℤ
decrement (pos zero) = negsuc 0
decrement (pos (suc n)) = pos n
decrement (negsuc n) = negsuc (suc n)

-- `acquire` by a task: true if it goes on at once
unfoldable pub acquire : ℕ → Semaphore → Semaphore × Bool
acquire t s =
    if lt_nat s.counter s.max_holders
    then (record s { counter = increment s.counter }, true)
    else (record s { waiting = s.waiting ++ t ∷ [] }, false)

abbrev take_from : List ℕ → Semaphore → Semaphore × List ℕ
take_from [] s = (s, [])
take_from (t ∷ ts) s =
    if lt_nat s.counter s.max_holders
    then (record s { counter = increment s.counter; waiting = ts }, t ∷ [])
    else (s, [])

-- `take`, and the task that it resolves
unfoldable pub take_next : Semaphore → Semaphore × List ℕ
take_next s = take_from s.waiting s

unfoldable pub release : Semaphore → Semaphore × List ℕ
unfolding take_next
release s = take_next (record s { counter = decrement s.counter })

-- `purge`, and the tasks that it rejects
unfoldable pub purge : Semaphore → Semaphore × List ℕ
purge s = (record s { counter = pos 0; waiting = [] }, s.waiting)

pub data Operation : Type 0 where
  acquiring : ℕ → Operation
  releasing purging : Operation

unfoldable pub perform_operation : Operation → Semaphore → Semaphore
unfolding acquire release purge
perform_operation (acquiring t) s = (acquire t s).0
perform_operation releasing s = (release s).0
perform_operation purging s = (purge s).0

unfoldable pub perform_all : List Operation → Semaphore → Semaphore
unfolding perform_operation
perform_all [] s = s
perform_all (o ∷ os) s = perform_all os (perform_operation o s)

-- A task waits only while the semaphore is full.
abbrev pub IsFullIfWaiting : Semaphore → Type 0
IsFullIfWaiting s = s.waiting ≢ [] → lt_nat s.counter s.max_holders ≡ false

increment-decrement : (z : ℤ) → increment (decrement z) ≡ z
increment-decrement (pos zero) = refl
increment-decrement (pos (suc n)) = refl
increment-decrement (negsuc n) = refl

not_both : (b : Bool) → b ≡ true → b ≡ false → ⊥
not_both b h k = absurd (cc)

if_full :
    {B : Type 0} (b : Bool) (x y : Semaphore × B)
    → (b ≡ true → IsFullIfWaiting x.0)
    → (b ≡ false → IsFullIfWaiting y.0)
    → IsFullIfWaiting (if b then x else y).0
if_full true x y h k = h refl
if_full false x y h k = k refl

acquire-IsFullIfWaiting :
    (t : ℕ) (s : Semaphore) → IsFullIfWaiting s → IsFullIfWaiting (acquire t s).0
unfolding acquire
acquire-IsFullIfWaiting t s h =
    let full = lt_nat s.counter s.max_holders in
    if_full full (record s { counter = increment s.counter }, true)
      (record s { waiting = s.waiting ++ t ∷ [] }, false) (λ e w. absurd (not_both full e (h w)))
      (λ e w. e)

take_from-IsFullIfWaiting :
    (ts : List ℕ) (s : Semaphore)
    → s.waiting ≡ ts
    → (ts ≢ [] → lt_nat s.counter s.max_holders ≡ false)
    → IsFullIfWaiting (take_from ts (record s { counter = decrement s.counter })).0
take_from-IsFullIfWaiting [] s e h = λ w. absurd (w e)
take_from-IsFullIfWaiting (t ∷ ts) s e h =
    let down = record s { counter = decrement s.counter } in
    if_full (lt_nat down.counter s.max_holders)
      (record down { counter = increment down.counter; waiting = ts }, t ∷ []) (down, [])
      (λ k w.
        ap (λ z. lt_nat z s.max_holders) (increment-decrement s.counter) ∙ h (λ q. absurd (cc)))
      (λ k w. k)

perform_operation-IsFullIfWaiting :
    (o : Operation) (s : Semaphore) → IsFullIfWaiting s → IsFullIfWaiting (perform_operation o s)
unfolding perform_operation release take_next purge
perform_operation-IsFullIfWaiting (acquiring t) s h = acquire-IsFullIfWaiting t s h
perform_operation-IsFullIfWaiting releasing s h = take_from-IsFullIfWaiting s.waiting s refl h
perform_operation-IsFullIfWaiting purging s h = λ w. absurd (w refl)

perform_all-kept :
    (os : List Operation) (s : Semaphore) → IsFullIfWaiting s → IsFullIfWaiting (perform_all os s)
unfolding perform_all
perform_all-kept [] s h = h
perform_all-kept (o ∷ os) s h =
    perform_all-kept os (perform_operation o s) (perform_operation-IsFullIfWaiting o s h)

-- Whatever is done with a new semaphore, in any order, purges and releases without an acquire
-- included: a task waits only while the semaphore is full, so no task is left waiting beside a free
-- place.
pub perform_all-IsFullIfWaiting :
    (n : ℕ) (os : List Operation) → IsFullIfWaiting (perform_all os (new_semaphore n))
perform_all-IsFullIfWaiting n os = perform_all-kept os (new_semaphore n) (λ w. absurd (w refl))
