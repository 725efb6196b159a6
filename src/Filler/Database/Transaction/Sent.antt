-- ===== src/Filler/Database/Transaction/Sent.antt =====
-- The order of the statements that a transaction of src/filler/database.ts may send.
use atomicassets_api.Prelude.{
  Bool, true, false, not, ◌≡◌, ◌≢◌, refl, sym, List, [], ◌∷◌, if◌then◌else◌,
}
use mathlib.Core.Path.{subst}
use atomicassets_api.Filler.Database.Statement.{
  Statement, begin_transaction, commit_transaction, roll_back_transaction, setting, select_rows,
  insert_rows, update_rows, update_from, delete_rows, insert_reversible_queries,
  count_reversible_queries, select_reversible_queries, delete_reversible_queries,
  delete_reversible_blocks_from, delete_reversible_queries_until, delete_reversible_blocks_until,
  rewind_reader, update_reader, describe_columns,
}
use atomicassets_api.Filler.Database.Transaction.Frame.{is_work, is_end}

-- The session of a client after the statements that it was sent: with a transaction or without one;
-- or unopened, after a BEGIN that was refused, from when on the code takes a transaction for open
-- that is not; or misplaced, after a BEGIN in a transaction, or another statement outside of one.
pub data Session : Type 0 where
  session : Bool → Session
  unopened misplaced : Session

-- From a session with or without a transaction. One that the database refuses to end stays open.
abbrev pub after : Statement → Bool → Bool → Session
after begin_transaction good was_open =
    if was_open then misplaced else if good then session true else unopened
after commit_transaction good was_open = if was_open then session (not good) else misplaced
after roll_back_transaction good was_open = if was_open then session (not good) else misplaced
after _ good was_open = if was_open then session true else misplaced

abbrev pub then_after : Statement → Bool → Session → Session
then_after statement good (session was_open) = after statement good was_open
then_after statement good unopened = unopened
then_after statement good misplaced = misplaced

-- The session after the statements that were sent, the last first.
abbrev pub opened : List (Statement × Bool) → Session
opened [] = session false
opened ((statement, good) ∷ log) = then_after statement good (opened log)

-- No statement is misplaced before a BEGIN is refused.
abbrev pub IsBracketed : List (Statement × Bool) → Type 0
IsBracketed log = opened log ≢ misplaced

-- A session has a transaction or not as a flag says, unless a BEGIN was refused.
abbrev pub Matches : Session → Bool → Type 0
Matches (session c) b = c ≡ b
Matches unopened b = Unit {0}
Matches misplaced b = ⊥

pub follows :
    (statement : Statement) (good : Bool) (x : Session) (b d : Bool)
    → Matches x b
    → Matches (after statement good b) d
    → Matches (then_after statement good x) d
follows statement good (session c) b d m h =
    subst (λ y. Matches (after statement good y) d) (sym m) h
follows statement good unopened b d m h = tt
follows statement good misplaced b d m h = absurd m

pub bracketed : (x : Session) (b : Bool) → Matches x b → x ≢ misplaced
bracketed (session c) b m e = absurd (cc)
bracketed unopened b m e = absurd (cc)
bracketed misplaced b m e = m

pub moved : (x y : Session) (b c : Bool) → x ≡ y → b ≡ c → Matches y c → Matches x b
moved x y b c e f m = subst (λ z. Matches z b) (sym e) (subst (Matches y) (sym f) m)

pub begin_opens : (good : Bool) → Matches (after begin_transaction good false) true
begin_opens true = refl
begin_opens false = tt

pub work_stays :
    (statement : Statement) (good : Bool)
    → is_work statement ≡ true
    → Matches (after statement good true) true
work_stays begin_transaction good h = absurd (cc)
work_stays commit_transaction good h = absurd (cc)
work_stays roll_back_transaction good h = absurd (cc)
work_stays (setting s) good h = refl
work_stays (select_rows a b c d) good h = refl
work_stays (insert_rows a b c d) good h = refl
work_stays (update_rows a b c d) good h = refl
work_stays (update_from a b c d e) good h = refl
work_stays (delete_rows a b) good h = refl
work_stays (insert_reversible_queries a) good h = refl
work_stays (count_reversible_queries a b) good h = refl
work_stays (select_reversible_queries a b c) good h = refl
work_stays (delete_reversible_queries a) good h = refl
work_stays (delete_reversible_blocks_from a b) good h = refl
work_stays (delete_reversible_queries_until a b) good h = refl
work_stays (delete_reversible_blocks_until a b) good h = refl
work_stays (rewind_reader a b) good h = refl
work_stays (update_reader a b c d e) good h = refl
work_stays (describe_columns a) good h = refl

pub end_ends :
    (statement : Statement) (good : Bool)
    → is_end statement ≡ true
    → Matches (after statement good true) (not good)
end_ends commit_transaction good h = refl
end_ends roll_back_transaction good h = refl
end_ends _ good h = absurd (cc)
