-- ===== src/Filler/Database/Transaction/Watched.antt =====
-- A client of src/filler/database.ts with a record of what it is sent: each statement, whether it was
-- answered, the last first, and how often the client was released.
use atomicassets_api.Prelude.{ℕ, suc, Bool, true, false, List, ◌∷◌}
use atomicassets_api.Filler.Database.Statement.{Statement, Answer, answered, refused, Client}

pub record Watched (S : Type 0) : Type 0 where
  pub base : S
  pub log : List (Statement × Bool)
  pub released : ℕ

abbrev pub is_answered : Answer → Bool
is_answered (answered r) = true
is_answered (refused message) = false

module _ {S : Type 0} (client : Client S) where
  abbrev pub watched_query : Statement → Watched S → Answer × Watched S
  watched_query statement w =
      let r = client.query statement w.base in
      (r.0, record w { base = r.1; log = (statement, is_answered r.0) ∷ w.log })

  abbrev pub watched_release : Watched S → Watched S
  watched_release w = record w { base = client.release w.base; released = suc w.released }

  abbrev pub watch : Client (Watched S)
  watch = record { query = watched_query; release = watched_release }
