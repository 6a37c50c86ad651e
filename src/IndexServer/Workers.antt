-- ===== src/IndexServer/Workers.antt =====
-- The threads that add rows to the index, and the bounded channel that feeds them:
-- `create_streaming_usearch_index` of lantern_cli/src/external_index/server.rs, as a step relation.
-- A step is one send, the end of the sending, or what one worker does while it holds the lock or
-- adds a row. The index is a parameter.
use lanterndb.Prelude.{ℕ, suc, ◌<◌, ◌≡◌, Bool, true, false, List, [], ◌∷◌, ◌++◌, length, ok, err}
use lanterndb.IndexServer.Rows.{Row, UsearchIndex}

-- `mpsc::sync_channel(2000)`
abbrev pub channel_bound : ℕ
channel_bound = 2000

-- The rows of the channel, of the workers that add one, and those added, lost and sent so far. An
-- idle worker waits for a row.
pub record Pool (I : Type 0) : Type 0 where
  pub index : I
  pub queue : List Row
  pub closed : Bool
  pub idle : ℕ
  pub busy : List Row
  pub added : List Row
  pub lost : List Row
  pub sent : List Row

abbrev pub started : {I : Type 0} → I → ℕ → Pool I
started index num_cores = record {
  index = index;
  queue = [];
  closed = false;
  idle = num_cores;
  busy = [];
  added = [];
  lost = [];
  sent = [];
}

module _ {I : Type 0} (ix : UsearchIndex I) (element_bits : ℕ) where
  pub data Step : Pool I → Pool I → Type 0 where
    -- A send waits until the channel has a place.
    send :
        (p : Pool I) (row : Row)
        → p.closed ≡ false
        → length p.queue < channel_bound
        → Step p (record p { queue = p.queue ++ row ∷ []; sent = p.sent ++ row ∷ [] })
    close : (p : Pool I) → Step p (record p { closed = true })
    take_row :
        (p : Pool I) (row : Row) (rest : List Row) (n : ℕ)
        → p.queue ≡ row ∷ rest
        → p.idle ≡ suc n
        → Step p (record p { queue = rest; idle = n; busy = row ∷ p.busy })
    add :
        (p : Pool I) (before after : List Row) (row : Row) (index : I)
        → p.busy ≡ before ++ row ∷ after
        → ix.add_raw p.index row element_bits ≡ ok index
        → Step p (record p {
          index = index;
          idle = suc p.idle;
          busy = before ++ after;
          added = p.added ++ row ∷ [];
        })
    -- An error ends the worker; the row is not added.
    fail :
        (p : Pool I) (before after : List Row) (row : Row) (e : ℕ)
        → p.busy ≡ before ++ row ∷ after
        → ix.add_raw p.index row element_bits ≡ err e
        → Step p (record p { busy = before ++ after; lost = p.lost ++ row ∷ [] })
    -- A worker that finds the channel empty and closed ends.
    stop :
        (p : Pool I) (n : ℕ)
        → p.queue ≡ []
        → p.closed ≡ true
        → p.idle ≡ suc n
        → Step p (record p { idle = n })

  pub data Reach (p : Pool I) : Pool I → Type 0 where
    here : Reach p p
    next : {q r : Pool I} → Reach p q → Step q r → Reach p r
