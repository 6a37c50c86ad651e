-- ===== src/Daemon/Clients/Payload.antt =====
-- The notifications of a client's table, lantern_cli/src/daemon/client_embedding_jobs.rs: the trigger
-- sends the key, a colon and the job. How numbers are written and read is a parameter.
use lanterndb.Prelude.{
  ℕ, ◌≡◌, ◌≢◌, refl, false, Option, none, some, List, [], ◌∷◌, ◌++◌, All, split, split-part,
  split-last,
}
use lanterndb.Daemon.Clients.{JobInsertNotification}

-- What the task does with a payload: it goes on, sends a notification, or panics.
pub data Received : Type 0 where
  invalid : Received
  notified : JobInsertNotification → Received
  panicked : Received

abbrev pub numbered : List ℕ → Option ℕ → Received
numbered pk none = panicked
numbered pk (some id) =
    notified (record { id = id; generate_missing = false; row_id = some pk; filter = false })

-- The first two parts; more of them are ignored.
abbrev pub received_parts : (List ℕ → Option ℕ) → List (List ℕ) → Received
received_parts from_str_radix [] = invalid
received_parts from_str_radix (part ∷ []) = invalid
received_parts from_str_radix (pk ∷ id ∷ rest) = numbered pk (from_str_radix id)

unfoldable pub on_notification : (List ℕ → Option ℕ) → List ℕ → Received
on_notification from_str_radix payload =
    let parts = split 58 [] payload in received_parts from_str_radix (parts.0 ++ parts.1 ∷ [])

-- `NEW.pk::TEXT || ':' || 'job_id'`
abbrev pub payload_of : (ℕ → List ℕ) → List ℕ → ℕ → List ℕ
payload_of show pk job_id = pk ++ 58 ∷ show job_id

-- A notification of the trigger is read back: the row of the key, for the job, when the key has
-- no colon, and a number's text has none and is read as the number.
pub on_notification-payload_of :
    (show : ℕ → List ℕ) (from_str_radix : List ℕ → Option ℕ)
    → ((n : ℕ) → from_str_radix (show n) ≡ some n)
    → ((n : ℕ) → All (λ c. c ≢ 58) (show n))
    → (pk : List ℕ) (job_id : ℕ) → All (λ c. c ≢ 58) pk
    → on_notification from_str_radix (payload_of show pk job_id)
      ≡ notified
          (record { id = job_id; generate_missing = false; row_id = some pk; filter = false })
unfolding on_notification
on_notification-payload_of show from_str_radix reads plain pk job_id h =
    rw
      (
        split-part 58 [] pk (show job_id) h,
        split-last 58 [] (show job_id) (plain job_id),
        reads job_id,
      )
      refl
