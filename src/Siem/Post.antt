-- ===== src/Siem/Post.antt =====
-- post and postWithRetry of sdk/security/boundary-siem.ts. What `fetch` gives is a parameter, a
-- function of the number of the attempt.
pub mod Attempts
use ilr_module.Prelude.{
  ℕ, zero, suc, ◌+◌, ◌*◌, ◌^◌, ◌<◌, ◌≤◌, ◌≡◌, refl, List, [], ◌∷◌, Bool, true, false, Bool-cases,
  inl, inr, ltb, if◌then◌else◌, Option, none, some, length, arith,
}
use ilr_module.Prelude.Text.{Text}

-- The fields of the answer that post reads.
pub record Body : Type 0 where
  pub event_id : Option Text
  pub id : Option Text
  pub message : Option Text
  pub timestamp : Option Text

-- What one `fetch` comes to: it rejects, by the timeout too, or it answers with a status, and with a
-- body, unless that is no JSON.
pub data Fetched : Type 0 where
  rejects : Text → Fetched
  answers : (good : Bool) (status : ℕ) (body : Option Body) → Fetched

pub record SiemResponse : Type 0 where
  pub success : Bool
  pub event_id : Option Text
  pub message : Option Text
  pub timestamp : Option Text

pub data PostError : Type 0 where
  fetch_error : Text → PostError
  api_error : ℕ → PostError
  json_error : PostError

pub data Posted : Type 0 where
  response : SiemResponse → Posted
  throws : PostError → Posted

-- `data.eventId || data.id`
unfoldable pub id_or : Option Text → Option Text → Option Text
id_or none d = d
id_or (some []) d = d
id_or (some (c ∷ t)) d = some (c ∷ t)

unfoldable pub read_body : Option Body → Posted
unfolding id_or
read_body none = throws json_error
read_body (some body) = response (record {
  success = true;
  event_id = id_or body.event_id body.id;
  message = body.message;
  timestamp = body.timestamp;
})

unfoldable pub post : Fetched → Posted
unfolding read_body
post (rejects e) = throws (fetch_error e)
post (answers good status body) = if good then read_body body else throws (api_error status)

-- The result of postWithRetry, with the delays that it waited for.
pub record Run : Type 0 where
  pub result : Posted
  pub delays : List ℕ

unfoldable pub waited : ℕ → Run → Run
waited delay run = record run { delays = delay ∷ run.delays }

-- After a failure: the last attempt throws, any other waits.
unfoldable pub retry_or_throw : Bool → PostError → ℕ → Run → Run
unfolding waited
retry_or_throw true e delay run = waited delay run
retry_or_throw false e delay run = record { result = throws e; delays = [] }

unfoldable pub after_attempt : Posted → Bool → ℕ → Run → Run
unfolding retry_or_throw
after_attempt (response r) again delay run = record { result = response r; delays = [] }
after_attempt (throws e) again delay run = retry_or_throw again e delay run

-- The loop from `attempt` on; `left` is what is left of `maxRetries` attempts and one.
unfoldable pub post_loop : (ℕ → Fetched) → ℕ → ℕ → ℕ → ℕ → Run
unfolding after_attempt post
post_loop server max_retries retry_delay zero attempt = record {
  result = throws json_error;
  delays = [];
}
post_loop server max_retries retry_delay (suc left) attempt =
    after_attempt (post (server attempt)) (ltb attempt max_retries) (retry_delay * 2 ^ attempt)
      (post_loop server max_retries retry_delay left (attempt + 1))

unfoldable pub post_with_retry : ℕ → ℕ → (ℕ → Fetched) → Run
unfolding post_loop
post_with_retry max_retries retry_delay server =
    post_loop server max_retries retry_delay (max_retries + 1) 0
