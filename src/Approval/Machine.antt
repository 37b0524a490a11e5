-- ===== src/Approval/Machine.antt =====
-- The approval store as a machine: every statement and transaction that the broker runs, one after the
-- other, in any order and for any callers, with what the tokens were accepted for.
pub mod Sound
pub mod Tokens
pub mod Requests
pub mod Once
pub mod Verify
use or3_intern.Base.{
  ℕ, ◌<◌, ◌≡◌, String, Bool, true, false, Option, none, some, ◌⊎◌, inl, inr, List, [], ◌∷◌,
  if◌then◌else◌,
}
use or3_intern.Approval.Types.{
  Codec, Broker, Scope, Matcher, Moderator, Request, Status, Store, empty_store, denied, canceled,
}
use or3_intern.Approval.Store.{
  is_pending, create_or_get_pending, resolve_request, expire_requests, update_moderator,
  consume_token,
}
use or3_intern.Approval.Allowlist.{add_allowlist, remove_allowlist}
use or3_intern.Approval.Requests.{approve_request}

-- the tokens accepted so far, the last one first
unfoldable pub log_of : ℕ → Store × Bool → List ℕ → List ℕ
log_of id r log = if r.1 then id ∷ log else log

-- What has been accepted and the store that is left. Reads change nothing, so a read of a row and the
-- statement that follows it may have any steps of others between them.
pub data Run (c : Codec) : List ℕ → Store → Type 0 where
  start : Run c [] empty_store
  request :
      {log : List ℕ} {s : Store}
      → Run c log s
      → (input : Request) (now : ℕ) → is_pending input.status ≡ true
      → Run c log (create_or_get_pending input now s).0
  approve :
      {log : List ℕ} {s : Store}
      → Run c log s
      → (b : Broker) (now later id : ℕ) (actor : String) (always_allow : Bool) (note : String)
      → Run c log (approve_request c b now later id actor always_allow note s).0
  deny :
      {log : List ℕ} {s : Store}
      → Run c log s
      → (id now : ℕ) (actor kind note : String)
      → Run c log (resolve_request id denied now actor kind note s).0
  cancel :
      {log : List ℕ} {s : Store}
      → Run c log s
      → (id now : ℕ) (actor kind note : String)
      → Run c log (resolve_request id canceled now actor kind note s).0
  expire :
      {log : List ℕ} {s : Store}
      → Run c log s
      → (now : ℕ) (actor note : String) → Run c log (expire_requests now actor note s).0
  moderate :
      {log : List ℕ} {s : Store}
      → Run c log s
      → (id : ℕ) (moderator : Moderator) (now : ℕ) → Run c log (update_moderator id moderator now s)
  consume :
      {log : List ℕ} {s : Store}
      → Run c log s
      → (id now : ℕ) → 0 < now
      → Run c (log_of id (consume_token id now s) log) (consume_token id now s).0
  allow :
      {log : List ℕ} {s : Store}
      → Run c log s
      → (now : ℕ) (domain : String) (scope : Scope) (matcher : Matcher) (actor : String)
        (expires_at : ℕ)
      → Run c log (add_allowlist c now domain scope matcher actor expires_at s).0
  disallow :
      {log : List ℕ} {s : Store}
      → Run c log s
      → (now id : ℕ) → Run c log (remove_allowlist now id s).0
