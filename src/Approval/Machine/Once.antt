-- ===== src/Approval/Machine/Once.antt =====
-- What holds of every token that is accepted, whatever the callers do and in whatever order.
use or3_intern.Base.{ℕ, List, Distinct}
use or3_intern.Base.Table.{find}
use or3_intern.Approval.Types.{Codec, Store, denied, canceled}
use or3_intern.Approval.Machine.{
  Run, start, request, approve, deny, cancel, expire, moderate, consume, allow, disallow,
}
use or3_intern.Approval.Machine.Sound.{Sound}
use or3_intern.Approval.Machine.Tokens.{consume-Sound}
use or3_intern.Approval.Machine.Requests.{
  create_or_get_pending-Sound, resolve_request-Sound, expire_requests-Sound, update_moderator-Sound,
  add_allowlist-Sound, remove_allowlist-Sound, approve_request-Sound,
}

pub Run-Sound : {c : Codec} {log : List ℕ} {s : Store} → Run c log s → Sound log s
unfolding find
Run-Sound start = record {
  requests_below = λ j v e. absurd (cc);
  tokens_below = λ j v e. absurd (cc);
  token_ids = tt;
  token_ids_below = tt;
  backed = λ j t e. absurd (cc);
  spent = tt;
  distinct = tt;
}
Run-Sound (request run input now p) = create_or_get_pending-Sound input now (Run-Sound run)
Run-Sound {c} (approve run b now later id actor always_allow note) =
    approve_request-Sound c b now later id actor always_allow note (Run-Sound run)
Run-Sound (deny run id now actor kind note) =
    resolve_request-Sound id denied now actor kind note (Run-Sound run)
Run-Sound (cancel run id now actor kind note) =
    resolve_request-Sound id canceled now actor kind note (Run-Sound run)
Run-Sound (expire run now actor note) = expire_requests-Sound now actor note (Run-Sound run)
Run-Sound (moderate run id moderator now) = update_moderator-Sound id moderator now (Run-Sound run)
Run-Sound (consume run id now positive) = consume-Sound id now positive (Run-Sound run)
Run-Sound {c} (allow run now domain scope matcher actor expires_at) =
    add_allowlist-Sound c now domain scope matcher actor expires_at (Run-Sound run)
Run-Sound (disallow run now id) = remove_allowlist-Sound now id (Run-Sound run)

-- No approval token is accepted twice: in every run of the store's statements, by any callers and in
-- any order, from the empty store and at times after 1970, the tokens consumed are distinct.
pub Run-Distinct : {c : Codec} {log : List ℕ} {s : Store} → Run c log s → Distinct log
Run-Distinct run = (Run-Sound run).distinct
