-- ===== src/Approval/Machine/Tokens.antt =====
-- Consuming a token keeps the invariant of the approval store.
use mathlib.Core.Path.{subst}
use mathlib.Core.Option.{some-injective}
use or3_intern.Base.{
  ℕ, ◌<◌, ◌≡◌, sym, ap, ◌∙◌, ◌≢◌, ◌==◌, true, ◌&&◌, some, inl, inr, List, All, All-map, Distinct,
  arith, Bool-cases, if◌then◌else◌, ltb→lt,
}
use or3_intern.Base.Table.{
  find, update, ids-update, affected_positive, find-update, find-update_inv,
}
use or3_intern.Approval.Types.{Token, Store}
use or3_intern.Approval.Store.{consume_token, unused_token}
use or3_intern.Approval.Machine.{log_of}
use or3_intern.Approval.Machine.Sound.{Sound, Spent, Below-update}

Spent-consume :
    (id now : ℕ) (tokens : List (ℕ × Token)) (j : ℕ)
    → Spent tokens j
    → Spent (update (unused_token id) (λ t. record t { revoked_at = now }) tokens) j
unfolding unused_token
Spent-consume id now tokens j p = record {
  token = p.token;
  found =
      find-update (unused_token id) (λ t. record t { revoked_at = now }) j tokens p.token p.found
      ∙ ap some (still p.token p.revoked);
  revoked = p.revoked;
}
  where
    still :
        (t : Token)
        → 0 < t.revoked_at
        → (if j == id && t.revoked_at == 0 then record t { revoked_at = now } else t) ≡ t
    still t h = ground arith

-- The tokens' side of consuming one, whether or not it was unused.
consume-parts :
    (id now : ℕ) {log : List ℕ} {s : Store} → Sound log s → Sound log (consume_token id now s).0
unfolding consume_token unused_token
consume-parts id now {s = s} h =
    let f : Token → Token = λ t. record t { revoked_at = now } in
    record {
      requests_below = h.requests_below;
      tokens_below = Below-update (unused_token id) f s.next_token s.tokens h.tokens_below;
      token_ids = subst Distinct (sym (ids-update (unused_token id) f s.tokens)) h.token_ids;
      token_ids_below =
          subst (All (λ j. j < s.next_token)) (sym (ids-update (unused_token id) f s.tokens))
            h.token_ids_below;
      backed = λ j w e.
          let (t, found, is) = find-update_inv (unused_token id) f j s.tokens w e in
          let b = h.backed j t found in
          record {
            request = b.request;
            found = ap (λ i. find i s.requests) (request_of j t w is) ∙ b.found;
            is_approved = b.is_approved;
            same_hash = b.same_hash ∙ hash_of j t w is;
          };
      spent = All-map (Spent s.tokens) (Spent-consume id now s.tokens) _ h.spent;
      distinct = h.distinct;
    }
  where
    request_of :
        (j : ℕ) (t w : Token)
        → w ≡ (if j == id && t.revoked_at == 0 then record t { revoked_at = now } else t)
        → w.approval_request_id ≡ t.approval_request_id
    request_of j t w is = elim (Bool-cases (j == id && t.revoked_at == 0)) [
      | inl unused ↦ ap (λ (u : Token). u.approval_request_id) (rw unused at is)
      | inr used ↦ ap (λ (u : Token). u.approval_request_id) (rw used at is)
    ]

    hash_of :
        (j : ℕ) (t w : Token)
        → w ≡ (if j == id && t.revoked_at == 0 then record t { revoked_at = now } else t)
        → t.subject_hash ≡ w.subject_hash
    hash_of j t w is = elim (Bool-cases (j == id && t.revoked_at == 0)) [
      | inl unused ↦ sym (ap (λ (u : Token). u.subject_hash) (rw unused at is))
      | inr used ↦ sym (ap (λ (u : Token). u.subject_hash) (rw used at is))
    ]

-- a token that was consumed just now has not been before
consumed-Spent :
    (id now : ℕ) {log : List ℕ} {s : Store}
    → 0 < now
    → Sound log s
    → (consume_token id now s).1 ≡ true
    → Spent (consume_token id now s).0.tokens id × All (λ j. id ≢ j) log
unfolding consume_token unused_token
consumed-Spent id now {s = s} positive h e =
    let f : Token → Token = λ t. record t { revoked_at = now } in
    let (t, found, unused) =
      affected_positive (λ (t : Token). t.revoked_at == 0) id s.tokens h.token_ids (ltb→lt _ _ e) in
    (
      record {
        token = if id == id && t.revoked_at == 0 then f t else t;
        found = find-update (unused_token id) f id s.tokens t found;
        revoked = ground arith;
      },
      All-map (Spent s.tokens)
          (λ j p same.
            other t p.token p.revoked unused (sym found ∙ ap (λ i. find i s.tokens) same ∙ p.found))
          _ h.spent,
    )
  where
    other : (t u : Token) → 0 < u.revoked_at → (t.revoked_at == 0) ≡ true → some t ≢ some u
    other t u spent unused same =
        let e = ap (λ (t : Token). t.revoked_at) (some-injective t u same) in ground (arith, e)

pub consume-Sound :
    (id now : ℕ) {log : List ℕ} {s : Store}
    → 0 < now
    → Sound log s
    → Sound (log_of id (consume_token id now s) log) (consume_token id now s).0
unfolding log_of
consume-Sound id now {log} {s = s} positive h =
    let h' = consume-parts id now h in
    elim (Bool-cases (consume_token id now s).1) [
      | inl consumed ↦
          let (spent, fresh) = consumed-Spent id now positive h consumed in
          rw consumed (record {
            requests_below = h'.requests_below;
            tokens_below = h'.tokens_below;
            token_ids = h'.token_ids;
            token_ids_below = h'.token_ids_below;
            backed = h'.backed;
            spent = (spent, h'.spent);
            distinct = (fresh, h'.distinct);
          })
      | inr kept ↦ rw kept h'
    ]
