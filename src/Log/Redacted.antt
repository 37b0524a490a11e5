-- ===== src/Log/Redacted.antt =====
-- What internal/log/buffer.go keeps out of its buffer: the values under sensitive keys.
use mathlib.Core.Path.{subst}
use mathlib.Core.Option.{some-injective}
use or3_intern.Base.{
  ℕ, ◌≡◌, refl, sym, ap, ◌∙◌, inl, inr, Bool-cases, true, false, leb, arith, String, str_eq, eq_iff,
  some, List, [], ◌∷◌, length, drop, keep, All, Any, any, ◌||◌, All-keep, All-drop, All-append,
}
use or3_intern.Base.Int.{ℤ}
use or3_intern.Base.Text.{trim_space, to_lower, contains}
use or3_intern.Base.Assoc.{lookup, insert, lookup-insert}
use or3_intern.Log.Entries.{
  Entry, Fields, Filter, Patterns, normalize_entry, matches, is_sensitive_field_key, field_value,
  redact_from, redact_fields,
}
use or3_intern.Log.Buffer.{
  Buffer, new_buffer, store, append, snapshot, subscribe, unsubscribe, Op, appending, subscribing,
  unsubscribing, run,
}

-- Under a sensitive key stands no value.
Redacted : Fields → Type 0
Redacted fields =
    (k v : String) → is_sensitive_field_key k ≡ true → lookup k fields ≡ some v → v ≡ "[redacted]"

field_value-sensitive :
    (p : Patterns) (key value : String)
    → is_sensitive_field_key key ≡ true
    → field_value p key value ≡ "[redacted]"
unfolding field_value
field_value-sensitive p key value h = rw h refl

insert-Redacted :
    (p : Patterns) (key value : String) (fields : Fields)
    → Redacted fields
    → Redacted (insert key (field_value p key value) fields)
unfolding Redacted
insert-Redacted p key value fields h k v sensitive at = elim (Bool-cases (str_eq key k)) [
  | inl same ↦
      let found : some (field_value p key value) ≡ some v =
        rw (lookup-insert key k (field_value p key value) fields, same) at at in
      sym (some-injective (field_value p key value) v found)
      ∙ field_value-sensitive p key value
          (ap is_sensitive_field_key ((eq_iff key k).0 same) ∙ sensitive)
  | inr differs ↦
      h k v sensitive (rw (lookup-insert key k (field_value p key value) fields, differs) at at)
]

redact_from-Redacted :
    (p : Patterns) (fields out : Fields) → Redacted out → Redacted (redact_from p fields out)
unfolding redact_from
redact_from-Redacted p [] out h = h
redact_from-Redacted p ((key, value) ∷ fields) out h =
    redact_from-Redacted p fields _ (elim (Bool-cases (str_eq (trim_space key) "")) [
      | inl empty ↦ rw empty h
      | inr filled ↦ rw filled (insert-Redacted p (trim_space key) value out h)
    ])

normalize_entry-Redacted :
    (p : Patterns) (now : ℕ) (e : Entry) → Redacted (normalize_entry p now e).fields
unfolding normalize_entry redact_fields Redacted lookup
normalize_entry-Redacted p now e =
    redact_from-Redacted p e.fields [] (λ k v sensitive none_there. absurd (cc))

abbrev AllRedacted : List Entry → Type 0
AllRedacted = All (λ (e : Entry). Redacted e.fields)

store-Redacted :
    (max : ℕ) (e : Entry) (entries : List Entry)
    → Redacted e.fields
    → AllRedacted entries
    → AllRedacted (store max e entries)
unfolding store
store-Redacted max e entries new old = elim (Bool-cases (leb max (length entries))) [
  | inl full ↦ rw full (All-append _ (drop 1 entries) (e ∷ []) (All-drop _ 1 entries old) (new, tt))
  | inr free ↦ rw free (All-append _ entries (e ∷ []) old (new, tt))
]

run-Redacted :
    (p : Patterns) (ops : List Op) (b : Buffer)
    → AllRedacted b.entries
    → AllRedacted (run p ops b).entries
unfolding run append subscribe unsubscribe
run-Redacted p [] b h = h
run-Redacted p (appending now e ∷ ops) b h =
    run-Redacted p ops _ (store-Redacted b.max _ b.entries (normalize_entry-Redacted p now e) h)
run-Redacted p (subscribing size ∷ ops) b h = run-Redacted p ops _ h
run-Redacted p (unsubscribing i ∷ ops) b h = run-Redacted p ops _ h

All-Any : {A : Type 0} (P : A → Type 0) (a : A) (xs : List A) → All P xs → Any (λ b. a ≡ b) xs → P a
All-Any P a [] h k = absurd k
All-Any P a (x ∷ xs) h (inl e) = subst P (sym e) h.0
All-Any P a (x ∷ xs) h (inr k) = All-Any P a xs h.1 k

-- the words of the source's list, as the theorem names them
abbrev pub secret_words : List String
secret_words =
    "token" ∷ "secret" ∷ "password" ∷ "authorization" ∷ "api_key" ∷ "apikey" ∷ "api-key" ∷ []

-- no word is empty, and an empty text contains none
words_filled : All (λ w. contains "" w ≡ false) secret_words
unfolding contains
words_filled = (refl, (refl, (refl, (refl, (refl, (refl, (refl, tt)))))))

not_in_empty :
    (word : String) (words : List String)
    → All (λ w. contains "" w ≡ false) words
    → Any (λ (w : String). word ≡ w) words
    → contains "" word ≡ true
    → ⊥
not_in_empty word [] filled there has = there
not_in_empty word (w ∷ words) filled (inl e) has = cc (ap (contains "") e, filled.0, has)
not_in_empty word (w ∷ words) filled (inr there) has = not_in_empty word words filled.1 there has

any_word :
    (s word : String) (words : List String)
    → Any (λ (w : String). word ≡ w) words
    → contains s word ≡ true
    → any (λ w. str_eq s w || contains s w) words ≡ true
any_word s word [] there has = absurd there
any_word s word (w ∷ words) (inl e) has =
    let here : contains s w ≡ true = subst (λ x. contains s x ≡ true) e has in ground (arith, here)
any_word s word (w ∷ words) (inr there) has =
    let later = any_word s word words there has in ground (arith, later)

sensitive_of_word :
    (k word : String)
    → Any (λ (w : String). word ≡ w) secret_words
    → contains (to_lower (trim_space k)) word ≡ true
    → is_sensitive_field_key k ≡ true
unfolding is_sensitive_field_key
sensitive_of_word k word there has = elim (Bool-cases (str_eq (to_lower (trim_space k)) "")) [
  | inl empty ↦ absurd (
      not_in_empty word secret_words words_filled there
        (subst (λ s. contains s word ≡ true) ((eq_iff (to_lower (trim_space k)) "").0 empty) has))
  | inr filled ↦ rw filled (any_word (to_lower (trim_space k)) word secret_words there has)
]

-- Whatever entries, subscriptions and their ends come before, an entry of a snapshot has no value but
-- "[redacted]" under a key that contains, in lower case and without the blanks around it, one of the words
-- token, secret, password, authorization, api_key, apikey and api-key.
pub snapshot-redacted :
    (p : Patterns) (f : Filter) (max : ℤ) (ops : List Op) (e : Entry) (k v word : String)
    → Any (λ (stored : Entry). e ≡ stored) (snapshot p f (run p ops (new_buffer max)))
    → Any
        (λ (w : String). word ≡ w)
        ("token" ∷ "secret" ∷ "password" ∷ "authorization" ∷ "api_key" ∷ "apikey" ∷ "api-key" ∷ [])
    → contains (to_lower (trim_space k)) word ≡ true
    → lookup k e.fields ≡ some v
    → v ≡ "[redacted]"
unfolding Redacted snapshot new_buffer
snapshot-redacted p f max ops e k v word there secret has =
    let stored = (run p ops (new_buffer max)).entries in
    All-Any (λ (e : Entry). Redacted e.fields) e (keep (matches p f) stored)
      (All-keep _ (matches p f) stored (run-Redacted p ops (new_buffer max) tt)) there k v
      (sensitive_of_word k word secret has)
