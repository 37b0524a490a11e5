-- ===== src/Log/Entries.antt =====
-- internal/log/buffer.go and level.go: entries, levels, filters, and what is done to an entry before it is
-- stored. A level is its text.
use Prim.Native.Char.{code}
use Prim.Native.String.{String, ◌++◌ as append}
use text.Mathlib.Text.{starts_with}
use or3_intern.Base.{
  ℕ, zero, suc, Bool, true, false, ◌&&◌, ◌||◌, not, ◌==◌, ltb, leb, Option, none, some, List, [],
  ◌∷◌, any, str_eq, if◌then◌else◌, ◌>>=◌,
}
use or3_intern.Base.Text.{trim_space, to_lower, contains, byte_length}
use or3_intern.Base.Assoc.{insert}

-- `map[string]string`, nil where it is empty
abbrev pub Fields : Type 0
Fields = List (String × String)

-- `Entry`. `id` is the number in "log_%d"; a timestamp of 0 is the zero time.
pub record Entry : Type 0 where
  pub id : ℕ
  pub timestamp : ℕ
  pub level : String
  pub component : String
  pub message : String
  pub trace_id : String
  pub session : String
  pub fields : Fields

pub record Filter : Type 0 where
  pub min_level : String
  pub component : String
  pub trace_id : String
  pub session : String

-- The regular expressions of the package, run by Go's `regexp`, and `strings.EqualFold`: whether a text
-- matches componentNamePattern, the two groups of each match of keyValuePattern, and
-- ReplaceAllStringFunc for each of the redactionPatterns.
pub record Patterns : Type 0 where
  pub is_component_name : String → Bool
  pub key_values : String → List (String × String)
  pub replace_bearer : (String → String) → String → String
  pub replace_assignments : (String → String) → String → String
  pub replace_quoted : (String → String) → String → String
  pub equal_fold : String → String → Bool

-- `ParseLevel`
unfoldable pub parse_level : String → String × Bool
parse_level value =
    let v = to_lower (trim_space value) in
    if str_eq v "debug"
    then ("debug", true)
    else if str_eq v "" || str_eq v "info"
    then ("info", true)
    else if str_eq v "warn" || str_eq v "warning"
    then ("warn", true)
    else if str_eq v "error"
    then ("error", true)
    else ("info", false)

unfoldable pub level_rank : String → ℕ
level_rank level =
    if str_eq level "debug"
    then 10
    else if str_eq level "info"
    then 20
    else if str_eq level "warn"
    then 30
    else if str_eq level "error"
    then 40
    else 20

-- A filter's text, where it has one, is tested.
wanted : String → Bool → Bool
wanted text test = str_eq text "" || test

-- `Filter.Matches`
unfoldable pub matches : Patterns → Filter → Entry → Bool
unfolding level_rank wanted
matches p f e =
    let min_level = if str_eq f.min_level "" then "info" else f.min_level in
    not (ltb (level_rank e.level) (level_rank min_level))
    && wanted f.component (p.equal_fold e.component f.component)
    && wanted f.trace_id (str_eq e.trace_id f.trace_id)
    && wanted f.session (str_eq e.session f.session)

-- the text before the first character with this code, and the text after it
unfoldable pub cut_at : ℕ → String → Option (String × String)
cut_at at String.[] = none
cut_at at (String.◌∷◌ c s) =
    let rest = cut_at at s in
    if code c == at then some ("", s) else do (a, b) ← rest; some (String.◌∷◌ c a, b)

-- strings.ReplaceAll(s, " ", "_")
underscored : String → String
underscored String.[] = ""
underscored (String.◌∷◌ c s) =
    let rest = underscored s in if code c == 32 then append "_" rest else String.◌∷◌ c rest

-- the candidate before a colon that stands at most 48 bytes into the message
component_before : Patterns → String → String
unfolding underscored
component_before p before =
    let candidate = trim_space before in
    if not (str_eq before "") && leb (byte_length before) 48 && p.is_component_name candidate
    then underscored candidate
    else "service"

-- `inferComponent`
unfoldable pub infer_component : Patterns → String → String
unfolding cut_at component_before
infer_component p message =
    let text = trim_space message in
    if str_eq text "" then "service" else elim (cut_at 58 text) [
      | none ↦ "service"
      | some (before, after) ↦ component_before p before
    ]

is_quote : ℕ → Bool
is_quote c = c == 34 || c == 39

unquote_left : String → String
unfolding is_quote
unquote_left String.[] = String.[]
unquote_left (String.◌∷◌ c s) =
    let rest = unquote_left s in if is_quote (code c) then rest else String.◌∷◌ c s

unquote_right : String → String
unfolding is_quote
unquote_right String.[] = String.[]
unquote_right (String.◌∷◌ c s) =
    let rest = unquote_right s in
    if is_quote (code c) && str_eq rest "" then "" else String.◌∷◌ c rest

-- the first of the matches under the key
first_value : Patterns → String → List (String × String) → String
unfolding unquote_left unquote_right
first_value p key [] = ""
first_value p key ((k, v) ∷ found) =
    let rest = first_value p key found in
    let value = unquote_right (unquote_left v) in
    if p.equal_fold k key then if str_eq value "<nil>" then "" else value else rest

-- `extractKeyValue`
unfoldable pub extract_key_value : Patterns → String → String → String
unfolding first_value
extract_key_value p message key = first_value p key (p.key_values message)

-- what is put in place of a match
unfoldable pub redaction : String → String
unfolding cut_at
redaction found =
    if starts_with (to_lower found) "bearer " then "Bearer [redacted]" else elim (cut_at 61 found) [
      | some (key, value) ↦ append key "=[redacted]"
      | none ↦ elim (cut_at 58 found) [
        | some (before, after) ↦
            if str_eq before "" then "[redacted]" else append before ": \"[redacted]\""
        | none ↦ "[redacted]"
      ]
    ]

-- `redact`
unfoldable pub redact : Patterns → String → String
redact p message =
    p.replace_quoted redaction
      (p.replace_assignments redaction (p.replace_bearer redaction message))

abbrev pub sensitive_words : List String
sensitive_words =
    "token" ∷ "secret" ∷ "password" ∷ "authorization" ∷ "api_key" ∷ "apikey" ∷ "api-key" ∷ []

-- `isSensitiveFieldKey`
unfoldable pub is_sensitive_field_key : String → Bool
is_sensitive_field_key key =
    let k = to_lower (trim_space key) in
    not (str_eq k "") && any (λ word. str_eq k word || contains k word) sensitive_words

-- the value that is stored under a key
unfoldable pub field_value : Patterns → String → String → String
field_value p key value =
    if is_sensitive_field_key key then "[redacted]" else redact p (trim_space value)

-- The loop of `redactFields`. Where two keys differ by their blanks alone, Go's order of iteration
-- leaves open whose value stays.
unfoldable pub redact_from : Patterns → Fields → Fields → Fields
redact_from p [] out = out
redact_from p ((key, value) ∷ fields) out =
    let k = trim_space key in
    redact_from p fields (if str_eq k "" then out else insert k (field_value p k value) out)

-- `redactFields`
unfoldable pub redact_fields : Patterns → Fields → Fields
redact_fields p fields = redact_from p fields []

rune_count : String → ℕ
rune_count String.[] = 0
rune_count (String.◌∷◌ c s) = suc (rune_count s)

take_runes : ℕ → String → String
take_runes zero s = ""
take_runes (suc n) String.[] = ""
take_runes (suc n) (String.◌∷◌ c s) = String.◌∷◌ c (take_runes n s)

unfoldable pub shortened : String → String
unfolding rune_count take_runes
shortened message =
    if ltb 2000 (rune_count message) then append (take_runes 2000 message) "..." else message

-- the given text, or else another
abbrev or_else : String → String → String
or_else text other = if str_eq text "" then other else text

-- `normalizeEntry`; `now` is time.Now
unfoldable pub normalize_entry : Patterns → ℕ → Entry → Entry
normalize_entry p now e =
    let message = redact p (trim_space e.message) in
    let found = extract_key_value p message in
    record {
      id = e.id;
      timestamp = if e.timestamp == 0 then now else e.timestamp;
      level = or_else e.level "info";
      component = or_else (trim_space e.component) (infer_component p message);
      message = shortened message;
      trace_id = or_else (or_else (trim_space e.trace_id) (found "trace")) (found "trace_id");
      session = or_else (trim_space e.session) (found "session");
      fields = redact_fields p e.fields;
    }
