-- ===== src/Examples/Log.antt =====
-- The log buffer at concrete inputs.
use or3_intern.Base.{◌≡◌, refl, true, inl, inr, String, str_eq, some, List, [], ◌∷◌, keep}
use or3_intern.Base.Int.{pos}
use or3_intern.Base.Assoc.{lookup, insert}
use or3_intern.Base.Text.{trim_space, to_lower, contains, byte_length}
use or3_intern.Log.Entries.{
  Entry, Filter, Patterns, matches, normalize_entry, extract_key_value, infer_component, redact,
  redact_fields, redact_from, redaction, field_value, is_sensitive_field_key, shortened,
  parse_level, level_rank, cut_at,
}
use or3_intern.Log.Buffer.{
  new_buffer, size_or, default_buffer_size, run, append, store, offer, snapshot, subscribe, Op,
  appending, subscribing,
}
use or3_intern.Log.Refine.{newest, entries_from, snapshot-run}
use or3_intern.Log.Redacted.{snapshot-redacted}

abbrev patterns : Patterns
patterns = record {
  is_component_name = λ s. str_eq s "cron job";
  key_values = λ s. ("trace", "'t1'") ∷ [];
  replace_bearer = λ f s. s;
  replace_assignments = λ f s. f s;
  replace_quoted = λ f s. s;
  equal_fold = str_eq;
}

abbrev entry : String → Entry
entry level = record {
  id = 0;
  timestamp = 0;
  level = level;
  component = "";
  message = " cron job: token=abc ";
  trace_id = "";
  session = "s";
  fields = (" DB_Password ", "abc") ∷ [];
}

abbrev filter : Filter
filter = record { min_level = "warn"; component = ""; trace_id = "t1"; session = "" }

abbrev ops : List Op
ops =
    subscribing (pos 0)
    ∷ appending 5 (entry "error")
    ∷ appending 6 (entry "")
    ∷ appending 7 (entry "warn")
    ∷ []

abbrev stored : Entry
stored = record {
  id = 3;
  timestamp = 7;
  level = "warn";
  component = "cron_job";
  message = "cron job: token=[redacted]";
  trace_id = "t1";
  session = "s";
  fields = ("DB_Password", "[redacted]") ∷ [];
}

redact_test : redaction "password: \"x\"" ≡ "password: \"[redacted]\""
unfolding redaction to_lower
redact_test = refl

parse_level_test : parse_level " Warning " ≡ ("warn", true)
unfolding parse_level to_lower trim_space
parse_level_test = refl

snapshot_test : snapshot patterns filter (run patterns ops (new_buffer (pos 2))) ≡ stored ∷ []
unfolding snapshot run append store subscribe new_buffer size_or matches normalize_entry trim_space
    extract_key_value infer_component shortened redact_fields redact redact_from redaction insert
    to_lower field_value byte_length is_sensitive_field_key contains offer cut_at level_rank
snapshot_test = refl

snapshot-run_example :
    snapshot patterns filter (run patterns ops (new_buffer (pos 2)))
    ≡ keep
        (matches patterns filter)
        (newest (size_or default_buffer_size (pos 2)) (entries_from patterns 0 ops))
snapshot-run_example = snapshot-run patterns filter (pos 2) ops

names_password : contains (to_lower (trim_space "DB_Password")) "password" ≡ true
unfolding trim_space to_lower contains
names_password = refl

lookup_test : lookup "DB_Password" stored.fields ≡ some "[redacted]"
unfolding lookup
lookup_test = refl

snapshot-redacted_example : ◌≡◌ {A = String} "[redacted]" "[redacted]"
snapshot-redacted_example =
    snapshot-redacted patterns filter (pos 2) ops stored "DB_Password" "[redacted]" "password"
      (rw snapshot_test (inl refl)) (inr (inr (inl refl))) names_password lookup_test
