-- ===== src/Jobs/Upkeep.antt =====
-- Registering, cleaning up, attaching and reopening keep the registry valid.
use or3_intern.Base.{
  ℕ, zero, suc, ◌≡◌, refl, inl, inr, String, str_eq, true, some, List, [], ◌∷◌, length, All, leb,
  arith, Bool-cases, Option-cases,
}
use or3_intern.Base.Assoc.{
  lookup, insert, delete, Values, Values-lookup, Values-insert, Values-delete,
}
use or3_intern.Jobs.Registry.{
  Entry, Registry, is_stale, drop_stale, find_oldest, evict, cleanup, register_with_id,
  attach_cancel, reopen, with_entry,
}
use or3_intern.Jobs.Invariant.{IsValid}

pub record RegistryIsValid (r : Registry) : Type 0 where
  pub entries : Values (IsValid r.max_events) r.jobs
  pub shut : All (λ ch. ch.closed ≡ true) r.released

drop_stale-Values :
    (P : Entry → Type 0) (now retention : ℕ) (m : List (String × Entry))
    → Values P m
    → Values P (drop_stale now retention m)
unfolding drop_stale
drop_stale-Values P now retention [] h = tt
drop_stale-Values P now retention ((id, e) ∷ m) h = elim (Bool-cases (is_stale now retention e)) [
  | inl stale ↦ rw stale (drop_stale-Values P now retention m h.1)
  | inr fresh ↦ rw fresh (h.0, drop_stale-Values P now retention m h.1)
]

pub evict-Values :
    (P : Entry → Type 0) (fuel max : ℕ) (m : List (String × Entry))
    → Values P m
    → Values P (evict fuel max m)
unfolding evict
evict-Values P zero max m h = h
evict-Values P (suc fuel) max m h =
    let id = (find_oldest ("", 0) m).0 in
    elim (Bool-cases (leb (length m) max)) [
      | inl fits ↦ rw fits h
      | inr over ↦ elim (Bool-cases (str_eq id "")) [
        | inl nobody ↦ rw (over, nobody) h
        | inr found ↦
            rw (over, found) (evict-Values P fuel max (delete id m) (Values-delete P id m h))
      ]
    ]

pub cleanup-RegistryIsValid :
    (now : ℕ) (r : Registry) → RegistryIsValid r → RegistryIsValid (cleanup now r)
unfolding cleanup
cleanup-RegistryIsValid now r v = record {
  entries =
      evict-Values (IsValid r.max_events) _ r.max_tracked _
        (drop_stale-Values (IsValid r.max_events) now r.retention r.jobs v.entries);
  shut = v.shut;
}

pub register_with_id-RegistryIsValid :
    (now : ℕ) (id kind : String) (r : Registry)
    → RegistryIsValid r
    → RegistryIsValid (register_with_id now id kind r).0
unfolding register_with_id
register_with_id-RegistryIsValid now id kind r v =
    let v' = cleanup-RegistryIsValid now r v in
    record {
      entries =
          Values-insert (IsValid (cleanup now r).max_events) id _ (cleanup now r).jobs
            (record {
              numbered = tt;
              bounded = λ h. omega arith;
              kept = ground arith;
              done_when_terminal = refl;
              alone_when_terminal = λ h. refl;
              channels_open = tt;
              subs_numbered = tt;
            })
            v'.entries;
      shut = v'.shut;
    }

-- an entry replaced by a valid one
pub replace-RegistryIsValid :
    (id : String) (e : Entry) (r : Registry)
    → IsValid r.max_events e
    → RegistryIsValid r
    → RegistryIsValid (record r { jobs = insert id e r.jobs })
replace-RegistryIsValid id e r fits v = record {
  entries = Values-insert (IsValid r.max_events) id e r.jobs fits v.entries;
  shut = v.shut;
}

pub entry-IsValid :
    {r : Registry} (id : String) (e : Entry)
    → RegistryIsValid r
    → lookup id r.jobs ≡ some e
    → IsValid r.max_events e
entry-IsValid {r} id e v found = Values-lookup (IsValid r.max_events) id r.jobs v.entries found

with_entry-RegistryIsValid :
    (f : Entry → Entry) (id : String) (r : Registry)
    → ((e : Entry) → IsValid r.max_events e → IsValid r.max_events (f e))
    → RegistryIsValid r
    → RegistryIsValid (with_entry f id r).0
unfolding with_entry
with_entry-RegistryIsValid f id r keeps v = elim (Option-cases (lookup id r.jobs)) [
  | inl missing ↦ rw (with_entry, missing) v
  | inr (e, found) ↦
      rw (with_entry, found)
        (replace-RegistryIsValid id (f e) r (keeps e (entry-IsValid id e v found)) v)
]

pub attach_cancel-RegistryIsValid :
    (now : ℕ) (id : String) (cancel : ℕ) (r : Registry)
    → RegistryIsValid r
    → RegistryIsValid (attach_cancel now id cancel r).0
unfolding attach_cancel
attach_cancel-RegistryIsValid now id cancel r v =
    with_entry-RegistryIsValid _ id r
      (λ e h. record {
        numbered = h.numbered;
        bounded = h.bounded;
        kept = h.kept;
        done_when_terminal = h.done_when_terminal;
        alone_when_terminal = h.alone_when_terminal;
        channels_open = h.channels_open;
        subs_numbered = h.subs_numbered;
      })
      v

pub reopen-RegistryIsValid :
    (now : ℕ) (id : String) (r : Registry) → RegistryIsValid r → RegistryIsValid (reopen now id r).0
unfolding reopen
reopen-RegistryIsValid now id r v =
    with_entry-RegistryIsValid _ id r
      (λ e h. record {
        numbered = h.numbered;
        bounded = h.bounded;
        kept = h.kept;
        done_when_terminal = refl;
        alone_when_terminal = λ t. cc;
        channels_open = h.channels_open;
        subs_numbered = h.subs_numbered;
      })
      v
