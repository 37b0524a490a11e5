-- ===== src/Jobs/Traffic.antt =====
-- Publishing, finishing, subscribing and unsubscribing keep the registry valid.
use or3_intern.Base.{
  ℕ, ◌≤◌, ◌≡◌, refl, ◌∙◌, inl, inr, String, true, false, not, ◌==◌, Option, some, List, [], ◌∷◌,
  ◌++◌, All, All-keep, All-map, All-append, arith, Bool-cases, Option-cases,
}
use or3_intern.Base.Assoc.{lookup, insert, Values-insert}
use or3_intern.Jobs.Events.{EventData, Channel}
use or3_intern.Jobs.Registry.{Entry, Registry}
use or3_intern.Jobs.Publish.{publish, mark_terminal, subscribe, unsubscribe, find_sub}
use or3_intern.Jobs.Equations.{
  publish_missing, publish_over, publish_live, mark_terminal_missing, mark_terminal_over,
  mark_terminal_live, finished, joined, left, subscribe_missing, subscribe_over, subscribe_live,
  unsubscribe_missing, unsubscribe_gone, unsubscribe_found,
}
use or3_intern.Jobs.Invariant.{IsValid, IsOpen, publish_entry-IsValid, close_all_open}
use or3_intern.Jobs.Upkeep.{RegistryIsValid, replace-RegistryIsValid, entry-IsValid}

module _ (json : EventData → Option EventData) where
  pub publish-RegistryIsValid :
      (now : ℕ) (id kind : String) (payload : EventData) (r : Registry)
      → RegistryIsValid r
      → RegistryIsValid (publish json now id kind payload r).0
  unfolding publish
  publish-RegistryIsValid now id kind payload r v = elim (Option-cases (lookup id r.jobs)) [
    | inl missing ↦ rw (publish_missing json now id r kind payload missing) v
    | inr (e, found) ↦ elim (Bool-cases e.terminal) [
      | inl over ↦ rw (publish_over json now id r kind payload e found over) v
      | inr live ↦ rw (publish_live json now id r kind payload e found live) (
          replace-RegistryIsValid id _ r
            (publish_entry-IsValid json now r.max_events id kind payload e live
              (entry-IsValid id e v found))
            v)
    ]
  ]

  finished-IsValid :
      (now max : ℕ) (status : String) (id : String) (r : Registry) (e : Entry)
      → IsValid max e
      → IsValid max (finished json now id r status e)
  finished-IsValid now max status id r e v = record {
    numbered = v.numbered;
    bounded = v.bounded;
    kept = v.kept;
    done_when_terminal = refl;
    alone_when_terminal = λ h. refl;
    channels_open = tt;
    subs_numbered = tt;
  }

  -- Finishing a job never closes a closed channel.
  pub mark_terminal-RegistryIsValid :
      (now : ℕ) (id status : String) (r : Registry)
      → RegistryIsValid r
      → (r' : Registry) × (mark_terminal json now id status r ≡ some r') × RegistryIsValid r'
  mark_terminal-RegistryIsValid now id status r v = elim (Option-cases (lookup id r.jobs)) [
    | inl missing ↦ (r, mark_terminal_missing json now id r status missing, v)
    | inr (e, found) ↦ elim (Bool-cases e.terminal) [
      | inl over ↦ (r, mark_terminal_over json now id r status e found over, v)
      | inr live ↦
          let fits = entry-IsValid id e v found in
          let (shut, closed, all_shut) = close_all_open e.subscribers fits.channels_open in
          (
            record r {
              jobs = insert id (finished json now id r status e) r.jobs;
              released = r.released ++ shut;
            },
            mark_terminal_live json now id r status e shut found live
                (fits.done_when_terminal ∙ live) closed,
            record {
              entries =
                  Values-insert (IsValid r.max_events) id _ r.jobs
                    (finished-IsValid now r.max_events status id r e fits) v.entries;
              shut = All-append (λ ch. ch.closed ≡ true) r.released shut v.shut all_shut;
            },
          )
    ]
  ]

  joined-IsValid :
      (max : ℕ) (e : Entry) → e.terminal ≡ false → IsValid max e → IsValid max (joined e)
  joined-IsValid max e live v = record {
    numbered = v.numbered;
    bounded = v.bounded;
    kept = v.kept;
    done_when_terminal = v.done_when_terminal;
    alone_when_terminal = λ h. cc;
    channels_open = (refl, v.channels_open);
    subs_numbered = (
      omega arith,
      All-map (λ s. s.0 ≤ e.next_sub_id) (λ s h. omega arith) e.subscribers v.subs_numbered,
    );
  }

  pub subscribe-RegistryIsValid :
      (id : String) (r : Registry) → RegistryIsValid r → RegistryIsValid (subscribe json id r).0
  subscribe-RegistryIsValid id r v = elim (Option-cases (lookup id r.jobs)) [
    | inl missing ↦ rw (subscribe_missing json id r missing) v
    | inr (e, found) ↦ elim (Bool-cases e.terminal) [
      | inl over ↦ rw (subscribe_over json id r e found over) v
      | inr live ↦ rw (subscribe_live json id r e found live) (
          replace-RegistryIsValid id _ r
            (joined-IsValid r.max_events e live (entry-IsValid id e v found)) v)
    ]
  ]

find_sub_open :
    (sub : ℕ) (subs : List (ℕ × Channel)) (ch : Channel)
    → All IsOpen subs
    → find_sub sub subs ≡ some ch
    → ch.closed ≡ false
unfolding find_sub
find_sub_open sub [] ch h e = cc
find_sub_open sub ((n, x) ∷ subs) ch h e = ground (arith, find_sub_open sub subs ch h.1)

left-IsValid : (max sub : ℕ) (e : Entry) → IsValid max e → IsValid max (left sub e)
left-IsValid max sub e v = record {
  numbered = v.numbered;
  bounded = v.bounded;
  kept = v.kept;
  done_when_terminal = v.done_when_terminal;
  alone_when_terminal = λ h. rw (v.alone_when_terminal h);
  channels_open = All-keep IsOpen (λ s. not (s.0 == sub)) e.subscribers v.channels_open;
  subs_numbered =
      All-keep (λ s. s.0 ≤ e.next_sub_id) (λ s. not (s.0 == sub)) e.subscribers v.subs_numbered;
}

-- Unsubscribing never closes a closed channel.
pub unsubscribe-RegistryIsValid :
    (id : String) (sub : ℕ) (r : Registry)
    → RegistryIsValid r
    → (r' : Registry) × (unsubscribe id sub r ≡ some r') × RegistryIsValid r'
unsubscribe-RegistryIsValid id sub r v = elim (Option-cases (lookup id r.jobs)) [
  | inl missing ↦ (r, unsubscribe_missing id sub r missing, v)
  | inr (e, found) ↦ elim (Option-cases (find_sub sub e.subscribers)) [
    | inl gone ↦ (r, unsubscribe_gone id sub r e found gone, v)
    | inr (ch, there) ↦
        let fits = entry-IsValid id e v found in
        (
          record r {
            jobs = insert id (left sub e) r.jobs;
            released = r.released ++ record ch { closed = true } ∷ [];
          },
          unsubscribe_found id sub r e ch found there
              (find_sub_open sub e.subscribers ch fits.channels_open there),
          record {
            entries =
                Values-insert (IsValid r.max_events) id _ r.jobs
                  (left-IsValid r.max_events sub e fits) v.entries;
            shut = All-append (λ ch. ch.closed ≡ true) r.released _ v.shut (refl, tt);
          },
        )
  ]
]
