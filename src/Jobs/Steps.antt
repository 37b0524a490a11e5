-- ===== src/Jobs/Steps.antt =====
-- The registry as a machine: any operations of any callers, one lock section after the other.
use mathlib.Core.Path.{subst}
use mathlib.Core.Option.{some-injective}
use or3_intern.Base.{sym, ℕ, ◌≡◌, ◌∙◌, ◌≢◌, String, Option, none, some}
use or3_intern.Base.Int.{ℤ}
use or3_intern.Jobs.Events.{EventData}
use or3_intern.Jobs.Registry.{
  Registry, cleanup, register_with_id, attach_cancel, reopen, new_registry,
}
use or3_intern.Jobs.Publish.{publish, mark_terminal, subscribe, unsubscribe}
use or3_intern.Jobs.Upkeep.{
  RegistryIsValid, cleanup-RegistryIsValid, register_with_id-RegistryIsValid,
  attach_cancel-RegistryIsValid, reopen-RegistryIsValid,
}
use or3_intern.Jobs.Traffic.{
  publish-RegistryIsValid, mark_terminal-RegistryIsValid, subscribe-RegistryIsValid,
  unsubscribe-RegistryIsValid,
}

-- One lock section of some caller: the registry before and after. `Complete`, `Fail` and
-- `PauseForApproval` are a `publish` and a `mark`, between which others may run.
pub data Step (json : EventData → Option EventData) : Registry → Registry → Type 0 where
  register :
      (now : ℕ) (id kind : String) (r : Registry) → Step json r (register_with_id now id kind r).0
  attach :
      (now : ℕ) (id : String) (cancel : ℕ) (r : Registry)
      → Step json r (attach_cancel now id cancel r).0
  emit :
      (now : ℕ) (id kind : String) (payload : EventData) (r : Registry)
      → Step json r (publish json now id kind payload r).0
  mark :
      (now : ℕ) (id status : String) {r r' : Registry}
      → mark_terminal json now id status r ≡ some r'
      → Step json r r'
  resume : (now : ℕ) (id : String) (r : Registry) → Step json r (reopen now id r).0
  join : (id : String) (r : Registry) → Step json r (subscribe json id r).0
  leave :
      (id : String) (sub : ℕ) {r r' : Registry} → unsubscribe id sub r ≡ some r' → Step json r r'
  clean : (now : ℕ) (r : Registry) → Step json r (cleanup now r)

pub data Reach (json : EventData → Option EventData) (r : Registry) : Registry → Type 0 where
  here : Reach json r r
  next : {s t : Registry} → Reach json r s → Step json s t → Reach json r t

Step-RegistryIsValid :
    {json : EventData → Option EventData} {r r' : Registry}
    → Step json r r'
    → RegistryIsValid r
    → RegistryIsValid r'
Step-RegistryIsValid (register now id kind r) v = register_with_id-RegistryIsValid now id kind r v
Step-RegistryIsValid (attach now id cancel r) v = attach_cancel-RegistryIsValid now id cancel r v
Step-RegistryIsValid {json} (emit now id kind payload r) v =
    publish-RegistryIsValid json now id kind payload r v
Step-RegistryIsValid {json} (mark now id status {r = r} {r' = r'} e) v =
    let (s, e', v') = mark_terminal-RegistryIsValid json now id status r v in
    subst RegistryIsValid (some-injective s r' (sym e' ∙ e)) v'
Step-RegistryIsValid (resume now id r) v = reopen-RegistryIsValid now id r v
Step-RegistryIsValid {json} (join id r) v = subscribe-RegistryIsValid json id r v
Step-RegistryIsValid (leave id sub {r = r} {r' = r'} e) v =
    let (s, e', v') = unsubscribe-RegistryIsValid id sub r v in
    subst RegistryIsValid (some-injective s r' (sym e' ∙ e)) v'
Step-RegistryIsValid (clean now r) v = cleanup-RegistryIsValid now r v

new_registry-RegistryIsValid :
    (retention max_tracked : ℤ) → RegistryIsValid (new_registry retention max_tracked)
unfolding new_registry
new_registry-RegistryIsValid retention max_tracked = record { entries = tt; shut = tt }

pub Reach-RegistryIsValid :
    {json : EventData → Option EventData} (retention max_tracked : ℤ) {r : Registry}
    → Reach json (new_registry retention max_tracked) r
    → RegistryIsValid r
Reach-RegistryIsValid retention max_tracked here =
    new_registry-RegistryIsValid retention max_tracked
Reach-RegistryIsValid retention max_tracked (next reach step) =
    Step-RegistryIsValid step (Reach-RegistryIsValid retention max_tracked reach)

-- In every registry that the operations of any callers, in any order, make of a new one, neither
-- finishing a job nor unsubscribing closes a channel twice, so neither panics.
pub Reach-no_panic :
    {json : EventData → Option EventData} (retention max_tracked : ℤ) {r : Registry} (now : ℕ)
    (id status : String) (sub : ℕ)
    → Reach json (new_registry retention max_tracked) r
    → (mark_terminal json now id status r ≢ none) × (unsubscribe id sub r ≢ none)
Reach-no_panic {json} retention max_tracked {r} now id status sub reach =
    let v = Reach-RegistryIsValid retention max_tracked reach in
    let (_, marked, _) = mark_terminal-RegistryIsValid json now id status r v in
    let (_, gone, _) = unsubscribe-RegistryIsValid id sub r v in
    (λ h. cc (marked, h), λ h. cc (gone, h))
