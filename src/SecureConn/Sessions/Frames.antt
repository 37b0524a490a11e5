-- ===== src/SecureConn/Sessions/Frames.antt =====
-- What ValidateFrame of internal/secureconn/session.go does to the store, where no other statement runs
-- between its two.
use or3_intern.Base.{
  ℕ, ◌≡◌, refl, inl, inr, ◌⊎◌, Bool-cases, Option-cases, false, String, Option, none, some,
}
use or3_intern.Base.Int.{pos, int64}
use or3_intern.SecureConn.Types.{SecureFrame}
use or3_intern.SecureConn.Replay.{ReplayWindow}
use or3_intern.SecureConn.Frame.{Codec, Outcome, ok, fail, decode_secure_frame, accept_in}
use or3_intern.SecureConn.SessionStore.{Session, Store, get_session, touch_session}
use or3_intern.SecureConn.Sessions.{
  SessionError, is_over, is_replayed, count_frame, validate_found, validate_frame,
}

-- What a frame does to the store.
pub data Counted (id : String) (st : Store) : Store → SessionError ⊎ SecureFrame → Type 0 where
  refused : (e : SessionError) → Counted id st st (inl e)
  counted :
      (s : Session) (now : ℕ) (frame : SecureFrame)
      → get_session id st ≡ some s
      → is_replayed s frame.sequence ≡ false
      → Counted id st
          (touch_session s.session_id now (int64 frame.sequence) s.last_sequence_out st)
          (inr frame)

count_frame-Counted :
    (id : String) (s : Session) (now : ℕ) (window : Option ReplayWindow) (frame : SecureFrame)
    (st : Store)
    → get_session id st ≡ some s
    → Counted id st (count_frame s now window frame st).0 (count_frame s now window frame st).2
unfolding count_frame
count_frame-Counted id s now window frame st found =
    elim (Bool-cases (is_replayed s frame.sequence)) [
      | inl again ↦ rw again (refused _)
      | inr new ↦ rw new (elim (Option-cases (accept_in window frame.sequence).1) [
        | inl none_there ↦ rw none_there (counted s now frame found new)
        | inr (e, blocked) ↦ rw blocked (refused _)
      ])
    ]

module _ {Bytes : Type 0} (codec : Codec Bytes) (id : String) (raw : Bytes) (now : ℕ)
    (st : Store) where
  decoded-Counted :
      (s : Session) (window : Option ReplayWindow) (o : Outcome SecureFrame)
      → get_session id st ≡ some s
      → is_over now s ≡ false
      → (decode_secure_frame codec raw s.session_id none (pos now)).1 ≡ o
      → Counted id st
          (validate_found codec (some s) raw now window st).0
          (validate_found codec (some s) raw now window st).2
  unfolding validate_found
  decoded-Counted s window (fail e) found live is = rw (live, is) (refused _)
  decoded-Counted s window (ok decoded) found live is =
      rw (live, is) (count_frame-Counted id s now window decoded st found)

  found-Counted :
      (window : Option ReplayWindow) (o : Option Session)
      → get_session id st ≡ o
      → Counted id st
          (validate_found codec o raw now window st).0
          (validate_found codec o raw now window st).2
  unfolding validate_found
  found-Counted window none found = refused _
  found-Counted window (some s) found = elim (Bool-cases (is_over now s)) [
    | inl over ↦ rw over (refused _)
    | inr live ↦ decoded-Counted s window _ found live refl
  ]

  pub validate_frame-Counted :
      (window : Option ReplayWindow)
      → Counted id st
          (validate_frame codec id raw now window st st).0
          (validate_frame codec id raw now window st st).2
  unfolding validate_frame
  validate_frame-Counted window = found-Counted window (get_session id st) refl
