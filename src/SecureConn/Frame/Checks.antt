-- ===== src/SecureConn/Frame/Checks.antt =====
-- What a frame that passes the checks is like, and that an encoded frame decodes.
use or3_intern.Base.{
  ℕ, ◌+◌, ◌^◌, ◌<◌, ◌≤◌, ◌≡◌, refl, ◌⊎◌, inl, inr, String, eq_iff, false, Option, none, some,
  length, arith,
}
use or3_intern.Base.Int.{ℤ, pos, ltb_ℤ, sub_int64, neg_part, pos_part, ◌≤ℤ◌, IsInt64}
use or3_intern.Base.Text.{is_blank}
use or3_intern.SecureConn.Types.{Error, SecureFrame, protocol_version, max_body_bytes}
use or3_intern.SecureConn.Replay.{ReplayWindow, accept}
use or3_intern.SecureConn.Replay.Invariant.{accept-cases}
use or3_intern.SecureConn.Frame.{
  Codec, encoded, ok, accept_in, validate_secure_frame, encode_secure_frame, decode_secure_frame,
  max_age, max_ahead, with_defaults,
}

-- the skew test on wrapped `int64` values decides the true difference
skew_exact :
    (now : ℕ) (sent : ℤ)
    → now < 2 ^ 62
    → IsInt64 sent
    → ltb_ℤ (sub_int64 (pos now) sent) max_ahead ≡ false
    → ltb_ℤ max_age (sub_int64 (pos now) sent) ≡ false
    → (sent ≤ℤ pos (now + 60000)) × (pos_part (pos now) + neg_part sent ≤ pos_part sent + 86400000)
unfolding sub_int64
skew_exact now sent small fits h k = ground arith

-- what the receiver may rely on once a frame has passed
pub record Passed (frame : SecureFrame) (expected : String) (w : ReplayWindow) (now : ℕ)
    : Type 0 where
  pub version : frame.version ≡ protocol_version
  pub kind : is_blank frame.kind ≡ false
  pub correlation : is_blank frame.correlation_id ≡ false
  pub session : (expected ≡ "") ⊎ (frame.session_id ≡ expected)
  pub size : length frame.body ≤ max_body_bytes
  pub not_ahead : frame.sent_at ≤ℤ pos (now + 60000)
  pub not_old : pos_part (pos now) + neg_part frame.sent_at ≤ pos_part frame.sent_at + 86400000
  pub in_order : (accept w frame.sequence).1 ≡ none

-- A frame that passes the checks against a window has this protocol version, a kind, a correlation and
-- the expected session, a body within the limit and a time of sending between a day ago and a minute
-- ahead, as true integers although the code subtracts on `int64`; and the window let its number through.
pub validate_secure_frame-Passed :
    (frame : SecureFrame) (expected : String) (w : ReplayWindow) (now : ℕ)
    → now < 2 ^ 62
    → IsInt64 frame.sent_at
    → (validate_secure_frame frame expected (some w) (pos now)).1 ≡ none
    → Passed frame expected w now
unfolding validate_secure_frame accept_in
validate_secure_frame-Passed frame expected w now small fits h =
    let skew = sub_int64 (pos now) frame.sent_at in
    record {
      version = ground arith;
      kind = ground arith;
      correlation = ground arith;
      session = ground (arith, eq_iff expected "", eq_iff frame.session_id expected);
      size = ground arith;
      not_ahead = (skew_exact now frame.sent_at small fits (ground arith) (ground arith)).0;
      not_old = (skew_exact now frame.sent_at small fits (ground arith) (ground arith)).1;
      in_order = ground arith;
    }

accept_in_refused :
    (w : ReplayWindow) (s : ℕ) (e : Error)
    → (accept_in (some w) s).1 ≡ some e
    → (accept_in (some w) s).0 ≡ some w
unfolding accept_in
accept_in_refused w s e h = elim (accept-cases w s) [
  | inl (passed, _) ↦ absurd (let h' = rw passed at h in cc)
  | inr (b, blocked) ↦ rw blocked
]

-- A frame that is refused leaves the replay window as it was, whichever check refuses it.
validate_secure_frame_refused :
    (frame : SecureFrame) (expected : String) (w : ReplayWindow) (now : ℤ) (e : Error)
    → (validate_secure_frame frame expected (some w) now).1 ≡ some e
    → (validate_secure_frame frame expected (some w) now).0 ≡ some w
unfolding validate_secure_frame
validate_secure_frame_refused frame expected w now e h =
    ground (arith, accept_in_refused w frame.sequence e)

validate_secure_frame_unwindowed :
    (frame : SecureFrame) (expected : String) (now : ℤ)
    → (validate_secure_frame frame expected none now).0 ≡ none
unfolding validate_secure_frame accept_in
validate_secure_frame_unwindowed frame expected now = ground arith

module _ {Bytes : Type 0} (codec : Codec Bytes)
    (inverse : (f : SecureFrame) (b : Bytes)
      → codec.encode f ≡ some b
      → codec.decode b ≡ some f) where
  encoded-eq-ok :
      (f : SecureFrame) (err : Option Error) (bytes : Bytes)
      → encoded codec f err ≡ ok bytes
      → (err ≡ none) × (codec.encode f ≡ some bytes)
  unfolding encoded
  encoded-eq-ok f none bytes h = (refl, ground arith)
  encoded-eq-ok f (some e) bytes h = cc

  decode-encode_filled :
      (filled : SecureFrame) (now : ℤ) (bytes : Bytes)
      → encoded codec filled (validate_secure_frame filled filled.session_id none now).1 ≡ ok bytes
      → decode_secure_frame codec bytes filled.session_id none now ≡ (none, ok filled)
  unfolding decode_secure_frame
  decode-encode_filled filled now bytes h =
      let (valid, written) = encoded-eq-ok filled _ bytes h in
      rw (inverse filled bytes written, valid, validate_secure_frame_unwindowed)

  -- With a codec whose decoder undoes its encoder, what `EncodeSecureFrame` writes
  -- `DecodeSecureFrame` reads back at the same time for the frame's session: the frame with the
  -- version and the time filled in where they were 0.
  pub decode-encode_secure_frame :
      (frame : SecureFrame) (now : ℤ) (bytes : Bytes)
      → encode_secure_frame codec frame now ≡ ok bytes
      → decode_secure_frame codec bytes frame.session_id none now
        ≡ (none, ok (with_defaults frame now))
  unfolding encode_secure_frame with_defaults
  decode-encode_secure_frame frame now bytes h =
      decode-encode_filled (with_defaults frame now) now bytes h
