-- ===== src/SecureConn/Frame.antt =====
-- internal/secureconn/frame.go: checking, encoding and decoding frames. CBOR is a library of others,
-- so the codec is a parameter.
pub mod Checks
use or3_intern.Base.{
  ℕ, ◌+◌, ◌*◌, ◌==◌, String, str_eq, Bool, true, false, not, ◌&&◌, ◌||◌, Option, none, some, List,
  ltb, if◌then◌else◌, length,
}
use or3_intern.Base.Int.{ℤ, pos, negsuc, ltb_ℤ, eq_ℤ, sub_int64, neg_part, pos_part}
use or3_intern.Base.Text.{is_blank}
use or3_intern.SecureConn.Types.{
  Code, protocol_unsupported, malformed_payload, replay_detected, Error, secure, SecureFrame,
  protocol_version, max_body_bytes,
}
use or3_intern.SecureConn.Replay.{ReplayWindow, Blocked, accept}

-- the error of `Accept`, whatever the reason
abbrev pub blocked_error : Option Blocked → Option Error
blocked_error none = none
blocked_error (some _) = some (secure replay_detected true)

-- `if window != nil { return window.Accept(frame.Sequence) }`
unfoldable pub accept_in : Option ReplayWindow → ℕ → Option ReplayWindow × Option Error
accept_in none s = (none, none)
accept_in (some w) s = let (w', verdict) = accept w s in (some w', blocked_error verdict)

-- 24 hours back, one minute ahead, in milliseconds
abbrev pub max_age : ℤ
max_age = pos (24 * 60 * 60 * 1000)

abbrev pub max_ahead : ℤ
max_ahead = negsuc 59999

-- `now` is `now.UTC().UnixMilli()`: the callers never pass the zero time
unfoldable pub validate_secure_frame :
    SecureFrame → String → Option ReplayWindow → ℤ → Option ReplayWindow × Option Error
validate_secure_frame frame expected window now =
    let skew = sub_int64 now frame.sent_at in
    if not (eq_ℤ frame.version protocol_version)
    then (window, some (secure protocol_unsupported false))
    else if is_blank frame.kind || is_blank frame.session_id || is_blank frame.correlation_id
    then (window, some (secure malformed_payload false))
    else if ltb max_body_bytes (length frame.body)
    then (window, some (secure malformed_payload false))
    else if not (str_eq expected "") && not (str_eq frame.session_id expected)
    then (window, some (secure malformed_payload false))
    else if ltb_ℤ skew max_ahead || ltb_ℤ max_age skew
    then (window, some (secure malformed_payload false))
    else accept_in window frame.sequence

-- canonical CBOR: the encoder may fail, the decoder refuses malformed bytes
pub record Codec (Bytes : Type 0) : Type 0 where
  pub encode : SecureFrame → Option Bytes
  pub decode : Bytes → Option SecureFrame

abbrev pub is_zero : ℤ → Bool
is_zero (pos n) = n == 0
is_zero (negsuc n) = false

unfoldable pub with_defaults : SecureFrame → ℤ → SecureFrame
with_defaults frame now = record frame {
  version = if is_zero frame.version then protocol_version else frame.version;
  sent_at = if is_zero frame.sent_at then now else frame.sent_at;
}

pub data Outcome (A : Type 0) : Type 0 where
  ok : A → Outcome A
  fail : Error → Outcome A

module _ {Bytes : Type 0} (codec : Codec Bytes) where
  unfoldable pub encoded : SecureFrame → Option Error → Outcome Bytes
  encoded frame (some e) = fail e
  encoded frame none = elim (codec.encode frame) [
    | none ↦ fail (Error.other "cbor")
    | some bytes ↦ ok bytes
  ]

  unfoldable pub encode_secure_frame : SecureFrame → ℤ → Outcome Bytes
  unfolding encoded
  encode_secure_frame frame now =
      let filled = with_defaults frame now in
      encoded filled (validate_secure_frame filled filled.session_id none now).1

  decoded :
      Option SecureFrame
      → String
      → Option ReplayWindow
      → ℤ
      → Option ReplayWindow × Outcome SecureFrame
  decoded none expected window now = (window, fail (secure malformed_payload false))
  decoded (some frame) expected window now =
      let (window', err) = validate_secure_frame frame expected window now in
      (window', elim err [ none ↦ ok frame | some e ↦ fail e ])

  unfoldable pub decode_secure_frame :
      Bytes → String → Option ReplayWindow → ℤ → Option ReplayWindow × Outcome SecureFrame
  unfolding decoded
  decode_secure_frame raw expected window now = decoded (codec.decode raw) expected window now
