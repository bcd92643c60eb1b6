-- ===== src/Examples/Wda.antt =====
-- A device for crates/quadcontrol-ios/src/wda.rs that echoes: a JSON value is a text, which is also each of
-- its fields, and a session named "a" is no longer valid.
use quad_control.Base.{
  ℕ, ◌+◌, ◌≡◌, refl, Bool, true, false, [], none, some, ok, err, arith, is_empty, if◌then◌else◌,
}
use quad_control.Base.Text.{Text, codes, starts_with}
use quad_control.Base.Text.Decimal.{decimal}
use quad_control.Ios.Error.{device_locked, wda_session_failed}
use quad_control.Ios.Wda.{
  Request, get, post, delete, Reply, answered, status, Device, World, Call, get_raw, wrapped,
  is_invalid_session, read_reply,
}
use quad_control.Ios.Wda.Client.{create_session, configure_mjpeg_once, session_call}
use quad_control.Ios.Wda.Actions.{at, locked, tap, swipe, activate_app}
use quad_control.Ios.Wda.Verified.{send_text, wake}
use quad_control.Ios.Wda.Requests.{Within, Sends, session_call-Sends, session_call-recovers}
use quad_control.Ios.Wda.Effects.{Confirmed, send_text-Confirmed, locked-refused}
use quad_control.Ios.Wda.Waking.{Awake, wake-Awake}
use quad_control.Ios.Wda.Base64.{decode_base64}
use quad_control.Ios.Wda.Base64.Encoder.{encode_base64}
use quad_control.Ios.Wda.Base64.RoundTrip.{decode_base64-encode}

abbrev path_of : Request ℕ → Text
path_of (get path) = path
path_of (post path body) = path
path_of (delete path) = path

abbrev reply_to : Request ℕ → Reply
reply_to r =
    if starts_with (codes "/session/a") (path_of r)
    then status 404 (codes "invalid session id")
    else answered (codes "b")

abbrev device : Bool → Device ℕ Text ℕ
device is_locked = record {
  answer = λ r s. (s + 10, reply_to r);
  others = λ s shared. shared;
  now = λ s. s;
  slept = λ ms s. s + ms;
  parse = λ t. ok t;
  null = [];
  field = λ name j. some j;
  as_str = λ j. some j;
  as_bool = λ j. some is_locked;
  as_u64 = λ j. some 1;
  lossy = λ t. t;
  is_finite = λ x. true;
  clamp = λ x lo hi. x;
  swipe_min_secs = 1;
  swipe_max_secs = 2;
}

abbrev world : Text → ℕ → World ℕ ℕ
world id now = record {
  device = now;
  shared = record { session_id = some id; mjpeg = some (30, 30) };
  sent = [];
}

abbrev sent_world : World ℕ ℕ
sent_world = (send_text (device false) (codes "b") (world (codes "s") 0)).0

send_text-Confirmed_example :
    (is_empty (codes "b") ≡ false)
    × Confirmed (device false) (codes "b") (world (codes "s") 0) sent_world
unfolding send_text starts_with read_reply
send_text-Confirmed_example =
    send_text-Confirmed (device false) (codes "b") (world (codes "s") 0) sent_world refl

abbrev woken_world : World ℕ ℕ
woken_world = (locked (device false) (world (codes "s") 0)).0

wake-Awake_run : Awake (device false) woken_world
unfolding wake locked starts_with read_reply
wake-Awake_run = wake-Awake (device false) (world (codes "s") 0) woken_world refl

abbrev locked_world : World ℕ ℕ
locked_world = (locked (device true) (world (codes "s") 0)).0

locked-refused_example :
    (tap (device true) 1 2 (world (codes "s") 0) ≡ (locked_world, err device_locked))
    × (swipe (device true) (1, 2) (3, 4) 1 (world (codes "s") 0)
        ≡ (locked_world, err device_locked))
    × (activate_app (device true) (codes "x") (world (codes "s") 0)
        ≡ (locked_world, err device_locked))
    × (send_text (device true) (codes "y") (world (codes "s") 0)
        ≡ (locked_world, err device_locked))
unfolding locked starts_with read_reply
locked-refused_example =
    locked-refused (device true) (world (codes "s") 0) locked_world 1 2 (1, 2) (3, 4) 1 (codes "x")
      (codes "y") refl refl refl

abbrev size_call : Text → Call ℕ ℕ Text Text
size_call id = get_raw (device false) (at id (codes "/window/size"))

size_call_one : (id : Text) → Within 1 0 (size_call id)
unfolding get_raw
size_call_one id w = (omega arith, omega arith)

session_call-Sends_example :
    Sends 4 1
      (world (codes "a") 0)
      (session_call (device false) size_call wda_session_failed (world (codes "a") 0)).0
session_call-Sends_example =
    session_call-Sends (device false) size_call wda_session_failed size_call_one
      (world (codes "a") 0)

abbrev lost : World ℕ ℕ
lost = (size_call (codes "a") (world (codes "a") 0)).0

abbrev created : World ℕ ℕ
created = (create_session (device false) lost).0

abbrev configured : World ℕ ℕ
configured = (configure_mjpeg_once (device false) (codes "b") 30 30 created).0

abbrev message : Text
message = codes "WDA /session/a/window/size returned 404: invalid session id"

session_call-recovers_run :
    session_call (device false) size_call wda_session_failed (world (codes "a") 0)
    ≡ wrapped wda_session_failed (size_call (codes "b") configured)
unfolding get_raw create_session configure_mjpeg_once is_invalid_session starts_with read_reply
    decimal
session_call-recovers_run =
    session_call-recovers (device false) size_call wda_session_failed size_call_one (codes "a")
      (codes "b") 30 30 message (world (codes "a") 0) lost created configured refl refl refl refl
      refl refl refl refl refl

decode_base64-encode_example : decode_base64 (encode_base64 (codes "hello")) ≡ some (codes "hello")
decode_base64-encode_example =
    decode_base64-encode (codes "hello")
      (omega arith, (omega arith, (omega arith, (omega arith, (omega arith, tt)))))

decoded : decode_base64 (codes "Zm9v\nYmE=") ≡ some (codes "fooba")
unfolding decode_base64
decoded = refl

cut_off : decode_base64 (codes "Zm9") ≡ none
unfolding decode_base64
cut_off = refl
