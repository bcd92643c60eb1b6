-- ===== src/Ios/Wda.antt =====
-- crates/quadcontrol-ios/src/wda.rs: what the client sends and how it reads an answer. `J` stands for the
-- JSON values of serde_json and `F` for the floating point numbers, each with what the code uses of
-- it; `S` is the state of all that lies behind the HTTP connection, the other holders of the client's
-- clones included.
pub mod Client
pub mod Actions
pub mod Verified
pub mod Requests
pub mod Effects
pub mod Waking
pub mod Base64
use quad_control.Base.{
  ℕ, ◌+◌, ◌*◌, Bool, true, false, ◌&&◌, ◌||◌, List, [], ◌∷◌, ◌++◌, Option, none, some, Result, ok,
  err, ltb, is_empty, length, take, if◌then◌else◌,
}
use quad_control.Base.Text.{Text, codes, contains, to_ascii_lowercase, trim}
use quad_control.Base.Text.Decimal.{decimal}
use quad_control.Ios.Error.{Error}

-- the JSON bodies that are sent
pub data Body (F : Type 0) : Type 0 where
  empty capabilities : Body F
  settings : (fps quality : ℕ) → Body F
  point : (x y : F) → Body F
  drag : (from_x from_y to_x to_y duration : F) → Body F
  button : Text → Body F
  bundle : Text → Body F
  value : Text → Body F

pub data Request (F : Type 0) : Type 0 where
  get : (path : Text) → Request F
  post : (path : Text) → Body F → Request F
  delete : (path : Text) → Request F

-- What ureq gives for a request: an answer, a status of 400 or more, or a failure to transport.
pub data Reply : Type 0 where
  answered : (body : Text) → Reply
  unreadable : (message : Text) → Reply
  status : (code : ℕ) (body : Text) → Reply
  transport : (message : Text) → Reply

-- The part of a client that its clones share.
pub record Shared : Type 0 where
  pub session_id : Option Text
  pub mjpeg : Option (ℕ × ℕ)

pub record Device (S J F : Type 0) : Type 0 where
  pub answer : Request F → S → S × Reply
  pub others : S → Shared → Shared  -- what other clones have done to the shared part meanwhile
  pub now : S → ℕ
  pub slept : ℕ → S → S
  pub parse : Text → Result J Text
  pub null : J
  pub field : Text → J → Option J
  pub as_str : J → Option Text
  pub as_bool : J → Option Bool
  pub as_u64 : J → Option ℕ
  pub lossy : Text → Text  -- `String::from_utf8_lossy`
  pub is_finite : F → Bool
  pub clamp : F → F → F → F
  pub swipe_min_secs : F
  pub swipe_max_secs : F

pub record World (S F : Type 0) : Type 0 where
  pub device : S
  pub shared : Shared
  pub sent : List (Request F)  -- the newest first

abbrev pub body_limit : ℕ
body_limit = 8 * 1024 * 1024

unfoldable pub describe : Text → ℕ → Text → Text
describe path code body =
    codes "WDA " ++ path ++ codes " returned " ++ decimal code ++ codes ": " ++ body

unfoldable pub is_invalid_session : Text → Bool
unfolding contains to_ascii_lowercase
is_invalid_session message =
    let lower = to_ascii_lowercase message in
    contains (codes "returned 404") lower
    && (contains (codes "invalid session") lower || contains (codes "session does not exist") lower)

-- a computation of a client: it sends, and it may fail
abbrev pub Call : (S F E A : Type 0) → Type 0
Call S F E A = World S F → World S F × Result A E

module _ {S F E A : Type 0} where
  abbrev pub pure : A → Call S F E A
  pure a w = (w, ok a)

  abbrev pub raise : E → Call S F E A
  raise e w = (w, err e)

  abbrev pub or_raise : Option A → E → Call S F E A
  or_raise none e w = (w, err e)
  or_raise (some a) e w = (w, ok a)

  abbrev pub continue :
      {B : Type 0} → World S F × Result A E → (A → Call S F E B) → World S F × Result B E
  continue (w, ok a) f = f a w
  continue (w, err e) f = (w, err e)

  infixl 5 ◌>>=◌ ◌>>◌
  abbrev pub ◌>>=◌ : {B : Type 0} → Call S F E A → (A → Call S F E B) → Call S F E B
  ◌>>=◌ m f w = continue (m w) f

  abbrev pub ◌>>◌ : {B : Type 0} → Call S F E A → Call S F E B → Call S F E B
  m >> k = m >>= λ _. k

  abbrev pub wrapped : {D : Type 0} → (E → D) → World S F × Result A E → World S F × Result A D
  wrapped wrap (w, ok a) = (w, ok a)
  wrapped wrap (w, err e) = (w, err (wrap e))

  -- `map_err`
  abbrev pub map_err : {D : Type 0} → (E → D) → Call S F E A → Call S F D A
  map_err wrap m w = wrapped wrap (m w)

module _ {S J F : Type 0} (d : Device S J F) where
  -- one request, and what has happened by the time its answer is there
  abbrev pub exchange : Request F → World S F → World S F × Reply
  exchange r w =
      let (s, reply) = d.answer r w.device in
      (record { device = s; shared = d.others s w.shared; sent = r ∷ w.sent }, reply)

  abbrev unparsable : Text → Result J Text → Result J Text
  unparsable path (ok j) = ok j
  unparsable path (err e) = err (codes "WDA " ++ path ++ codes " returned unparsable JSON: " ++ e)

  -- the body is read up to one byte more than the limit
  unfoldable pub read_json_raw : Text → Text → Result J Text
  read_json_raw path body =
      if ltb body_limit (length body)
      then err (
          codes "WDA "
          ++ path
          ++ codes " response exceeded the "
          ++ decimal body_limit
          ++ codes " byte limit")
      else if is_empty body
      then ok d.null
      else unparsable path (d.parse body)

  unfoldable pub read_reply : Text → Reply → Result J Text
  unfolding read_json_raw describe trim
  read_reply path (answered body) = read_json_raw path body
  read_reply path (unreadable message) =
      err (codes "WDA " ++ path ++ codes " body could not be read: " ++ message)
  read_reply path (status code body) =
      err (describe path code (trim (d.lossy (take body_limit body))))
  read_reply path (transport message) =
      err (codes "WDA " ++ path ++ codes " is unreachable: " ++ message)

  unfoldable pub get_raw : Text → Call S F Text J
  unfolding read_reply
  get_raw path w = let (w', reply) = exchange (get path) w in (w', read_reply path reply)

  unfoldable pub post_raw : Text → Body F → Call S F Text J
  unfolding read_reply
  post_raw path body w =
      let (w', reply) = exchange (post path body) w in (w', read_reply path reply)
