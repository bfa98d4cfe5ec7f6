-- ===== src/Handlers/Http.antt =====
-- What a handler sees of a request, what it answers, and the state of the server it runs in. The
-- web framework gin, the tokens of golang-jwt, and google/uuid are parameters.
use srv.Prelude.{
  ℕ, Bool, Option, some, List, ◌∷◌, [], ◌++◌, Error, Result, Exec, Text, codes, Dict, ℤ,
}
use srv.Storage.Types.{Conversation}
use srv.Lifecycle.Session.{Backend}
use srv.Lifecycle.Sessions.{Server, server_redis}

-- A header or a parameter that is not there reads as the empty string.
pub record Request : Type 0 where
  pub client_id : Text
  pub profile_id : Text
  pub client_type : Text
  pub authorization : Text
  pub conversation_id : Text
  pub name : Text
  pub body : Text

-- The JSON that is answered; `gin.H` is an object.
pub data Value : Type 0 where
  string : Text → Value
  flag : Bool → Value
  failure : Error → Value

pub data Body : Type 0 where
  nothing : Body
  json_object : Dict Value → Body
  json_string : Text → Body
  name_to_id : List (Text × Text) → Body
  json_conversation : Conversation → Body
  json_token : Text → Body

-- What a handler's code does with a token: the three claims, where a missing text is the empty one
-- and a missing time is none, and whether its method is one of the HMACs.
pub record Tokens : Type 1 where
  pub Token : Type 0
  pub is_hmac : Token → Bool
  pub issuer : Token → Result Text
  pub subject : Token → Result Text
  pub issued_at : Token → Result (Option ℤ)
  -- The time in seconds, the text, the function that gives the key, the methods that are valid.
  pub parse : ℕ → Text → (Token → Result Text) → List Text → Result Token

pub record Mail : Type 0 where
  pub from : Text
  pub to : Text
  pub subject : Text
  pub content_type : Text
  pub body : Text

-- The libraries of the handlers. A decoder of a string leaves a string also when it fails.
pub record Web : Type 1 where
  pub tokens : Tokens
  pub Uuid : Type 0
  pub parse_uuid : Text → Result Uuid
  pub marshal_binary : Uuid → Result Text
  pub bind : Text → Text × Option Error
  pub bind_map : Text → Result (Dict Text)
  pub quoted : Text → Text
  pub sha1 : Text → Text
  pub getenv : Text → Text
  -- The host, the port, the account and the password.
  pub dial_and_send : Text → ℤ → Text → Text → Mail → Result (Unit {0})

-- What one request is given: the time in seconds and in milliseconds, and the random parts.
pub record Given : Type 0 where
  pub unix : ℕ
  pub milli : ℕ
  pub random_profile : Text
  pub random_conversation : Text
  pub secret : Text

-- The server, the answers in the order of the calls that made them, the realm of the header
-- `WWW-Authenticate`, and the mails that were handed on. Of several answers, the first one's status
-- is sent, and the bodies follow one another.
pub record Http (b : Backend) : Type 0 where
  pub server : Server b
  pub answers : List (ℕ × Body)
  pub realm : Option Text
  pub mails : List Mail

-- A call that returns, or one that ends in a panic, which unwinds the handler.
pub data Outcome {ℓ} (A : Type ℓ) : Type ℓ where
  done : A → Outcome A
  panicked : Outcome A

module _ {b : Backend} where
  -- `c.JSON(status, body)`, and `c.Status(status)` with no body.
  abbrev pub answer : ℕ → Body → Http b → Http b
  answer status body s = record s { answers = s.answers ++ (status, body) ∷ [] }

  -- `c.Writer.Header().Set("WWW-Authenticate", …)`
  abbrev pub challenge : Text → Http b → Http b
  challenge profile_id s = record s { realm = some profile_id }

  -- A call of the storage.
  abbrev pub stored : {A : Type 0} → Exec b.store.redis.World A → Exec (Http b) A
  stored m s = let (res, v) = server_redis b m s.server in (res, record s { server = v })

  -- A call of the lifecycle.
  abbrev pub served : {A : Type 0} → Exec (Server b) A → Exec (Http b) A
  served m s = let (res, v) = m s.server in (res, record s { server = v })

-- `gin.H{"error": text}`
abbrev pub error_text : Text → Body
error_text t = json_object ((codes "error", string t) ∷ [])

-- `gin.H{"error": err.Error()}`
abbrev pub error_of : Error → Body
error_of e = json_object ((codes "error", failure e) ∷ [])

-- The same two, with the field `status` of the handlers of conversations.
abbrev pub status_error_text : Text → Body
status_error_text t =
    json_object ((codes "status", string (codes "error")) ∷ (codes "error", string t) ∷ [])

abbrev pub status_error_of : Error → Body
status_error_of e =
    json_object ((codes "status", string (codes "error")) ∷ (codes "error", failure e) ∷ [])
