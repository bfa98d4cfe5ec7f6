-- ===== src/Platform/Config.antt =====
-- The environment of the server. The loader of the files, godotenvvault, and the machine are
-- parameters.
pub mod Loaded
use srv.Prelude.{
  ℕ, zero, suc, ◌+◌, ◌-◌, ◌*◌, ◌^◌, ◌==◌, ◌||◌, Bool, true, false, Option, none, some, List, [],
  ◌∷◌, ◌++◌, external, Result, ok, err, Exec, Text, codes, ltb, ltb_ℤ, if◌then◌else◌, ℤ, pos,
  negsuc,
}

pub record Environment : Type 0 where
  pub ably_publish_key : Text
  pub ably_subscribe_key : Text
  pub age_public_key : Text
  pub age_secret_key : Text
  pub aws_access_key : Text
  pub aws_bucket : Text
  pub aws_region : Text
  pub aws_root_path : Text
  pub aws_secret_key : Text
  pub db_key_prefix : Text
  pub db_url : Text
  pub http_host : Text
  pub http_port : ℤ
  pub http_scheme : Text
  pub name : Text
  pub resemble_token : Text
  pub smtp_cred_id : Text
  pub smtp_cred_secret : Text
  pub smtp_host : Text
  pub smtp_port : ℤ

-- The machine: which files there are, what loading one does to the variables, and their values.
-- Without a file's name the loader looks for the vault.
pub record Machine : Type 1 where
  pub World : Type 0
  pub stat : Text → World → Bool
  pub overload : Option Text → Exec World (Unit {0})
  pub getenv : Text → World → Text

-- `strconv.Atoi` with the value that it gives besides an error: 0 for what is no number, and the
-- nearest number for one out of range. The scan stops at 64 bits.
unfoldable pub scan_uint : Text → ℕ → Option ℕ
scan_uint [] n = some n
scan_uint (c ∷ s) n =
    let m = n * 10 + (c - b'0') in
    let rest = scan_uint s m in
    if ltb c b'0' || ltb b'9' c then none else if ltb m (2 ^ 64) then rest else some (2 ^ 64 - 1)

unfoldable pub digits_value : Text → Option ℕ
unfolding scan_uint
digits_value [] = none
digits_value (c ∷ s) = scan_uint (c ∷ s) 0

unfoldable pub clamp_positive : Option ℕ → ℤ
clamp_positive none = pos 0
clamp_positive (some n) = if ltb n (2 ^ 63) then pos n else pos (2 ^ 63 - 1)

unfoldable pub clamp_negative : Option ℕ → ℤ
clamp_negative none = pos 0
clamp_negative (some zero) = pos 0
clamp_negative (some (suc n)) = if ltb n (2 ^ 63) then negsuc n else negsuc (2 ^ 63 - 1)

unfoldable pub atoi_value : Text → ℤ
unfolding digits_value clamp_positive clamp_negative
atoi_value [] = pos 0
atoi_value (c ∷ s) =
    if c == b'-'
    then clamp_negative (digits_value s)
    else if c == b'+'
    then clamp_positive (digits_value s)
    else clamp_positive (digits_value (c ∷ s))

unfoldable pub get_env_port : Text → ℤ → ℤ
unfolding atoi_value
get_env_port s d = let val = atoi_value s in if ltb_ℤ (pos 0) val then val else d

unfoldable pub environment_of : (Text → Text) → Environment
unfolding get_env_port
environment_of getenv = record {
  ably_publish_key = getenv (codes "ABLY_PUBLISH_KEY");
  ably_subscribe_key = getenv (codes "ABLY_SUBSCRIBE_KEY");
  age_public_key = getenv (codes "AGE_PUBLIC_KEY");
  age_secret_key = getenv (codes "AGE_SECRET_KEY");
  aws_access_key = getenv (codes "AWS_ACCESS_KEY");
  aws_bucket = getenv (codes "AWS_BUCKET");
  aws_region = getenv (codes "AWS_REGION");
  aws_root_path = getenv (codes "AWS_FOLDER_PATH");
  aws_secret_key = getenv (codes "AWS_SECRET_KEY");
  db_key_prefix = getenv (codes "DB_KEY_PREFIX");
  db_url = getenv (codes "REDIS_URL");
  http_host = getenv (codes "HTTP_HOST");
  http_port = get_env_port (getenv (codes "HTTP_PORT")) (pos 8080);
  http_scheme = getenv (codes "HTTP_SCHEME");
  name = getenv (codes "ENVIRONMENT_NAME");
  resemble_token = getenv (codes "RESEMBLE_TOKEN");
  smtp_cred_id = getenv (codes "SMTP_CRED_ID");
  smtp_cred_secret = getenv (codes "SMTP_CRED_SECRET");
  smtp_host = getenv (codes "SMTP_HOST");
  smtp_port = get_env_port (getenv (codes "SMTP_PORT")) (pos 2025);
}

-- `"../"` that many times.
unfoldable pub up : ℕ → Text
up zero = []
up (suc i) = codes "../" ++ up i

-- The directories from `i` levels up on, as many as there is fuel; the loop has five.
unfoldable pub find_from : (Text → Bool) → ℕ → ℕ → Text → Result Text
unfolding up
find_from stat zero i name = err (external 4)
find_from stat (suc n) i name =
    let rest = find_from stat n (suc i) name in if stat (up i ++ name) then ok (up i) else rest

unfoldable pub find_env_file : (Text → Bool) → Text → Result Text
unfolding find_from
find_env_file stat name = find_from stat 5 0 name

module _ (m : Machine) where
  -- The machine, and the configuration that is loaded.
  pub record Host : Type 0 where
    pub machine : m.World
    pub loaded_config : Environment

  -- The configuration is replaced when the file was loaded.
  unfoldable pub after_overload : Result (Unit {0}) × m.World → Exec Host (Unit {0})
  unfolding environment_of
  after_overload (err e, w) h = (err e, record h { machine = w })
  after_overload (ok _, w) h =
      (ok tt, record { machine = w; loaded_config = environment_of (λ k. m.getenv k w) })

  unfoldable pub set_env_config : Text → Exec Host (Unit {0})
  unfolding after_overload find_env_file
  set_env_config [] h = after_overload (m.overload none h.machine) h
  set_env_config (c ∷ s) h = elim (find_env_file (λ f. m.stat f h.machine) (c ∷ s)) [
    | err e ↦ (err e, h)
    | ok d ↦ after_overload (m.overload (some (d ++ c ∷ s)) h.machine) h
  ]

  -- Only the first letter of a name counts.
  unfoldable pub set_config : Text → Exec Host (Unit {0})
  unfolding set_env_config
  set_config [] h = set_env_config [] h
  set_config (c ∷ s) h =
      if c == b'd'
      then set_env_config (codes ".env") h
      else if c == b's'
      then set_env_config (codes ".env.staging") h
      else if c == b'p'
      then set_env_config (codes ".env.production") h
      else if c == b't'
      then set_env_config (codes ".env.testing") h
      else (err (external 4), h)
