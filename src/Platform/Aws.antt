-- ===== src/Platform/Aws.antt =====
-- Encrypted blobs in S3. The SDK of AWS, the library age and the temporary file are parameters.
pub mod Blobs
use srv.Prelude.{
  ℕ, ◌==◌, Option, none, some, List, [], ◌∷◌, ◌++◌, Result, ok, err, Exec, lift, ◌>>=◌, ◌>>◌, Text,
  codes, if◌then◌else◌,
}
use srv.Platform.Config.{Environment}
use srv.Platform.Orm.Scan.{trim_prefix}

-- The client is made of the two keys and the region; a listing may have a prefix.
pub record S3 : Type 1 where
  pub World : Type 0
  pub Client : Type 0
  pub load_default_config : Text → Text → Text → Result Client
  pub get_object : Client → Text → Text → Exec World Text
  -- The bucket, the key, the type and the length of the content, and the content.
  pub put_object : Client → Text → Text → Text → ℕ → Text → Exec World (Unit {0})
  pub delete_object : Client → Text → Text → Exec World (Unit {0})
  pub list_objects : Client → Text → Option Text → Exec World (List Text)

-- The encryption draws on random bytes.
pub record Age : Type 1 where
  pub Identity : Type 0
  pub Recipient : Type 0
  pub parse_identity : Text → Result Identity
  pub parse_recipient : Text → Result Recipient
  pub encrypt : Recipient → Text → Text → Result Text
  pub decrypt : Identity → Text → Result Text

-- A temporary file with a pattern for its name: what is written is read back with its size.
pub record Disk : Type 0 where
  pub spool : Text → Text → Result (ℕ × Text)

unfoldable pub s3_get_client : (s3 : S3) → Environment → Result s3.Client
s3_get_client s3 env = s3.load_default_config env.aws_access_key env.aws_secret_key env.aws_region

-- The folder of the server, the parent when there is one, and the name.
unfoldable pub blob_path : Environment → Text → Text → Text
blob_path env [] blob_name = env.aws_root_path ++ b'/' ∷ blob_name
blob_path env (c ∷ parent) blob_name = env.aws_root_path ++ b'/' ∷ (c ∷ parent) ++ b'/' ∷ blob_name

module _ (s3 : S3) (age : Age) (env : Environment) where
  unfoldable pub s3_get_encrypted_blob : Text → Text → Exec s3.World Text
  unfolding s3_get_client blob_path
  s3_get_encrypted_blob parent_path blob_name = do
    myself ← lift (age.parse_identity env.age_secret_key)
    client ← lift (s3_get_client s3 env)
    body ← s3.get_object client env.aws_bucket (blob_path env parent_path blob_name)
    lift (age.decrypt myself body)

  -- The error of the last flush of the encryption is dropped in the source; it is none here.
  unfoldable pub s3_put_encrypted_blob : Disk → Text → Text → Text → Text → Exec s3.World (Unit {0})
  unfolding s3_get_client blob_path
  s3_put_encrypted_blob disk random parent_path blob_name content = do
    myself ← lift (age.parse_recipient env.age_public_key)
    client ← lift (s3_get_client s3 env)
    encrypted ← lift (age.encrypt myself random content)
    file ← lift (disk.spool (blob_name ++ codes "-*.age") encrypted)
    s3.put_object client env.aws_bucket (blob_path env parent_path blob_name)
        (codes "application/octet-stream") file.0 file.1

  unfoldable pub s3_delete_blob : Text → Text → Exec s3.World (Unit {0})
  unfolding s3_get_client blob_path
  s3_delete_blob parent_path blob_name = do
    client ← lift (s3_get_client s3 env)
    s3.delete_object client env.aws_bucket (blob_path env parent_path blob_name)

  -- The names that are left of the keys, without the empty ones.
  unfoldable pub names_of : Text → List Text → List Text
  names_of prefix [] = []
  names_of prefix (key ∷ keys) =
      let rest = names_of prefix keys in
      elim (trim_prefix key prefix) [ [] ↦ rest | c ∷ name ↦ (c ∷ name) ∷ rest ]

  -- Without a parent, the listing has no prefix: it is of the whole bucket.
  unfoldable pub s3_list_blobs : Text → Exec s3.World (List Text)
  unfolding s3_get_client names_of
  s3_list_blobs [] = do
    client ← lift (s3_get_client s3 env)
    keys ← s3.list_objects client env.aws_bucket none
    lift (ok (names_of (env.aws_root_path ++ b'/' ∷ []) keys))
  s3_list_blobs (c ∷ parent) =
      let prefix = env.aws_root_path ++ b'/' ∷ (c ∷ parent) ++ b'/' ∷ [] in
      (do
        client ← lift (s3_get_client s3 env)
        keys ← s3.list_objects client env.aws_bucket (some prefix)
        lift (ok (names_of prefix keys)))
