-- ===== src/Platform/Aws/Blobs.antt =====
-- A blob that is put is got, and what a listing shows.
use srv.Prelude.{ℕ, ◌≡◌, refl, ◌++◌, ok, Text, codes}
use srv.Platform.Config.{Environment}
use srv.Platform.Aws.{
  S3, Age, Disk, s3_get_client, blob_path, s3_get_encrypted_blob, s3_put_encrypted_blob,
}

-- What S3 promises of an object that was put, and of a listing.
pub record Stores (s3 : S3) : Type 1 where
  pub Up : s3.World → Type 0
  pub put :
      (c : s3.Client) (bucket key type : Text) (n : ℕ) (body : Text) (w : s3.World)
      → Up w
      → (s3.put_object c bucket key type n body w).0 ≡ ok tt
  pub get :
      (c : s3.Client) (bucket key type : Text) (n : ℕ) (body : Text) (w : s3.World)
      → Up w
      → (s3.get_object c bucket key (s3.put_object c bucket key type n body w).1).0 ≡ ok body

module _ (s3 : S3) (age : Age) (env : Environment) where
  -- Over a healthy S3 and with keys of the environment that belong together, where the temporary
  -- file is read back as it was written: a blob is put without an error, and is then got with its
  -- content.
  pub s3_get_encrypted_blob-put :
      (stores : Stores s3) (disk : Disk) (random parent_path blob_name content : Text)
      (w : s3.World)
      → stores.Up w
      → (client : s3.Client) → s3_get_client s3 env ≡ ok client
      → (recipient : age.Recipient) → age.parse_recipient env.age_public_key ≡ ok recipient
      → (identity : age.Identity) → age.parse_identity env.age_secret_key ≡ ok identity
      → (encrypted : Text) (n : ℕ) → age.encrypt recipient random content ≡ ok encrypted
      → age.decrypt identity encrypted ≡ ok content
      → disk.spool (blob_name ++ codes "-*.age") encrypted ≡ ok (n, encrypted)
      → let put = s3_put_encrypted_blob s3 age env disk random parent_path blob_name content w in
        (put.0 ≡ ok tt)
        × ((s3_get_encrypted_blob s3 age env parent_path blob_name put.1).0 ≡ ok content)
  unfolding s3_get_encrypted_blob s3_put_encrypted_blob
  s3_get_encrypted_blob-put stores disk random parent_path blob_name content w up client c recipient
        r identity i encrypted n e f s =
      let path = blob_path env parent_path blob_name in
      let type = codes "application/octet-stream" in
      let got = stores.get client env.aws_bucket path type n encrypted w up in
      rw (r, c, e, s, i, got, f) (stores.put client env.aws_bucket path type n encrypted w up, refl)
