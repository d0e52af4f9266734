-- ===== src/Shared/Storage/S3.antt =====
-- `S3ObjectStorage` of backend/app/shared/storage.py over the client of the service, which is a
-- parameter with a state of its own.
use research_assistant.Base.{
  ℕ, zero, suc, String, Option, none, some, List, [], ◌∷◌, mem, string_eq, if◌then◌else◌, ℤ, pos,
  negsuc, ◌⊎◌, inl, inr,
}
use research_assistant.Base.Text.{◌<>◌}
use research_assistant.Core.Errors.{Result, ok, err, Exn}
use research_assistant.Shared.Storage.{Bytes, ObjectMetadata}

-- What a call of the client raises: ClientError with the code of its response, which is empty if the
-- response has none, a BotoCoreError, or another exception.
pub data ClientRaise : Type 0 where
  client_error : (error_code : String) → Exn → ClientRaise
  botocore_error : Exn → ClientRaise
  another : Exn → ClientRaise

abbrev pub raised : ClientRaise → Exn
raised (client_error error_code e) = e
raised (botocore_error e) = e
raised (another e) = e

-- `response.get("ContentLength", 0)`, and the two others.
pub record HeadResponse : Type 0 where
  pub content_length : Option ℕ
  pub e_tag : Option String
  pub content_type : Option String

-- `boto3.client("s3", …)`. A presigned URL is computed from the keys without a request.
pub record S3Client (S : Type 0) : Type 0 where
  pub generate_presigned_url :
      (method bucket key : String)
      → (content_type : Option String) → (expires_in : ℕ) → Result String
  pub put_object :
      (bucket key : String) → Bytes → (content_type : String) → S → (ClientRaise ⊎ Unit {0}) × S
  pub get_object : (bucket key : String) → (range : Option String) → S → ClientRaise ⊎ Bytes
  pub head_object : (bucket key : String) → S → ClientRaise ⊎ HeadResponse
  pub delete_object : (bucket key : String) → S → (ClientRaise ⊎ Unit {0}) × S

-- `str` of an integer less one
unfoldable pub less_one : (str : ℕ → String) → ℤ → String
less_one str (pos zero) = "-1"
less_one str (pos (suc n)) = str n
less_one str (negsuc n) = "-" <> str (suc (suc n))

abbrev or_zero : Option ℕ → ℕ
or_zero none = 0
or_zero (some n) = n

abbrev missing_codes : List String
missing_codes = "404" ∷ "NoSuchKey" ∷ "NotFound" ∷ []

abbrev or_raise {ℓ} : {A : Type ℓ} → ClientRaise ⊎ A → Result A
or_raise (inl e) = err (raised e)
or_raise (inr a) = ok a

-- `head` of an answer of the client
unfoldable pub head_answer : ClientRaise ⊎ HeadResponse → Result (Option ObjectMetadata)
unfolding mem
head_answer (inl (client_error error_code e)) =
    if mem error_code missing_codes then ok none else err e
head_answer (inl (botocore_error e)) = err e
head_answer (inl (another e)) = err e
head_answer (inr response) = ok (
    some (record {
      size_bytes = or_zero response.content_length;
      etag = response.e_tag;
      content_type = response.content_type;
    }))

-- `delete` of an answer of the client
unfoldable pub delete_answer : ClientRaise ⊎ Unit {0} → Result (Unit {0})
delete_answer (inl (client_error error_code e)) = ok tt
delete_answer (inl (botocore_error e)) = ok tt
delete_answer (inl (another e)) = err e
delete_answer (inr u) = ok tt

module _ {S : Type 0} (str : ℕ → String) (client : S3Client S) (bucket : String) where
  unfoldable pub s3_presign_put : (key content_type : String) (expires_in : ℕ) → Result String
  s3_presign_put key content_type expires_in =
      client.generate_presigned_url "put_object" bucket key (some content_type) expires_in

  unfoldable pub s3_presign_get : (key : String) (expires_in : ℕ) → Result String
  s3_presign_get key expires_in =
      client.generate_presigned_url "get_object" bucket key none expires_in

  unfoldable pub s3_put_bytes :
      (key : String) → Bytes → (content_type : String) → S → Result (Unit {0}) × S
  s3_put_bytes key content content_type state =
      let (answer, after) = client.put_object bucket key content content_type state in
      (or_raise answer, after)

  unfoldable pub range_of : Option ℤ → Option String
  unfolding less_one
  range_of none = none
  range_of (some limit) = some ("bytes=0-" <> less_one str limit)

  unfoldable pub s3_get_bytes : (key : String) (limit : Option ℤ) → S → Result Bytes
  unfolding range_of
  s3_get_bytes key limit state = or_raise (client.get_object bucket key (range_of limit) state)

  unfoldable pub s3_head : (key : String) → S → Result (Option ObjectMetadata)
  unfolding head_answer
  s3_head key state = head_answer (client.head_object bucket key state)

  unfoldable pub s3_delete : (key : String) → S → Result (Unit {0}) × S
  unfolding delete_answer
  s3_delete key state =
      let (answer, after) = client.delete_object bucket key state in (delete_answer answer, after)
