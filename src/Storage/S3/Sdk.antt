-- ===== src/Storage/S3/Sdk.antt =====
-- internal/storage/s3.go: the client of the AWS SDK that `S3` calls, with what it asks of the
-- client's errors and answers.
use nx_cache.Common.{ℕ, Bool, Option, List, Text, Time}
use nx_cache.Storage.Types.{Body}

-- An error that is not nil, as `errors.As` sees it: whether it is a NotFound, a NoSuchKey or a
-- NoSuchBucket, whether it is a BucketAlreadyOwnedByYou or a BucketAlreadyExists, the code of the
-- smithy.APIError in it and the status of the smithyhttp.ResponseError in it.
pub record ClientError : Type 0 where
  pub is_missing : Bool
  pub is_bucket_taken : Bool
  pub code : Option Text
  pub status : Option ℕ

pub data Reply {ℓ} (A : Type ℓ) : Type ℓ where
  reply : A → Reply A
  refused : ClientError → Reply A

-- s3.PutObjectInput
pub record PutInput : Type 0 where
  pub bucket : Text
  pub key : Text
  pub body : Body
  pub content_length : ℕ
  pub content_type : Text
  pub if_none_match : Option Text

-- The error of a PutObject, if any, and how many bytes each read of the body has answered.
pub record PutReply : Type 0 where
  pub error : Option ClientError
  pub reads : List ℕ

-- s3.GetObjectOutput, with the whole of its body.
pub record Content : Type 0 where
  pub bytes : Text
  pub content_length : Option ℕ

-- types.Object
pub record Entry : Type 0 where
  pub key : Option Text
  pub size : Option ℕ
  pub last_modified : Option Time

-- s3.ListObjectsV2Output
pub record Page : Type 0 where
  pub contents : List Entry
  pub is_truncated : Option Bool
  pub next_token : Option Text

-- s3.Client. The answer to DeleteObjects has, beside its error, the keys of its field Errors.
pub record Client : Type 1 where
  pub State : Type 0
  pub head_object : State → Text → Text → Option ClientError
  pub put_object : State → PutInput → PutReply × State
  pub get_object : State → Text → Text → Reply Content
  pub delete_objects : State → Text → List Text → Option ClientError × List Text × State
  pub list_objects : State → Text → Text → Option Text → Reply Page
  pub head_bucket : State → Text → Option ClientError
  pub create_bucket : State → Text → Option ClientError × State
