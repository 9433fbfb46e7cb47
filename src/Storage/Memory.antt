-- ===== src/Storage/Memory.antt =====
-- A bucket in memory that meets the laws of the S3 client.
use Prim.Native.String
use talent_flow_ai_backend.Prelude.{refl, insert, without}
use talent_flow_ai_backend.Async.{ok}
use talent_flow_ai_backend.Storage.{S3Client, S3Laws}

abbrev pub memory : S3Client
memory = record {
  put_object = λ bucket key body content_type b. (ok tt, insert key body b);
  delete_object = λ bucket key b. (ok tt, without key b);
  get_signed_url = λ bucket key expires_in b. (ok (String.◌++◌ "https://signed/" key), b);
}

pub memory-S3Laws : S3Laws memory
memory-S3Laws = record {
  put_object_ok = λ bucket key body content_type b h. refl;
  delete_object_ok = λ bucket key b h. refl;
  get_signed_url_keeps = λ bucket key expires_in b. refl;
}
