-- ===== src/Http/Types.antt =====
-- `NanoResponse` and the types of content of src/http/types.rs.
use nano_rs.Common.{ℕ, Option, none, some, List, [], ◌∷◌, Text, bytes, get, to_lowercase}
use nano_rs.Http.Headers.{NanoHeaders, set}
use nano_rs.Http.Headers

pub record NanoResponse : Type 0 where
  pub status : ℕ
  pub headers : NanoHeaders
  pub body : Option Text
  pub worker_id : Option ℕ
  pub isolate_id : Option Text

unfoldable pub with_status : ℕ → NanoResponse
unfolding Headers.new
with_status status = record {
  status = status;
  headers = Headers.new;
  body = none;
  worker_id = none;
  isolate_id = none;
}

unfoldable pub ok : NanoResponse
unfolding with_status
ok = with_status 200

unfoldable pub not_found : NanoResponse
unfolding with_status
not_found = with_status 404

unfoldable pub with_header : Text → Text → NanoResponse → NanoResponse
unfolding set
with_header name value r = record r { headers = set name value r.headers }

abbrev pub with_body : Text → NanoResponse → NanoResponse
with_body body r = record r { body = some body }

abbrev pub content_type : Text
content_type = bytes "Content-Type"

-- The extensions, in lower case, with their types.
abbrev content_types : List (Text × Text)
content_types =
    (bytes "html", bytes "text/html; charset=utf-8")
    ∷ (bytes "htm", bytes "text/html; charset=utf-8")
    ∷ (bytes "css", bytes "text/css; charset=utf-8")
    ∷ (bytes "js", bytes "application/javascript; charset=utf-8")
    ∷ (bytes "mjs", bytes "application/javascript; charset=utf-8")
    ∷ (bytes "json", bytes "application/json; charset=utf-8")
    ∷ (bytes "xml", bytes "application/xml; charset=utf-8")
    ∷ (bytes "txt", bytes "text/plain; charset=utf-8")
    ∷ (bytes "md", bytes "text/markdown; charset=utf-8")
    ∷ (bytes "svg", bytes "image/svg+xml; charset=utf-8")
    ∷ (bytes "png", bytes "image/png")
    ∷ (bytes "jpg", bytes "image/jpeg")
    ∷ (bytes "jpeg", bytes "image/jpeg")
    ∷ (bytes "gif", bytes "image/gif")
    ∷ (bytes "webp", bytes "image/webp")
    ∷ (bytes "ico", bytes "image/x-icon")
    ∷ (bytes "bmp", bytes "image/bmp")
    ∷ (bytes "tiff", bytes "image/tiff")
    ∷ (bytes "tif", bytes "image/tiff")
    ∷ (bytes "avif", bytes "image/avif")
    ∷ (bytes "woff2", bytes "font/woff2")
    ∷ (bytes "woff", bytes "font/woff")
    ∷ (bytes "ttf", bytes "font/ttf")
    ∷ (bytes "otf", bytes "font/otf")
    ∷ (bytes "eot", bytes "application/vnd.ms-fontobject")
    ∷ (bytes "pdf", bytes "application/pdf")
    ∷ (bytes "zip", bytes "application/zip")
    ∷ (bytes "gz", bytes "application/gzip")
    ∷ (bytes "gzip", bytes "application/gzip")
    ∷ (bytes "tar", bytes "application/x-tar")
    ∷ (bytes "bz2", bytes "application/x-bzip2")
    ∷ (bytes "7z", bytes "application/x-7z-compressed")
    ∷ (bytes "rar", bytes "application/x-rar-compressed")
    ∷ (bytes "wasm", bytes "application/wasm")
    ∷ (bytes "mp4", bytes "video/mp4")
    ∷ (bytes "webm", bytes "video/webm")
    ∷ (bytes "mp3", bytes "audio/mpeg")
    ∷ (bytes "ogg", bytes "audio/ogg")
    ∷ (bytes "oga", bytes "audio/ogg")
    ∷ (bytes "ogv", bytes "video/ogg")
    ∷ (bytes "weba", bytes "audio/webm")
    ∷ (bytes "opus", bytes "audio/opus")
    ∷ []

unfoldable pub content_type_from_ext : Text → Text
unfolding get
content_type_from_ext ext = elim (get (to_lowercase ext) content_types) [
  | some type ↦ type
  | none ↦ bytes "application/octet-stream"
]
