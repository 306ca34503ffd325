-- ===== src/Http/Serve.antt =====
-- What a route serves: `HandlerType` and `RouteTarget::handle` of src/http/router.rs.
pub mod Files
pub mod Confined
use nano_rs.Common.{
  ℕ, Bool, true, false, ◌||◌, Option, none, some, List, [], ◌∷◌, ◌++◌, Text, bytes, is_empty, get,
  str_eq, ◌==◌, if◌then◌else◌,
}
use nano_rs.Config.Hostname.{contains_dotdot}
use nano_rs.Http.Types.{
  NanoResponse, ok, not_found, with_header, with_body, content_type, content_type_from_ext,
}

-- Files of a VFS by their paths, each with its content and its type.
abbrev pub FileMap : Type 0
FileMap = List (Text × (Text × Text))

pub data HandlerType : Type 0 where
  static_response : (response : Text) → HandlerType
  winter_tc_handler : (entrypoint : Text) → HandlerType
  winter_tc_sliver_handler : (entrypoint hostname : Text) → HandlerType
  vfs_static_files : (files : FileMap) → (default_file : Option Text) → HandlerType
  static_file : (path type : Text) → HandlerType
  static_dir : (root default_file : Text) → HandlerType

-- What the routes use: files of the disk, as bytes and as text, `Path::extension`, and a run of a
-- script in an isolate of its own, for a request of which the path is modelled.
pub record Outside : Type 0 where
  pub read : Text → Option Text
  pub read_to_string : Text → Option Text
  pub extension : Text → Text
  pub execute_js_standalone : Text → Text → NanoResponse

-- A response with content and its type.
unfoldable pub respond : Text × Text → NanoResponse
unfolding ok with_header
respond (content, type) = with_body content (with_header content_type type ok)

abbrev pub is_root : Text → Bool
is_root path = str_eq path (bytes "/") || is_empty path

-- `strip_prefix('/')`, or else the path.
abbrev pub strip_slash : Text → Text
strip_slash [] = []
strip_slash (c ∷ s) = if c == b'/' then s else c ∷ s

abbrev pub default_of : Option Text → Text
default_of none = bytes "index.html"
default_of (some name) = name

unfoldable pub lookup_path : Text → Option Text → Text
unfolding str_eq
lookup_path path default_file = if is_root path then default_of default_file else strip_slash path

abbrev pub entry_points : List Text
entry_points =
    bytes "index.js"
    ∷ bytes "app.js"
    ∷ bytes "main.js"
    ∷ bytes "server.js"
    ∷ bytes "index.html"
    ∷ bytes "index.htm"
    ∷ []

-- The loop over the entry points.
unfoldable pub first_entry : FileMap → List Text → Option (Text × Text)
unfolding get
first_entry files [] = none
first_entry files (name ∷ names) = elim (get name files) [
  | some file ↦ some file
  | none ↦ first_entry files names
]

-- The last two strategies.
unfoldable pub serve_index : FileMap → Text → NanoResponse
unfolding respond get not_found
serve_index files lookup = elim (get (lookup ++ bytes "/index.html") files) [
  | some file ↦ respond file
  | none ↦ elim (get (lookup ++ bytes ".html") files) [
    | some file ↦ respond file
    | none ↦ not_found
  ]
]

unfoldable pub serve_vfs : FileMap → Option Text → Text → NanoResponse
unfolding respond get lookup_path first_entry serve_index
serve_vfs files default_file path =
    let lookup = lookup_path path default_file in
    elim (get lookup files) [
      | some file ↦ respond file
      | none ↦
          if is_root path
          then elim (first_entry files entry_points) [
            | some file ↦ respond file
            | none ↦ serve_index files lookup
          ]
          else serve_index files lookup
    ]

-- The file that a directory gives for a path; `none` if the path is blocked.
unfoldable pub dir_path : Text → Text → Text → Option Text
unfolding contains_dotdot
dir_path root default_file path =
    if is_root path
    then some (root ++ (b'/' ∷ default_file))
    else if contains_dotdot (strip_slash path)
    then none
    else some (root ++ (b'/' ∷ strip_slash path))

-- The type of the content from the extension.
unfoldable pub serve_dir : Outside → Text → Text → Text → NanoResponse
unfolding dir_path respond content_type_from_ext not_found
serve_dir outside root default_file path = elim (dir_path root default_file path) [
  | none ↦ not_found
  | some file ↦ elim (outside.read file) [
    | none ↦ not_found
    | some content ↦ respond (content, content_type_from_ext (outside.extension file))
  ]
]

abbrev pub plain : Text
plain = bytes "text/plain"

-- The answer to a request for a path.
unfoldable pub handle : Outside → HandlerType → Text → NanoResponse
unfolding respond not_found with_header serve_vfs serve_dir
handle outside (static_response response) path =
    if is_empty response
    then with_body (bytes "Not Found") (with_header content_type plain not_found)
    else respond (response, plain)
handle outside (winter_tc_handler entrypoint) path = outside.execute_js_standalone entrypoint path
handle outside (winter_tc_sliver_handler entrypoint hostname) path =
    outside.execute_js_standalone entrypoint path
handle outside (vfs_static_files files default_file) path = serve_vfs files default_file path
handle outside (static_file file type) path = elim (outside.read_to_string file) [
  | none ↦ not_found
  | some content ↦ respond (content, type)
]
handle outside (static_dir root default_file) path = serve_dir outside root default_file path
