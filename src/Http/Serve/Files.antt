-- ===== src/Http/Serve/Files.antt =====
-- The files that a route of a VFS serves.
use nano_rs.Common.{◌≡◌, Option, none, some, List, [], ◌∷◌, ◌++◌, Text, bytes, arith, if◌then◌else◌}
use nano_rs.Http.Types.{NanoResponse, not_found}
use nano_rs.Http.Serve.{
  FileMap, respond, is_root, lookup_path, entry_points, first_entry, serve_index, serve_vfs,
}

-- The names under which a file is looked for, in order.
abbrev pub candidates : Text → Option Text → List Text
candidates path default_file =
    let lookup = lookup_path path default_file in
    let indexes = (lookup ++ bytes "/index.html") ∷ (lookup ++ bytes ".html") ∷ [] in
    lookup ∷ (if is_root path then entry_points ++ indexes else indexes)

abbrev pub first_or_404 : FileMap → List Text → NanoResponse
first_or_404 files names = elim (first_entry files names) [
  | some file ↦ respond file
  | none ↦ not_found
]

-- A route of a VFS answers with the first of the candidates that is there, and with 404 if none is.
pub serve_vfs-candidates :
    (files : FileMap) (default_file : Option Text) (path : Text)
    → serve_vfs files default_file path ≡ first_or_404 files (candidates path default_file)
unfolding serve_vfs first_entry serve_index
serve_vfs-candidates files default_file path = ground arith
