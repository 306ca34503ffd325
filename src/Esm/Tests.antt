-- ===== src/Esm/Tests.antt =====
-- The loader of modules at concrete values.
use nano_rs.Common.{
  ◌≡◌, ◌≢◌, ◌↔◌, refl, false, none, some, [], ◌∷◌, ◌++◌, Text, bytes, length, contains, get, put,
  All, str_eq, strip_prefix, has_text,
}
use nano_rs.Vfs.Types.{VfsFile, test_limits}
use nano_rs.Vfs.Path.{
  split, split_parts, split_last, normalize, join_parts, any_dotdot, trim_start, trim_end,
}
use nano_rs.Vfs.Path
use nano_rs.Vfs.Memory.{MemoryBackend}
use nano_rs.Vfs.Memory
use nano_rs.Vfs.Isolate.{IsolateVfs, prefix_namespace}
use nano_rs.Vfs.Isolate
use nano_rs.Esm.{
  esm, detect_module_type, Engine, ModuleLoader, new_loader, out_of_bounds, resolved,
  resolve_import_path, starts_with, base_components, module_resolve_callback, walk, move_of,
  base_dir, is_component, with_extension, found, import_specifier, import_path, is_circular_import,
  is_any, load_module_from_vfs, compile_loading, push_loading, pop_loading, drop_last,
  builtin_module_id,
}
use nano_rs.Esm.Bounds.{Escapes, resolve_import_path-out_of_bounds}
use nano_rs.Esm.Rooted.{IsRooted, resolve_import_path-IsRooted}
use nano_rs.Esm.Stable.{run, module_resolve_callback-again}

abbrev source_file : VfsFile
source_file = record { content = bytes "export 1"; created_at = 1; modified_at = 1; size = 8 }

abbrev app_vfs : IsolateVfs
app_vfs = record {
  namespace = bytes "app";
  backend = record {
    storage = (bytes "app::lib/util.js", source_file) ∷ (bytes "app::main.js", source_file) ∷ [];
    limits = test_limits;
    total_bytes = 16;
    file_count = 2;
  };
}

abbrev handler : Text
handler = bytes "/handler.js"

climbing_relative : starts_with (bytes "/") (bytes "./a/../../b") ≡ false
unfolding strip_prefix
climbing_relative = refl

resolve_import_path-out_of_bounds_example :
    (resolve_import_path app_vfs handler (bytes "./a/../../b")
      ≡ out_of_bounds (bytes "./a/../../b") handler)
    ↔ Escapes (length (base_components handler)) (split (bytes "./a/../../b"))
resolve_import_path-out_of_bounds_example =
    resolve_import_path-out_of_bounds app_vfs handler (bytes "./a/../../b") climbing_relative

-- The ending is found.
util : resolve_import_path app_vfs handler (bytes "./lib/util") ≡ resolved (bytes "/lib/util.js")
unfolding resolve_import_path walk move_of base_components base_dir is_component split_last split
    split_parts join_parts with_extension found contains Isolate.exists prefix_namespace
    Memory.exists Path.new normalize any_dotdot trim_start trim_end str_eq strip_prefix get
util = refl

util_relative : starts_with (bytes "/") (bytes "./lib/util") ≡ false
unfolding strip_prefix
util_relative = refl

handler_plain : All (λ c. c ≢ bytes "..") (split (base_dir handler))
unfolding base_dir split_last split split_parts
handler_plain = ((λ e. cc e), tt)

resolve_import_path-IsRooted_example : IsRooted (bytes "/lib/util.js")
resolve_import_path-IsRooted_example =
    resolve_import_path-IsRooted app_vfs handler (bytes "./lib/util") (bytes "/lib/util.js")
      util_relative handler_plain util

-- A module is its number, its path and its code.
abbrev texts : Engine Text
texts = record {
  registered = λ id. false;
  synthetic = λ id. none;
  compile = λ n path code. some (n ∷ path ++ code);
  from_utf8_lossy = λ content. content;
}

abbrev warm_loader : ModuleLoader Text
warm_loader = record {
  vfs = app_vfs;
  module_cache = (bytes "/main.js", 0 ∷ bytes "/main.jsexport 1") ∷ [];
  loading_stack = [];
  compilations = 1;
}

main_first : run texts (bytes "./main" ∷ []) (some (new_loader app_vfs)) ≡ some warm_loader
unfolding module_resolve_callback import_specifier import_path is_circular_import is_any
    load_module_from_vfs compile_loading builtin_module_id push_loading pop_loading drop_last
    resolve_import_path walk move_of base_components base_dir is_component split_last split
    split_parts join_parts with_extension found contains Isolate.exists Isolate.read Memory.read
    prefix_namespace Memory.exists Path.new normalize any_dotdot trim_start trim_end str_eq
    strip_prefix get put
main_first = refl

util_given :
    (module_resolve_callback texts (bytes "./lib/util") (some warm_loader)).0
    ≡ some (1 ∷ bytes "/lib/util.jsexport 1")
unfolding module_resolve_callback import_specifier import_path is_circular_import is_any
    load_module_from_vfs compile_loading builtin_module_id push_loading pop_loading drop_last
    resolve_import_path walk move_of base_components base_dir is_component split_last split
    split_parts join_parts with_extension found contains Isolate.exists Isolate.read Memory.read
    prefix_namespace Memory.exists Path.new normalize any_dotdot trim_start trim_end str_eq
    strip_prefix get put
util_given = refl

util_no_builtin : builtin_module_id texts (bytes "./lib/util") ≡ none
unfolding builtin_module_id strip_prefix
util_no_builtin = refl

module_resolve_callback-again_example :
    (module_resolve_callback texts
      (bytes "./lib/util")
      (run texts (bytes "./lib/util" ∷ bytes "./main.js" ∷ []) (some warm_loader))).0
    ≡ some (1 ∷ bytes "/lib/util.jsexport 1")
module_resolve_callback-again_example =
    module_resolve_callback-again texts app_vfs (bytes "./main" ∷ []) (bytes "./main.js" ∷ [])
      (bytes "./lib/util") (1 ∷ bytes "/lib/util.jsexport 1") warm_loader util_no_builtin main_first
      util_given

minified : detect_module_type (bytes "a;export{b}") ≡ esm
unfolding detect_module_type has_text strip_prefix
minified = refl
