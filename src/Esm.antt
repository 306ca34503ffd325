-- ===== src/Esm.antt =====
-- The loader of ES modules: `ModuleLoader` and `module_resolve_callback` of src/v8/module.rs. What
-- V8 compiles and the builtin modules are parameters; a text is its bytes. Every compilation of V8
-- makes a module of its own, also of a path and a code that it has compiled before.
pub mod Bounds
pub mod Rooted
pub mod Stable
mod Tests
use mathlib.Core.List.{reverse}
use nano_rs.Common.{
  ℕ, ◌+◌, Bool, true, false, not, ◌&&◌, ◌||◌, Option, none, some, List, [], ◌∷◌, ◌++◌, Text, bytes,
  length, is_empty, str_eq, strip_prefix, has_text, is_some, keep, contains, get, put, ◌==◌,
  if◌then◌else◌,
}
use nano_rs.Vfs.Types.{VfsResult, ok, err}
use nano_rs.Vfs.Path.{split, split_last, join_parts}
use nano_rs.Vfs.Isolate.{IsolateVfs}
use nano_rs.Vfs.Isolate

abbrev pub starts_with : Text → Text → Bool
starts_with p s = is_some (strip_prefix p s)

pub data ModuleType : Type 0 where
  esm script : ModuleType

unfoldable pub detect_module_type : Text → ModuleType
unfolding has_text
detect_module_type code =
    if has_text (bytes "export default") code
      || (has_text (bytes "export ") code
          || (has_text (bytes "export{") code
              || (has_text (bytes "import ") code
                  || (has_text (bytes "import{") code || has_text (bytes "import(") code))))
    then esm
    else script

-- What a component of a specifier does to the path.
pub data Move : Type 0 where
  stay up down : Move

unfoldable pub move_of : Text → Move
unfolding str_eq
move_of component =
    if is_empty component || str_eq component (bytes ".")
    then stay
    else if str_eq component (bytes "..")
    then up
    else down

-- The components after those of the specifier, the last one first. `pop` of an empty list fails.
unfoldable pub walk : List Text → List Text → Option (List Text)
unfolding move_of
walk [] components = some components
walk (component ∷ rest) components = elim (move_of component) [
  | stay ↦ walk rest components
  | up ↦ elim components [ [] ↦ none | _ ∷ components ↦ walk rest components ]
  | down ↦ walk rest (component ∷ components)
]

unfoldable pub base_dir : Text → Text
unfolding split_last
base_dir base_path = elim (split_last base_path) [ some (dir, _) ↦ dir | none ↦ bytes "." ]

unfoldable pub is_component : Text → Bool
unfolding str_eq
is_component component = not (is_empty component || str_eq component (bytes "."))

-- The components of the base directory, the last one first.
unfoldable pub base_components : Text → List Text
unfolding base_dir is_component split
base_components base_path = reverse (keep is_component (split (base_dir base_path)))

unfoldable pub found : IsolateVfs → Text → Bool
unfolding Isolate.exists
found vfs path = elim (Isolate.exists vfs path) [ err _ ↦ false | ok there ↦ there ]

unfoldable pub with_extension : IsolateVfs → Text → Text
unfolding found contains
with_extension vfs path =
    if contains b'.' path
    then path
    else if found vfs (path ++ bytes ".js")
    then path ++ bytes ".js"
    else if found vfs (path ++ bytes ".mjs")
    then path ++ bytes ".mjs"
    else path

pub data Resolved : Type 0 where
  out_of_bounds : (specifier base_path : Text) → Resolved
  resolved : (path : Text) → Resolved

unfoldable pub resolve_import_path : IsolateVfs → Text → Text → Resolved
unfolding walk base_components with_extension strip_prefix
resolve_import_path vfs base_path specifier =
    if starts_with (bytes "/") specifier
    then resolved specifier
    else elim (walk (split specifier) (base_components base_path)) [
      | none ↦ out_of_bounds specifier base_path
      | some components ↦ resolved (with_extension vfs (b'/' ∷ join_parts (reverse components)))
    ]

-- `compilations` is no field of the source: it is how many times V8 has compiled for the loader.
pub record ModuleLoader (M : Type 0) : Type 0 where
  pub vfs : IsolateVfs
  pub module_cache : List (Text × M)
  pub loading_stack : List Text
  pub compilations : ℕ

-- The registered builtins and their synthetic modules; the module that a compilation makes, which
-- depends on how many there were before it, on the path and on its code; the text that is made of
-- the bytes of a file.
pub record Engine (M : Type 0) : Type 0 where
  pub registered : Text → Bool
  pub synthetic : Text → Option M
  pub compile : ℕ → Text → Text → Option M
  pub from_utf8_lossy : List ℕ → Text

unfoldable pub is_any : Text → List Text → Bool
unfolding str_eq
is_any path [] = false
is_any path (other ∷ stack) = str_eq other path || is_any path stack

unfoldable pub drop_last : List Text → List Text
drop_last [] = []
drop_last (p ∷ []) = []
drop_last (p ∷ q ∷ stack) = p ∷ drop_last (q ∷ stack)

module _ {M : Type 0} where
  abbrev pub new_loader : IsolateVfs → ModuleLoader M
  new_loader vfs = record { vfs = vfs; module_cache = []; loading_stack = []; compilations = 0 }

  unfoldable pub is_circular_import : Text → ModuleLoader M → Bool
  unfolding is_any
  is_circular_import path l = is_any path l.loading_stack

  unfoldable pub push_loading : Text → ModuleLoader M → ModuleLoader M
  push_loading path l = record l { loading_stack = l.loading_stack ++ (path ∷ []) }

  unfoldable pub pop_loading : ModuleLoader M → ModuleLoader M
  unfolding drop_last
  pop_loading l = record l { loading_stack = drop_last l.loading_stack }

  abbrev pub get_cached : Text → ModuleLoader M → Option M
  get_cached path l = get path l.module_cache

  abbrev pub cache_module : Text → M → ModuleLoader M → ModuleLoader M
  cache_module path compiled l = record l { module_cache = put path compiled l.module_cache }

  module _ (e : Engine M) where
    unfoldable pub builtin_module_id : Text → Option Text
    unfolding strip_prefix
    builtin_module_id specifier =
        let bare : Text = elim (strip_prefix (bytes "node:") specifier) [
          | some bare ↦ bare
          | none ↦ specifier
        ] in
        if starts_with (bytes ".") specifier || starts_with (bytes "/") specifier
        then none
        else if e.registered bare
        then some bare
        else none

    unfoldable pub load_module_from_vfs : Text → ModuleLoader M → Option Text
    unfolding Isolate.read
    load_module_from_vfs path l = elim (Isolate.read l.vfs path) [
      | err _ ↦ none
      | ok content ↦ some (e.from_utf8_lossy content)
    ]

    -- The code is compiled while its path stands on the stack.
    unfoldable pub compile_loading : Text → Text → ModuleLoader M → Option M × ModuleLoader M
    unfolding push_loading pop_loading put
    compile_loading path code l =
        let l' = push_loading path (record l { compilations = l.compilations + 1 }) in
        elim (e.compile l.compilations path code) [
          | none ↦ (none, pop_loading l')
          | some compiled ↦ (some compiled, pop_loading (cache_module path compiled l'))
        ]

    -- The loader's part of the callback.
    unfoldable pub import_path : Text → ModuleLoader M → Option M × ModuleLoader M
    unfolding is_circular_import load_module_from_vfs compile_loading get
    import_path path l = if is_circular_import path l then (none, l) else elim (get_cached path l) [
      | some compiled ↦ (some compiled, l)
      | none ↦ elim (load_module_from_vfs path l) [
        | none ↦ (none, l)
        | some code ↦ compile_loading path code l
      ]
    ]

    -- Every specifier is resolved as if the handler imported it.
    unfoldable pub import_specifier : Text → ModuleLoader M → Option M × ModuleLoader M
    unfolding resolve_import_path import_path
    import_specifier specifier l =
        elim (resolve_import_path l.vfs (bytes "/handler.js") specifier) [
          | out_of_bounds _ _ ↦ (none, l)
          | resolved path ↦ import_path path l
        ]

    -- The loader is set while V8 links a module.
    unfoldable pub module_resolve_callback :
        Text → Option (ModuleLoader M) → Option M × Option (ModuleLoader M)
    unfolding builtin_module_id import_specifier
    module_resolve_callback specifier loader = elim (builtin_module_id specifier) [
      | some id ↦ (e.synthetic id, loader)
      | none ↦ elim loader [
        | none ↦ (none, none)
        | some l ↦ let (compiled, l') = import_specifier specifier l in (compiled, some l')
      ]
    ]
