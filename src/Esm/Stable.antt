-- ===== src/Esm/Stable.antt =====
-- The modules that `module_resolve_callback` of src/v8/module.rs gives, over a series of imports.
use nano_rs.Common.{
  ◌≡◌, refl, sym, ap, subst, ◌∙◌, false, Option, none, some, List, [], ◌∷◌, Text, bytes, str_eq,
  str_eq_refl, str_eq_iff, get, put, get-put, Bool-cases, inl, inr,
}
use nano_rs.Vfs.Isolate.{IsolateVfs}
use nano_rs.Esm.{
  ModuleLoader, Engine, new_loader, Resolved, out_of_bounds, resolved, resolve_import_path, is_any,
  drop_last, is_circular_import, push_loading, pop_loading, compile_loading, load_module_from_vfs,
  import_path, import_specifier, builtin_module_id, module_resolve_callback,
}

module _ {M : Type 0} (e : Engine M) where
  abbrev pub run : List Text → Option (ModuleLoader M) → Option (ModuleLoader M)
  run [] loader = loader
  run (specifier ∷ rest) loader = run rest (module_resolve_callback e specifier loader).1

  -- A loader over a file system, between two imports.
  record IsIdle (vfs : IsolateVfs) (l : ModuleLoader M) : Type 0 where
    same_vfs : l.vfs ≡ vfs
    none_loading : l.loading_stack ≡ []

  -- A loader that has what another one has cached.
  abbrev Keeps : ModuleLoader M → ModuleLoader M → Type 0
  Keeps l l' =
      (path : Text) (compiled : M)
      → get path l.module_cache ≡ some compiled
      → get path l'.module_cache ≡ some compiled

  drop_pushed :
      (l : ModuleLoader M) (path : Text)
      → l.loading_stack ≡ []
      → (pop_loading (push_loading path l)).loading_stack ≡ []
  unfolding push_loading pop_loading drop_last
  drop_pushed l path h = rw (h) refl

  -- What an import leaves: the loader is idle, keeps its modules, and has the one it gave.
  record Imported (vfs : IsolateVfs) (path : Text) (l : ModuleLoader M)
      (r : Option M × ModuleLoader M) : Type 0 where
    idle : IsIdle vfs r.1
    keeps : Keeps l r.1
    cached : (compiled : M) → r.0 ≡ some compiled → get path r.1.module_cache ≡ some compiled

  idle-is_circular_import :
      (path : Text) (l : ModuleLoader M) → l.loading_stack ≡ [] → is_circular_import path l ≡ false
  unfolding is_circular_import is_any
  idle-is_circular_import path l h = ap (is_any path) h

  put-keeps :
      (path other : Text) (compiled known : M) (cache : List (Text × M))
      → get path cache ≡ none
      → get other cache ≡ some known
      → get other (put path compiled cache) ≡ some known
  put-keeps path other compiled known cache new h =
      get-put path other compiled cache ∙ elim (Bool-cases (str_eq path other)) [
        | inl f ↦ absurd (cc (new, h, (str_eq_iff path other).0 f))
        | inr f ↦ rw (f) h
      ]

  Imported-none :
      (vfs : IsolateVfs) (path : Text) (l : ModuleLoader M)
      → IsIdle vfs l
      → Imported vfs path l (none, l)
  Imported-none vfs path l i = record {
    idle = i;
    keeps = λ _ _ h. h;
    cached = λ compiled h. absurd (cc h);
  }

  Imported-compile :
      (vfs : IsolateVfs) (path code : Text) (l : ModuleLoader M)
      → get path l.module_cache ≡ none
      → IsIdle vfs l
      → Imported vfs path l (compile_loading e path code l)
  unfolding compile_loading push_loading pop_loading drop_last
  Imported-compile vfs path code l new i = go (e.compile l.compilations path code) refl
    where
      idle_after :
          (l' : ModuleLoader M)
          → l'.vfs ≡ l.vfs
          → l'.loading_stack ≡ (pop_loading (push_loading path l)).loading_stack
          → IsIdle vfs l'
      idle_after l' v s = record {
        same_vfs = v ∙ i.same_vfs;
        none_loading = s ∙ drop_pushed l path i.none_loading;
      }

      go :
          (r : Option M)
          → e.compile l.compilations path code ≡ r
          → Imported vfs path l (compile_loading e path code l)
      go none f =
          rw (compile_loading, f)
            (record {
              idle = idle_after _ refl refl;
              keeps = λ _ _ h. h;
              cached = λ compiled h. absurd (cc h);
            })
      go (some compiled) f =
          rw (compile_loading, f)
            (record {
              idle = idle_after _ refl refl;
              keeps = λ other known h. put-keeps path other compiled known l.module_cache new h;
              cached =
                  λ known h. get-put path path compiled l.module_cache ∙ rw (str_eq_refl path) h;
            })

  imported :
      (vfs : IsolateVfs) (path : Text) (l : ModuleLoader M)
      → IsIdle vfs l
      → Imported vfs path l (import_path e path l)
  unfolding import_path
  imported vfs path l i = cache_case (get path l.module_cache) refl
    where
      idle : is_circular_import path l ≡ false
      idle = idle-is_circular_import path l i.none_loading

      code_case :
          get path l.module_cache ≡ none
          → (r : Option Text) → load_module_from_vfs e path l ≡ r
          → Imported vfs path l (import_path e path l)
      code_case new none f = rw (import_path, idle, new, f) (Imported-none vfs path l i)
      code_case new (some code) f =
          rw (import_path, idle, new, f) (Imported-compile vfs path code l new i)

      cache_case :
          (r : Option M) → get path l.module_cache ≡ r → Imported vfs path l (import_path e path l)
      cache_case none f = code_case f (load_module_from_vfs e path l) refl
      cache_case (some compiled) f =
          rw (import_path, idle, f)
            (record { idle = i; keeps = λ _ _ h. h; cached = λ known h. f ∙ h })

  -- So too for a specifier; a path that does not resolve leaves the loader as it is.
  imported_specifier :
      (vfs : IsolateVfs) (specifier : Text) (l : ModuleLoader M)
      → IsIdle vfs l
      → IsIdle vfs (import_specifier e specifier l).1 × Keeps l (import_specifier e specifier l).1
  unfolding import_specifier
  imported_specifier vfs specifier l i =
      go (resolve_import_path l.vfs (bytes "/handler.js") specifier) refl
    where
      go :
          (r : Resolved)
          → resolve_import_path l.vfs (bytes "/handler.js") specifier ≡ r
          → IsIdle vfs (import_specifier e specifier l).1
            × Keeps l (import_specifier e specifier l).1
      go (out_of_bounds _ _) f = rw (import_specifier, f) (i, λ _ _ h. h)
      go (resolved path) f =
          let r = imported vfs path l i in rw (import_specifier, f) (r.idle, r.keeps)

  -- The loader after an import, builtins included.
  abbrev Next : IsolateVfs → ModuleLoader M → Option (ModuleLoader M) → Type 0
  Next vfs l loader = (l' : ModuleLoader M) × (loader ≡ some l') × IsIdle vfs l' × Keeps l l'

  next :
      (vfs : IsolateVfs) (specifier : Text) (l : ModuleLoader M)
      → IsIdle vfs l
      → Next vfs l (module_resolve_callback e specifier (some l)).1
  unfolding module_resolve_callback
  next vfs specifier l i = go (builtin_module_id e specifier) refl
    where
      go :
          (r : Option Text)
          → builtin_module_id e specifier ≡ r
          → Next vfs l (module_resolve_callback e specifier (some l)).1
      go (some id) f = rw (module_resolve_callback, f) (l, refl, i, λ _ _ h. h)
      go none f =
          let (i', keeps) = imported_specifier vfs specifier l i in
          rw (module_resolve_callback, f) ((import_specifier e specifier l).1, refl, i', keeps)

  run-Next :
      (vfs : IsolateVfs) (specifiers : List Text) (l : ModuleLoader M)
      → IsIdle vfs l
      → Next vfs l (run specifiers (some l))
  run-Next vfs [] l i = (l, refl, i, λ _ _ h. h)
  run-Next vfs (specifier ∷ rest) l i =
      let (l1, e1, i1, k1) = next vfs specifier l i in
      let (l2, e2, i2, k2) = run-Next vfs rest l1 i1 in
      (l2, ap (run rest) e1 ∙ e2, i2, λ path compiled h. k2 path compiled (k1 path compiled h))

  -- A cached path is given from the cache.
  import-cached :
      (vfs : IsolateVfs) (specifier path : Text) (compiled : M) (l : ModuleLoader M)
      → IsIdle vfs l
      → builtin_module_id e specifier ≡ none
      → resolve_import_path vfs (bytes "/handler.js") specifier ≡ resolved path
      → get path l.module_cache ≡ some compiled
      → (module_resolve_callback e specifier (some l)).0 ≡ some compiled
  unfolding module_resolve_callback import_specifier import_path
  import-cached vfs specifier path compiled l i plain to_path known =
      let to_path' : resolve_import_path l.vfs (bytes "/handler.js") specifier ≡ resolved path =
        ap (λ v. resolve_import_path v (bytes "/handler.js") specifier) i.same_vfs ∙ to_path in
      rw
        (
          module_resolve_callback,
          plain,
          import_specifier,
          to_path',
          import_path,
          idle-is_circular_import path l i.none_loading,
          known,
        )
        refl

  -- The path of a module that was given, and its place in the cache.
  given-cached :
      (vfs : IsolateVfs) (specifier : Text) (compiled : M) (l : ModuleLoader M)
      → IsIdle vfs l
      → builtin_module_id e specifier ≡ none
      → (module_resolve_callback e specifier (some l)).0 ≡ some compiled
      → (path : Text) × (l' : ModuleLoader M) × (resolve_import_path vfs
            (bytes "/handler.js")
            specifier
          ≡ resolved path)
        × ((module_resolve_callback e specifier (some l)).1 ≡ some l')
        × (get path l'.module_cache ≡ some compiled)
        × IsIdle vfs l'
  unfolding module_resolve_callback import_specifier
  given-cached vfs specifier compiled l i plain given =
      go (resolve_import_path l.vfs (bytes "/handler.js") specifier) refl
    where
      go :
          (r : Resolved)
          → resolve_import_path l.vfs (bytes "/handler.js") specifier ≡ r
          → (path : Text) × (l' : ModuleLoader M) × (resolve_import_path vfs
                (bytes "/handler.js")
                specifier
              ≡ resolved path)
            × ((module_resolve_callback e specifier (some l)).1 ≡ some l')
            × (get path l'.module_cache ≡ some compiled)
            × IsIdle vfs l'
      go (out_of_bounds _ _) f =
          absurd (cc (rw (module_resolve_callback, plain, import_specifier, f) at given))
      go (resolved path) f =
          let r = imported vfs path l i in
          (
            path,
            (import_path e path l).1,
            ap (λ v. resolve_import_path v (bytes "/handler.js") specifier) (sym i.same_vfs) ∙ f,
            rw (module_resolve_callback, plain, import_specifier, f) refl,
            r.cached compiled (rw (module_resolve_callback, plain, import_specifier, f) at given),
            r.idle,
          )

  -- An import that is no builtin and was given a module gets this module again, after any series
  -- of further imports.
  pub module_resolve_callback-again :
      (vfs : IsolateVfs) (before after : List Text) (specifier : Text) (compiled : M)
      (l : ModuleLoader M)
      → builtin_module_id e specifier ≡ none
      → run before (some (new_loader vfs)) ≡ some l
      → (module_resolve_callback e specifier (some l)).0 ≡ some compiled
      → (module_resolve_callback e specifier (run (specifier ∷ after) (some l))).0 ≡ some compiled
  module_resolve_callback-again vfs before after specifier compiled l plain ran given =
      let start : IsIdle vfs (new_loader vfs) = record { same_vfs = refl; none_loading = refl } in
      let (l', reached, i', _) = run-Next vfs before (new_loader vfs) start in
      let same : l' ≡ l = cc (sym reached ∙ ran) in
      let i = subst (IsIdle vfs) same i' in
      let (path, l1, to_path, stepped, known, i1) =
        given-cached vfs specifier compiled l i plain given in
      let (l2, ran2, i2, keeps) = run-Next vfs after l1 i1 in
      ap (λ loader. (module_resolve_callback e specifier loader).0) (ap (run after) stepped ∙ ran2)
      ∙ import-cached vfs specifier path compiled l2 i2 plain to_path (keeps path compiled known)
