-- ===== src/DataPlane/Coherence.antt =====
-- When the cache gives what is on the disk.
use nano_rs.Common.{
  ℕ, ◌≡◌, refl, sym, ap, ◌∙◌, none, some, inl, inr, [], Text, get, get-put, str_eq_refl, Entries,
  put-Entries, get-Entries, Option-cases, arith,
}
use nano_rs.DataPlane.{
  Disk, CodeCacheEntry, CodeCache, cached, insert_code, read_and_cache, read_code_cached,
}

-- The time of change of a file determines its content: every disk shows the content of that time.
module _ (content : Text → ℕ → Text) where
  pub record IsTimed (disk : Disk) : Type 0 where
    pub readable :
        (p : Text) (t : ℕ) → disk.modified p ≡ some t → disk.read_to_string p ≡ some (content p t)
    pub timed : (p c : Text) → disk.read_to_string p ≡ some c → (t : ℕ) × (disk.modified p ≡ some t)

  abbrev pub IsTrue : Text → CodeCacheEntry → Type 0
  IsTrue p entry = entry.code ≡ content p entry.modified

  abbrev pub IsCoherent : CodeCache → Type 0
  IsCoherent none = Unit
  IsCoherent (some cache) = Entries IsTrue cache

  cached-eq-some :
      (disk : Disk) (cache : CodeCache) (p c : Text)
      → IsTimed disk
      → IsCoherent cache
      → cached disk cache p ≡ some c
      → disk.read_to_string p ≡ some c
  unfolding cached
  cached-eq-some disk none p c d h e = cc
  cached-eq-some disk (some cache) p c d h e = elim (Option-cases (get p cache)) [
    | inl missing ↦ ground (arith, missing, e)
    | inr (entry, found) ↦
        let right = get-Entries IsTrue p cache entry h found in
        let hit : (disk.modified p ≡ some entry.modified) × (entry.code ≡ c) =
          ground (arith, found, e) in
        d.readable p entry.modified hit.0 ∙ ap some (sym right ∙ hit.1)
  ]

  insert_code-IsCoherent :
      (p : Text) (entry : CodeCacheEntry) (cache : CodeCache)
      → IsCoherent cache
      → IsTrue p entry
      → IsCoherent (insert_code p entry cache)
  unfolding insert_code
  insert_code-IsCoherent p entry none h t = put-Entries IsTrue p entry [] tt t
  insert_code-IsCoherent p entry (some cache) h t = put-Entries IsTrue p entry cache h t

  slow-IsCoherent :
      (disk : Disk) (now : ℕ) (cache : CodeCache) (p : Text)
      → IsTimed disk
      → IsCoherent cache
      → ((read_and_cache disk disk now cache p).0 ≡ disk.read_to_string p)
        × IsCoherent (read_and_cache disk disk now cache p).1
  unfolding read_and_cache
  slow-IsCoherent disk now cache p d h = elim (Option-cases (disk.read_to_string p)) [
    | inl unreadable ↦ rw (unreadable, read_and_cache) (refl, h)
    | inr (code, read) ↦
        let (t, timed) = d.timed p code read in
        let same : code ≡ content p t = ground (arith, read, d.readable p t timed) in
        rw (read, timed, read_and_cache)
          (refl, insert_code-IsCoherent p (record { code = code; modified = t }) cache h same)
  ]

  -- While the disk stays the same during a call, the call gives exactly what the file holds, or the
  -- error, and its cache is coherent again.
  pub read_code_cached-read_to_string :
      (disk : Disk) (now : ℕ) (cache : CodeCache) (p : Text)
      → IsTimed disk
      → IsCoherent cache
      → ((read_code_cached disk disk disk now cache p).0 ≡ disk.read_to_string p)
        × IsCoherent (read_code_cached disk disk disk now cache p).1
  unfolding read_code_cached
  read_code_cached-read_to_string disk now cache p d h = elim (Option-cases (cached disk cache p)) [
    | inr (c, hit) ↦ rw (hit, read_code_cached) (sym (cached-eq-some disk cache p c d h hit), h)
    | inl miss ↦ rw (miss, read_code_cached) (slow-IsCoherent disk now cache p d h)
  ]

inserted-cached :
    (disk : Disk) (p code : Text) (t : ℕ) (cache : CodeCache)
    → disk.modified p ≡ some t
    → cached disk (insert_code p (record { code = code; modified = t }) cache) p ≡ some code
unfolding cached insert_code
inserted-cached disk p code t none e = ground (
  arith,
  e,
  str_eq_refl p,
  get-put {V = CodeCacheEntry} p p (record { code = code; modified = t }) [],
)
inserted-cached disk p code t (some cache) e = ground (
  arith,
  e,
  str_eq_refl p,
  get-put {V = CodeCacheEntry} p p (record { code = code; modified = t }) cache,
)

-- A file that changes between the two steps of the slow path: its old code is stored under its new
-- time, and calls give the old code, until the time changes again.
pub read_code_cached_stale :
    (old new : Disk) (now later t : ℕ) (cache : CodeCache) (p code : Text)
    → cached old cache p ≡ none
    → old.read_to_string p ≡ some code
    → new.modified p ≡ some t
    → let after = (read_code_cached old old new now cache p).1 in
      read_code_cached new new new later after p ≡ (some code, after)
unfolding read_code_cached read_and_cache
read_code_cached_stale old new now later t cache p code miss read changed =
    let stored : (read_code_cached old old new now cache p).1
        ≡ insert_code p (record { code = code; modified = t }) cache =
      rw (miss, read_code_cached, read, read_and_cache, changed) refl in
    rw stored (rw (inserted-cached new p code t cache changed, read_code_cached) refl)
