-- ===== src/Sliver/Archive/RoundTrip.antt =====
-- What is packed into an archive is unpacked from it.
use mathlib.Core.List.{append_assoc, append-nil}
use nano_rs.Common.{
  ℕ, ◌≡◌, refl, sym, ap, ◌∙◌, ◌≢◌, true, Option, none, some, List, [], ◌∷◌, ◌++◌, map, Text, bytes,
  length, All, str_eq, strip_prefix,
}
use nano_rs.Vfs.Types.{VfsFile}
use nano_rs.Vfs.Path.{split}
use nano_rs.Vfs.Path
use nano_rs.Vfs.Path.Laws.{IsNormal, new_of_IsNormal}
use nano_rs.Sliver.Integrity.{metadata_filename, heap_filename}
use nano_rs.Sliver.Archive.{
  manifest_filename, vfs_prefix, SliverMetadata, SliverResult, SliverError, failed, done, io_error,
  serialization_error, or_fail, ◌>>=◌, TarEntry, Codec, manifest_content, is_supported_version,
  Parts, unsized, fix_sizes, SliverPacker, new_packer, add_entry, add_metadata, add_heap,
  add_vfs_entry, add_vfs_entries, finalize, pack_sliver, unpack_named, unpack_entries, unpack,
}

-- A path with no component that is one dot, which archives leave out.
abbrev pub NoDots : Text → Type 0
NoDots path = All (λ part. part ≢ bytes ".") (split path)

abbrev pub readable : Text × List ℕ → TarEntry
readable (path, content) = record { path = some path; content = some content }

-- What the codec has to do: an archive gives back the entries that it took, under paths without
-- single dots, in their order, and metadata are parsed from their own text.
pub record IsFaithful (C : Codec) : Type 0 where
  pub contents : C.Builder → List (Text × List ℕ)
  pub contents-start : contents C.start ≡ []
  pub contents-append :
      (path : Text) (content : List ℕ) (b b' : C.Builder)
      → NoDots path
      → C.append path content b ≡ some b'
      → contents b' ≡ contents b ++ ((path, content) ∷ [])
  pub entries-finish :
      (b : C.Builder) (archive : List ℕ)
      → C.finish b ≡ some archive
      → C.entries archive ≡ some (map readable (contents b))
  pub from_json-to_json :
      (m : SliverMetadata) (json : List ℕ) → C.to_json m ≡ some json → C.from_json json ≡ some m

abbrev pub Files : Type 0
Files = List (Text × VfsFile)

-- Files that an archive can hold: their paths are in normal form, with no single dot.
abbrev pub AreStorable : Files → Type 0
AreStorable = All (λ entry. IsNormal entry.0 × NoDots entry.0)

abbrev pub archived : Text × VfsFile → Text × List ℕ
archived (path, file) = (vfs_prefix ++ path, file.content)

-- A file as it is unpacked: its content, with the times of the unpacking.
abbrev pub fresh : ℕ → Text × VfsFile → Text × VfsFile
fresh now (path, file) = (
  path,
  record {
    content = file.content;
    created_at = now;
    modified_at = now;
    size = length file.content;
  },
)

>>=-done {ℓ κ} :
    {A : Type ℓ} {B : Type κ} {value : B} (m : SliverResult A) (next : A → SliverResult B)
    → (m >>= next) ≡ done value
    → (first : A) × (m ≡ done first) × (next first ≡ done value)
>>=-done (failed why) next e = cc e
>>=-done (done first) next e = (first, refl, e)

or_fail-done {ℓ} :
    {A : Type ℓ} (why : SliverError) (o : Option A) (value : A)
    → or_fail why o ≡ done value
    → o ≡ some value
or_fail-done why none value e = cc e
or_fail-done why (some v) value e = cc e

NoDots-prefixed : (path : Text) → NoDots path → NoDots (vfs_prefix ++ path)
unfolding split Path.split_parts
NoDots-prefixed path v = ((λ e. cc e), v)

metadata-NoDots : NoDots metadata_filename
unfolding split Path.split_parts
metadata-NoDots = ((λ e. cc e), tt)

heap-NoDots : NoDots heap_filename
unfolding split Path.split_parts
heap-NoDots = ((λ e. cc e), tt)

manifest-NoDots : NoDots manifest_filename
unfolding split Path.split_parts
manifest-NoDots = ((λ e. cc e), tt)

-- A file as it is unpacked, before its size is set.
abbrev loaded : ℕ → Text × VfsFile → Text × VfsFile
loaded now (path, file) = (path, unsized now file.content)

module _ (C : Codec) where
  unpack_file :
      (now : ℕ) (path : Text) (content : List ℕ) (parts : Parts)
      → IsNormal path
      → unpack_named C now (vfs_prefix ++ path) content parts
        ≡ done
            (record parts { vfs_entries = parts.vfs_entries ++ ((path, unsized now content) ∷ []) })
  unfolding unpack_named str_eq strip_prefix
  unpack_file now path content parts n = rw (new_of_IsNormal path n) refl

  unpack_files :
      (now : ℕ) (files : Files) (rest : List (Text × List ℕ)) (parts : Parts)
      → AreStorable files
      → unpack_entries C now (map readable (map archived files ++ rest)) parts
        ≡ unpack_entries C now
            (map readable rest)
            (record parts { vfs_entries = parts.vfs_entries ++ map (loaded now) files })
  unfolding unpack_entries
  unpack_files now [] rest parts s = rw (append-nil parts.vfs_entries) refl
  unpack_files now ((path, file) ∷ files) rest parts (s, ss) =
      let next = record parts {
        vfs_entries = parts.vfs_entries ++ ((path, unsized now file.content) ∷ []);
      } in
      rw
        (
          unpack_file now path file.content parts s.0,
          unpack_files now files rest next ss,
          append_assoc parts.vfs_entries ((path, unsized now file.content) ∷ [])
              (map (loaded now) files),
        )
        refl

  unpack_manifest :
      (now : ℕ) (manifest : List ℕ) (parts : Parts)
      → unpack_entries C now (map readable ((manifest_filename, manifest) ∷ [])) parts ≡ done parts
  unfolding unpack_entries unpack_named str_eq strip_prefix
  unpack_manifest now manifest parts = refl

  fix_sizes-loaded :
      (now : ℕ) (files : Files) → fix_sizes (map (loaded now) files) ≡ map (fresh now) files
  fix_sizes-loaded now [] = refl
  fix_sizes-loaded now (f ∷ files) = ap (λ l. fresh now f ∷ l) (fix_sizes-loaded now files)

module _ (C : Codec) (v : IsFaithful C) where
  add_entry-done :
      (path : Text) (content : List ℕ) (p p' : SliverPacker C)
      → NoDots path
      → add_entry C path content p ≡ done p'
      → v.contents p'.builder ≡ v.contents p.builder ++ ((path, content) ∷ [])
  unfolding add_entry
  add_entry-done path content p p' plain e =
      let (b, made, e') = >>=-done (or_fail io_error (C.append path content p.builder)) _ e in
      let same : b ≡ p'.builder = cc (e') in
      v.contents-append path content p.builder p'.builder plain
        (or_fail-done io_error _ b made ∙ ap some same)

  add_vfs_entries-done :
      (files : Files) (p p' : SliverPacker C)
      → AreStorable files
      → add_vfs_entries C files p ≡ done p'
      → v.contents p'.builder ≡ v.contents p.builder ++ map archived files
  unfolding add_vfs_entries add_vfs_entry
  add_vfs_entries-done [] p p' s e =
      let same : p ≡ p' = cc e in sym (append-nil _ ∙ ap (λ q. v.contents q.builder) same)
  add_vfs_entries-done ((path, file) ∷ files) p p' (s, ss) e =
      let (q, added, e') = >>=-done (add_vfs_entry C path file p) _ e in
      let first = add_entry-done _ file.content p q (NoDots-prefixed path s.1) added in
      add_vfs_entries-done files q p' ss e'
      ∙ ap (λ l. l ++ map archived files) first
      ∙ append_assoc (v.contents p.builder) (archived (path, file) ∷ []) (map archived files)

  pub add_metadata-done :
      (metadata : SliverMetadata) (p p' : SliverPacker C)
      → add_metadata C metadata p ≡ done p'
      → (json : List ℕ) × (C.to_json metadata ≡ some json)
        × (v.contents p'.builder ≡ v.contents p.builder ++ ((metadata_filename, json) ∷ []))
  unfolding add_metadata
  add_metadata-done metadata p p' e =
      let (json, made, e') = >>=-done (or_fail serialization_error (C.to_json metadata)) _ e in
      (
        json,
        or_fail-done serialization_error _ json made,
        add_entry-done _ json p p' metadata-NoDots e',
      )

  finalize-done :
      (p : SliverPacker C) (archive : List ℕ)
      → finalize C p ≡ done archive
      → C.entries archive
        ≡ some (
            map readable
              (v.contents p.builder ++ ((manifest_filename, manifest_content p.entries) ∷ [])))
  unfolding finalize
  finalize-done p archive e =
      let (b, made, e') =
        >>=-done
          (or_fail io_error (C.append manifest_filename (manifest_content p.entries) p.builder)) _
          e in
      let appended =
        v.contents-append _ _ p.builder b manifest-NoDots (or_fail-done io_error _ b made) in
      v.entries-finish b archive (or_fail-done io_error _ archive e')
      ∙ ap (λ l. some (map readable l)) appended

  -- The archive: metadata, heap, files and manifest.
  pub pack_sliver-done :
      (metadata : SliverMetadata) (heap_data : List ℕ) (files : Files) (archive : List ℕ)
      → AreStorable files
      → pack_sliver C metadata heap_data (some files) ≡ done archive
      → (json manifest : List ℕ) × (C.to_json metadata ≡ some json)
        × (C.entries archive
            ≡ some (
                map readable (
                  (metadata_filename, json) ∷ (heap_filename, heap_data) ∷ map archived files
                  ++ ((manifest_filename, manifest) ∷ []))))
  unfolding pack_sliver add_heap
  pack_sliver-done metadata heap_data files archive s e =
      let (p, e1, r1) = >>=-done (add_metadata C metadata (new_packer C)) _ e in
      let (q, e2, r2) = >>=-done (add_heap C heap_data p) _ r1 in
      let (r, e3, r3) = >>=-done (add_vfs_entries C files q) _ r2 in
      let (json, made, c1) = add_metadata-done metadata (new_packer C) p e1 in
      let c2 = add_entry-done heap_filename heap_data p q heap-NoDots e2 in
      let c3 = add_vfs_entries-done files q r s e3 in
      let all : v.contents r.builder
          ≡ (metadata_filename, json) ∷ (heap_filename, heap_data) ∷ map archived files =
        c3
        ∙ ap (λ l. l ++ map archived files)
            (c2
              ∙ ap (λ l. l ++ ((heap_filename, heap_data) ∷ []))
                  (c1 ∙ ap (λ l. l ++ ((metadata_filename, json) ∷ [])) v.contents-start)) in
      (
        json,
        manifest_content r.entries,
        made,
        finalize-done r archive r3
            ∙ ap
                (λ l.
                  some (map readable (l ++ ((manifest_filename, manifest_content r.entries) ∷ []))))
                all,
      )

  -- What is packed with the supported version is unpacked as it was: the metadata, the heap, and
  -- the files in their order, each with its content, the size of that, and the times of the
  -- unpacking.
  pub unpack-pack_sliver :
      (now : ℕ) (metadata : SliverMetadata) (heap_data : List ℕ) (files : Files) (archive : List ℕ)
      → AreStorable files
      → is_supported_version metadata.format_version ≡ true
      → pack_sliver C metadata heap_data (some files) ≡ done archive
      → unpack C now archive
        ≡ done (record {
          metadata = metadata;
          heap_data = heap_data;
          vfs_entries = map (fresh now) files;
        })
  unfolding unpack unpack_entries unpack_named str_eq strip_prefix
  unpack-pack_sliver now metadata heap_data files archive s supported e =
      let (json, manifest, made, listed) = pack_sliver-done metadata heap_data files archive s e in
      let parts : Parts = record {
        metadata = some metadata;
        heap_data = some heap_data;
        vfs_entries = [];
      } in
      rw
        (
          listed,
          v.from_json-to_json metadata json made,
          unpack_files C now files ((manifest_filename, manifest) ∷ []) parts s,
          supported,
          fix_sizes-loaded C now files,
        )
        refl
