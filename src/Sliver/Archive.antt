-- ===== src/Sliver/Archive.antt =====
-- The archive of a sliver: src/sliver/packer.rs, src/sliver/unpacker.rs and the names of
-- src/sliver/format.rs. The archives of the `tar` crate and the JSON of the metadata are interfaces.
pub mod RoundTrip
pub mod Restore
mod Tests
use nano_rs.Common.{
  ℕ, Bool, true, false, Option, none, some, List, [], ◌∷◌, ◌++◌, map, Text, bytes, length, is_empty,
  str_eq, strip_prefix, ◌==◌, if◌then◌else◌,
}
use nano_rs.Vfs.Types.{VfsFile, VfsError, VfsResult, ok, err}
use nano_rs.Vfs.Path
use nano_rs.Vfs.Memory.{MemoryBackend}
use nano_rs.Vfs.Isolate.{IsolateVfs}
use nano_rs.Vfs.Isolate
use nano_rs.Sliver.Integrity.{metadata_filename, heap_filename}

abbrev pub format_version : Text
format_version = bytes "1.0"

abbrev pub manifest_filename : Text
manifest_filename = bytes "manifest.txt"

abbrev pub vfs_prefix : Text
vfs_prefix = bytes "vfs/"

pub record SliverMetadata : Type 0 where
  pub name : Option Text
  pub hostname : Text
  pub created_at : ℕ
  pub format_version : Text
  pub nano_version : Text
  pub description : Option Text
  pub custom : List (Text × Text)

pub data SliverError : Type 0 where
  io_error serialization_error : SliverError
  unsupported_entry_type : Text → SliverError
  missing_metadata missing_heap invalid_format invalid_vfs_path : Text → SliverError
  corrupted_archive : Text → SliverError
  vfs_restore : Text → VfsError → SliverError

pub data SliverResult {ℓ} (A : Type ℓ) : Type ℓ where
  failed : SliverError → SliverResult A
  done : A → SliverResult A

-- `?` in a chain of calls.
module _ {ℓ κ} {A : Type ℓ} {B : Type κ} where
  infixl 5 ◌>>=◌
  abbrev pub ◌>>=◌ : SliverResult A → (A → SliverResult B) → SliverResult B
  failed why >>= next = failed why
  done value >>= next = next value

abbrev pub or_fail {ℓ} : {A : Type ℓ} → SliverError → Option A → SliverResult A
or_fail why none = failed why
or_fail why (some value) = done value

-- An entry that is read from an archive: its path and its content, where they can be read.
pub record TarEntry : Type 0 where
  pub path : Option Text
  pub content : Option (List ℕ)

-- The builder of an archive, which may refuse a path, and the reader. The JSON of metadata.
pub record Codec : Type 1 where
  pub Builder : Type 0
  pub start : Builder
  pub append : Text → List ℕ → Builder → Option Builder
  pub finish : Builder → Option (List ℕ)
  pub entries : List ℕ → Option (List TarEntry)
  pub to_json : SliverMetadata → Option (List ℕ)
  pub from_json : List ℕ → Option SliverMetadata

-- The manifest: two lines and an empty one, and the names of the entries.
unfoldable pub manifest_lines : List Text → Text
manifest_lines [] = []
manifest_lines (entry ∷ entries) = entry ++ (b'\n' ∷ manifest_lines entries)

abbrev pub manifest_content : List Text → Text
manifest_content entries =
    bytes "# Sliver Archive Manifest\n# =========================\n\n" ++ manifest_lines entries

abbrev pub is_supported_version : Text → Bool
is_supported_version version = str_eq version format_version

pub record UnpackedSliver : Type 0 where
  pub metadata : SliverMetadata
  pub heap_data : List ℕ
  pub vfs_entries : List (Text × VfsFile)

-- What the loop over the entries has found.
pub record Parts : Type 0 where
  pub metadata : Option SliverMetadata
  pub heap_data : Option (List ℕ)
  pub vfs_entries : List (Text × VfsFile)

abbrev pub no_parts : Parts
no_parts = record { metadata = none; heap_data = none; vfs_entries = [] }

-- A file of which the size is set later on.
abbrev pub unsized : ℕ → List ℕ → VfsFile
unsized now content = record { content = content; created_at = now; modified_at = now; size = 0 }

abbrev pub fix_sizes : List (Text × VfsFile) → List (Text × VfsFile)
fix_sizes = map (λ (path, file). (path, record file { size = length file.content }))

module _ (C : Codec) where
  pub record SliverPacker : Type 0 where
    pub builder : C.Builder
    pub entries : List Text

  abbrev pub new_packer : SliverPacker
  new_packer = record { builder = C.start; entries = [] }

  -- An entry in the archive and in the list of names.
  unfoldable pub add_entry : Text → List ℕ → SliverPacker → SliverResult SliverPacker
  add_entry path content p = do
    builder ← or_fail io_error (C.append path content p.builder)
    done (record { builder = builder; entries = p.entries ++ (path ∷ []) })

  unfoldable pub add_metadata : SliverMetadata → SliverPacker → SliverResult SliverPacker
  unfolding add_entry
  add_metadata metadata p = do
    json ← or_fail serialization_error (C.to_json metadata)
    add_entry metadata_filename json p

  unfoldable pub add_heap : List ℕ → SliverPacker → SliverResult SliverPacker
  unfolding add_entry
  add_heap heap_data = add_entry heap_filename heap_data

  unfoldable pub add_vfs_entry : Text → VfsFile → SliverPacker → SliverResult SliverPacker
  unfolding add_entry
  add_vfs_entry path file = add_entry (vfs_prefix ++ path) file.content

  unfoldable pub add_vfs_entries : List (Text × VfsFile) → SliverPacker → SliverResult SliverPacker
  unfolding add_vfs_entry
  add_vfs_entries [] p = done p
  add_vfs_entries ((path, file) ∷ entries) p = do
    p ← add_vfs_entry path file p
    add_vfs_entries entries p

  -- The manifest is no entry of its own list.
  unfoldable pub finalize : SliverPacker → SliverResult (List ℕ)
  unfolding manifest_lines
  finalize p = do
    builder ← or_fail io_error (C.append manifest_filename (manifest_content p.entries) p.builder)
    or_fail io_error (C.finish builder)

  unfoldable pub pack_sliver :
      SliverMetadata → List ℕ → Option (List (Text × VfsFile)) → SliverResult (List ℕ)
  unfolding add_metadata add_heap add_vfs_entries finalize
  pack_sliver metadata heap_data vfs_entries = do
    p ← add_metadata metadata new_packer
    p ← add_heap heap_data p
    p ← elim vfs_entries [ none ↦ done p | some entries ↦ add_vfs_entries entries p ]
    finalize p

  -- An entry with its path and content.
  unfoldable pub unpack_named : ℕ → Text → List ℕ → Parts → SliverResult Parts
  unfolding strip_prefix str_eq Path.new
  unpack_named now path content parts =
      if str_eq path metadata_filename
      then (do
        metadata ← or_fail serialization_error (C.from_json content)
        done (record parts { metadata = some metadata }))
      else if str_eq path heap_filename
      then done (record parts { heap_data = some content })
      else elim (strip_prefix vfs_prefix path) [
        | none ↦ done parts
        | some vfs_path ↦ elim (Path.new vfs_path) [
          | err _ ↦ failed (invalid_vfs_path vfs_path)
          | ok vfs_path ↦ done (record parts {
            vfs_entries = parts.vfs_entries ++ ((vfs_path, unsized now content) ∷ []);
          })
        ]
      ]

  unfoldable pub unpack_entries : ℕ → List TarEntry → Parts → SliverResult Parts
  unfolding unpack_named
  unpack_entries now [] parts = done parts
  unpack_entries now (entry ∷ entries) parts = do
    path ← or_fail io_error entry.path
    content ← or_fail io_error entry.content
    parts ← unpack_named now path content parts
    unpack_entries now entries parts

  unfoldable pub unpack : ℕ → List ℕ → SliverResult UnpackedSliver
  unfolding unpack_entries str_eq
  unpack now archive = do
    entries ← or_fail io_error (C.entries archive)
    parts ← unpack_entries now entries no_parts
    metadata ← or_fail (missing_metadata metadata_filename) parts.metadata
    heap_data ← or_fail (missing_heap heap_filename) parts.heap_data
    if is_supported_version metadata.format_version
        then done (record {
          metadata = metadata;
          heap_data = heap_data;
          vfs_entries = fix_sizes parts.vfs_entries;
        })
        else failed (invalid_format metadata.format_version)

  unfoldable pub unpack_and_validate : ℕ → List ℕ → SliverResult UnpackedSliver
  unfolding unpack
  unpack_and_validate now archive = do
    unpacked ← unpack now archive
    if is_empty unpacked.heap_data
        then failed (corrupted_archive (bytes "Heap data is empty"))
        else done unpacked

-- The files of a sliver, written one by one. The other isolates share the backend.
unfoldable pub restore_to_vfs : ℕ → List (Text × VfsFile) → IsolateVfs → SliverResult MemoryBackend
unfolding Isolate.write
restore_to_vfs now [] vfs = done vfs.backend
restore_to_vfs now ((path, file) ∷ entries) vfs = elim (Isolate.write now vfs path file.content) [
  | err why ↦ failed (vfs_restore path why)
  | ok backend ↦ restore_to_vfs now entries (record vfs { backend = backend })
]
