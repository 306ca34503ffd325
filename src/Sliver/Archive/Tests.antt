-- ===== src/Sliver/Archive/Tests.antt =====
-- Packing and unpacking at concrete values, with a codec of fields that end with a zero.
use nano_rs.Common.{
  ℕ, zero, suc, ◌≡◌, ◌++◌, ◌∙◌, refl, ap, true, str_eq, Option, none, some, List, [], ◌∷◌, map, All,
  Text, bytes, contains, get, put, arith,
}
use nano_rs.Vfs.Types.{VfsFile, test_limits}
use nano_rs.Vfs.Path.Laws.{IsNormal, new-IsNormal}
use nano_rs.Vfs.Memory.{MemoryBackend}
use nano_rs.Vfs.Memory
use nano_rs.Vfs.Isolate.{prefix_namespace}
use nano_rs.Vfs.Isolate
use nano_rs.Vfs.Isolate.Prefix.{IsPlain}
use nano_rs.Vfs.Path.{split}
use nano_rs.Vfs.Path
use nano_rs.Sliver.Archive.{
  SliverMetadata, TarEntry, Codec, done, format_version, pack_sliver, unpack, restore_to_vfs,
  is_supported_version, add_metadata, add_heap, add_vfs_entries, add_vfs_entry, add_entry, finalize,
  manifest_lines,
}
use nano_rs.Sliver.Archive.RoundTrip.{
  IsFaithful, readable, Files, AreStorable, fresh, unpack-pack_sliver,
}
use nano_rs.Sliver.Archive.Restore.{AreApart, Reads, restore_to_vfs-Reads}

abbrev write_field : List ℕ → List ℕ → List ℕ
write_field [] rest = 0 ∷ rest
write_field (c ∷ field) rest = suc c ∷ write_field field rest

abbrev in_front : ℕ → List (List ℕ) → List (List ℕ)
in_front c [] = []
in_front c (field ∷ fields) = (c ∷ field) ∷ fields

abbrev read_fields : List ℕ → List (List ℕ)
read_fields [] = []
read_fields (zero ∷ s) = [] ∷ read_fields s
read_fields (suc c ∷ s) = in_front c (read_fields s)

read_fields-write_field :
    (field rest : List ℕ) → read_fields (write_field field rest) ≡ field ∷ read_fields rest
read_fields-write_field [] rest = refl
read_fields-write_field (c ∷ field) rest = ap (in_front c) (read_fields-write_field field rest)

abbrev write_entries : List (Text × List ℕ) → List ℕ
write_entries [] = []
write_entries ((path, content) ∷ entries) =
    write_field path (write_field content (write_entries entries))

abbrev read_entries : List (List ℕ) → List TarEntry
read_entries [] = []
read_entries (path ∷ []) = []
read_entries (path ∷ content ∷ fields) = readable (path, content) ∷ read_entries fields

read_entries-write_entries :
    (entries : List (Text × List ℕ))
    → read_entries (read_fields (write_entries entries)) ≡ map readable entries
read_entries-write_entries [] = refl
read_entries-write_entries ((path, content) ∷ entries) =
    ap read_entries (
      read_fields-write_field path _
      ∙ ap (λ l. path ∷ l) (read_fields-write_field content (write_entries entries)))
    ∙ ap (λ l. readable (path, content) ∷ l) (read_entries-write_entries entries)

abbrev write_json :
    Option Text → Option Text → List (Text × Text) → ℕ → Text → Text → Text → Option (List ℕ)
write_json none none [] created_at hostname format nano = some (
    write_field (created_at ∷ []) (write_field hostname (write_field format (write_field nano []))))
write_json _ _ _ _ _ _ _ = none

abbrev plain_metadata : ℕ → Text → Text → Text → SliverMetadata
plain_metadata created_at hostname format nano = record {
  name = none;
  hostname = hostname;
  created_at = created_at;
  format_version = format;
  nano_version = nano;
  description = none;
  custom = [];
}

abbrev read_json : List (List ℕ) → Option SliverMetadata
read_json ((created_at ∷ []) ∷ hostname ∷ format ∷ nano ∷ []) =
    some (plain_metadata created_at hostname format nano)
read_json _ = none

abbrev to_json : SliverMetadata → Option (List ℕ)
to_json m =
    write_json m.name m.description m.custom m.created_at m.hostname m.format_version m.nano_version

abbrev fields : Codec
fields = record {
  Builder = List (Text × List ℕ);
  start = [];
  append = λ path content entries. some (entries ++ ((path, content) ∷ []));
  finish = λ entries. some (write_entries entries);
  entries = λ archive. some (read_entries (read_fields archive));
  to_json = to_json;
  from_json = λ json. read_json (read_fields json);
}

json_fields :
    (a b c d : List ℕ)
    → read_fields (write_field a (write_field b (write_field c (write_field d []))))
      ≡ a ∷ b ∷ c ∷ d ∷ []
json_fields a b c d =
    read_fields-write_field a _
    ∙ ap (λ l. a ∷ l)
        (read_fields-write_field b _
          ∙ ap (λ l. b ∷ l)
              (read_fields-write_field c _ ∙ ap (λ l. c ∷ l) (read_fields-write_field d [])))

read_json-write_json :
    (n d : Option Text) (custom : List (Text × Text)) (t : ℕ) (h f v : Text) (json : List ℕ)
    → write_json n d custom t h f v ≡ some json
    → read_json (read_fields json)
      ≡ some (record {
        name = n;
        hostname = h;
        created_at = t;
        format_version = f;
        nano_version = v;
        description = d;
        custom = custom;
      })
read_json-write_json none none [] t h f v json e =
    let same : json ≡ write_field (t ∷ []) (write_field h (write_field f (write_field v []))) =
      cc e in
    ap (λ l. read_json (read_fields l)) same ∙ ap read_json (json_fields (t ∷ []) h f v)
read_json-write_json none none (_ ∷ _) t h f v json e = cc e
read_json-write_json none (some _) custom t h f v json e = cc e
read_json-write_json (some _) d custom t h f v json e = cc e

fields-IsFaithful : IsFaithful fields
fields-IsFaithful = record {
  contents = λ entries. entries;
  contents-start = refl;
  contents-append = λ path content b b' _ e. cc e;
  entries-finish = λ b archive e.
      let same : archive ≡ write_entries b = cc e in
      ap (λ l. some (read_entries (read_fields l))) same ∙ ap some (read_entries-write_entries b);
  from_json-to_json = λ m.
      read_json-write_json m.name m.description m.custom m.created_at m.hostname m.format_version
        m.nano_version;
}

abbrev shop : SliverMetadata
shop = plain_metadata 7 (bytes "shop") format_version (bytes "1.1.0")

abbrev page : VfsFile
page = record { content = bytes "hi"; created_at = 4; modified_at = 5; size = 2 }

abbrev image : VfsFile
image = record { content = 0 ∷ 255 ∷ []; created_at = 4; modified_at = 5; size = 2 }

abbrev two_files : Files
two_files = (bytes "index.html", page) ∷ (bytes "img/a.png", image) ∷ []

page-IsNormal : IsNormal (bytes "index.html")
unfolding Path.new Path.normalize split Path.split_parts Path.join_parts Path.any_dotdot
    Path.trim_start Path.trim_end contains str_eq
page-IsNormal = new-IsNormal (bytes "index.html") (bytes "index.html") refl

image-IsNormal : IsNormal (bytes "img/a.png")
unfolding Path.new Path.normalize split Path.split_parts Path.join_parts Path.any_dotdot
    Path.trim_start Path.trim_end contains str_eq
image-IsNormal = new-IsNormal (bytes "img/a.png") (bytes "img/a.png") refl

two_files-AreStorable : AreStorable two_files
unfolding split Path.split_parts
two_files-AreStorable =
    ((page-IsNormal, ((λ e. cc e), tt)), ((image-IsNormal, ((λ e. cc e), ((λ e. cc e), tt))), tt))

abbrev the_entries : List (Text × List ℕ)
the_entries =
    (
      bytes "meta.json",
      write_field (7 ∷ []) (
          write_field (bytes "shop") (write_field format_version (write_field (bytes "1.1.0") []))),
    )
    ∷ (bytes "heap.bin", 1 ∷ 2 ∷ 3 ∷ [])
    ∷ (bytes "vfs/index.html", bytes "hi")
    ∷ (bytes "vfs/img/a.png", 0 ∷ 255 ∷ [])
    ∷ (
      bytes "manifest.txt",
      bytes
          "# Sliver Archive Manifest\n# =========================\n\nmeta.json\nheap.bin\nvfs/index.html\nvfs/img/a.png\n",
    )
    ∷ []

packed :
    pack_sliver fields shop (1 ∷ 2 ∷ 3 ∷ []) (some two_files) ≡ done (write_entries the_entries)
unfolding pack_sliver add_metadata add_heap add_vfs_entries add_vfs_entry add_entry finalize
    manifest_lines
packed = refl

supported : is_supported_version format_version ≡ true
unfolding str_eq
supported = refl

unpack-pack_sliver_example :
    unpack fields 9 (write_entries the_entries)
    ≡ done (record {
      metadata = shop;
      heap_data = 1 ∷ 2 ∷ 3 ∷ [];
      vfs_entries = map (fresh 9) two_files;
    })
unpack-pack_sliver_example =
    unpack-pack_sliver fields fields-IsFaithful 9 shop (1 ∷ 2 ∷ 3 ∷ []) two_files
      (write_entries the_entries) two_files-AreStorable supported packed

abbrev site : Text
site = bytes "shop_io"

site-IsPlain : IsPlain site
site-IsPlain = record {
  filled = λ e. cc;
  slashless = omega arith;
  colonless = omega arith;
  clean = omega arith;
}

two_files-AreApart : AreApart two_files
two_files-AreApart = (page-IsNormal, ((λ e. cc e), tt), (image-IsNormal, tt, tt))

abbrev empty : MemoryBackend
empty = record { storage = []; limits = test_limits; total_bytes = 0; file_count = 0 }

abbrev restored : MemoryBackend
restored = record {
  storage =
      (
        bytes "shop_io::index.html",
        record { content = bytes "hi"; created_at = 9; modified_at = 9; size = 2 },
      )
      ∷ (
        bytes "shop_io::img/a.png",
        record { content = 0 ∷ 255 ∷ []; created_at = 9; modified_at = 9; size = 2 },
      )
      ∷ [];
  limits = test_limits;
  total_bytes = 4;
  file_count = 2;
}

restored_both :
    restore_to_vfs 9 two_files (record { namespace = site; backend = empty }) ≡ done restored
unfolding restore_to_vfs Isolate.write prefix_namespace Memory.write Memory.store_file get put
    Path.new Path.normalize split Path.split_parts Path.join_parts Path.any_dotdot Path.trim_start
    Path.trim_end contains str_eq Memory.total_after Memory.count_after Memory.written
restored_both = refl

restore_to_vfs-Reads_example : All (Reads site restored) two_files
restore_to_vfs-Reads_example =
    restore_to_vfs-Reads site site-IsPlain 9 two_files empty restored two_files-AreApart
      restored_both
