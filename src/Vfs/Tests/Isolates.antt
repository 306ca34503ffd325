-- ===== src/Vfs/Tests/Isolates.antt =====
-- The theorems on isolates that share a backend at concrete hostnames.
use nano_rs.Common.{
  ◌≡◌, refl, ◌≢◌, true, false, [], ◌∷◌, ◌++◌, Text, bytes, get, str_eq, str_eq_iff, contains, arith,
}
use nano_rs.Vfs.Types.{ok}
use nano_rs.Vfs.Path.{split, join_parts, normalize, any_dotdot, trim_start, trim_end, split_parts}
use nano_rs.Vfs.Path
use nano_rs.Vfs.Memory.{MemoryBackend, store_file, remove_file}
use nano_rs.Vfs.Memory
use nano_rs.Vfs.Memory.Invariant.{IsConsistent}
use nano_rs.Vfs.Isolate.{IsolateVfs, prefix_namespace, from_hostname}
use nano_rs.Vfs.Isolate
use nano_rs.Vfs.Isolate.Prefix.{IsPlain}
use nano_rs.Vfs.Isolate.Isolation.{read-write_apart, hostname_collision}
use nano_rs.Vfs.Tests.{home, spelled, file, one, empty, test_limits-IsWord32, text}

abbrev shop : Text
shop = bytes "shop_io"

abbrev blog : Text
blog = bytes "blog_io"

shop-IsPlain : IsPlain shop
shop-IsPlain = record {
  filled = λ e. cc;
  slashless = omega arith;
  colonless = omega arith;
  clean = omega arith;
}

blog-IsPlain : IsPlain blog
blog-IsPlain = record {
  filled = λ e. cc;
  slashless = omega arith;
  colonless = omega arith;
  clean = omega arith;
}

shop-ne-blog : shop ≢ blog
unfolding str_eq
shop-ne-blog = λ e. let same : false ≡ true = (str_eq_iff shop blog).1 e in cc same

abbrev shop_home : Text
shop_home = bytes "shop_io::a/b"

abbrev shop_store : MemoryBackend
shop_store = store_file 9 empty shop_home text

shop-write :
    Isolate.write 9 (record { namespace = shop; backend = empty }) spelled text ≡ ok shop_store
unfolding Isolate.write Memory.write prefix_namespace get str_eq Path.new normalize split
    split_parts join_parts any_dotdot trim_start trim_end contains
shop-write = refl

read-write_apart_example :
    Isolate.read (record { namespace = blog; backend = shop_store }) home
    ≡ Isolate.read (record { namespace = blog; backend = empty }) home
read-write_apart_example =
    read-write_apart 9 shop blog spelled home text empty shop_store shop-IsPlain blog-IsPlain
      shop-ne-blog shop-write

abbrev shop_one : MemoryBackend
shop_one = record one { storage = (shop_home, file) ∷ [] }

shop_one-IsConsistent : IsConsistent shop_one
unfolding get
shop_one-IsConsistent = record {
  words = test_limits-IsWord32;
  distinct = (refl, tt);
  counted = refl;
  totalled = refl;
  sound = ((refl, omega arith), tt);
  few = omega arith;
  small = omega arith;
}

shop-delete :
    Isolate.delete (record { namespace = shop; backend = shop_one }) spelled
    ≡ ok (remove_file shop_one shop_home file)
unfolding Isolate.delete Memory.delete prefix_namespace get str_eq Path.new normalize split
    split_parts join_parts any_dotdot trim_start trim_end contains
shop-delete = refl

shop_host-write :
    Isolate.write 9
      (record { namespace = from_hostname (bytes "shop" ++ (b'.' ∷ bytes "io")); backend = empty })
      spelled
      text
    ≡ ok shop_store
unfolding Isolate.write Memory.write prefix_namespace from_hostname get str_eq Path.new normalize
    split split_parts join_parts any_dotdot trim_start trim_end contains
shop_host-write = refl

hostname_collision_example :
    Isolate.read
      (record {
        namespace = from_hostname (bytes "shop" ++ (b'-' ∷ bytes "io"));
        backend = shop_store;
      })
      spelled
    ≡ ok text
hostname_collision_example =
    hostname_collision 9 (bytes "shop") (bytes "io") spelled text empty shop_store shop_host-write
