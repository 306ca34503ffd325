-- ===== src/Http/Tests.antt =====
-- The theorems on headers at concrete calls, and runs of them.
use nano_rs.Common.{
  ℕ, ◌⊎◌, ◌≡◌, refl, ◌++◌, ap, ◌∙◌, sym, inl, inr, Bool-cases, Option, none, some, List, [], ◌∷◌,
  Text, bytes, get, put, str_eq, str_eq_iff, if◌then◌else◌, arith,
}
use nano_rs.Http.Headers.{new, set, append, lookup, push_value, shown, join_values}
use nano_rs.Http.Headers.Laws.{Op, sets, appends, deletes, run}
use nano_rs.Config.Checks.Clean.{NoDotDot}
use nano_rs.Http.Types.{ok}
use nano_rs.Http.Serve.{
  FileMap, Outside, static_response, respond, lookup_path, first_entry, serve_dir,
}
use nano_rs.Http.Serve.Files.{candidates, first_or_404}
use nano_rs.Http.Serve.Confined.{IsBelow, serve_dir-IsBelow}
use nano_rs.Http.Router.{RouteTarget, resolve, host_of}
use nano_rs.Http.Router
use nano_rs.Http.Router.Latest.{register_all, latest, resolve-host_of}
use nano_rs.Http.Headers.Refine.{given, Reads, run-Reads}

abbrev calls : List Op
calls =
    sets (bytes "Accept") (bytes "a/b")
    ∷ appends (bytes "Set-Cookie") (bytes "x=1")
    ∷ appends (bytes "ACCEPT") (bytes "c/d")
    ∷ appends (bytes "set-cookie") (bytes "y=2")
    ∷ deletes (bytes "Host")
    ∷ []

lookup_joined :
    lookup
      (bytes "accept")
      (append (bytes "ACCEPT") (bytes "c/d") (set (bytes "Accept") (bytes "a/b") new))
    ≡ some (bytes "a/b, c/d")
unfolding lookup append set new push_value shown join_values get put str_eq
lookup_joined = refl

run-Reads_example : Reads (bytes "accept") (given (bytes "accept") [] calls) (run new calls)
run-Reads_example = run-Reads (bytes "accept") calls

abbrev home_page : RouteTarget
home_page = record { hostname = bytes "shop.io"; handler_type = static_response (bytes "shop") }

abbrev other_page : RouteTarget
other_page = record { hostname = bytes "any"; handler_type = static_response (bytes "other") }

resolve-host_of_example :
    resolve
      (host_of (some (bytes "SHOP.io" ++ (b':' ∷ bytes "8080"))))
      (register_all ((bytes "shop.io", home_page) ∷ []) (Router.new other_page))
    ≡ latest (bytes "SHOP.io") other_page ((bytes "shop.io", home_page) ∷ [])
resolve-host_of_example =
    resolve-host_of (bytes "SHOP.io") (bytes "8080") ((bytes "shop.io", home_page) ∷ []) other_page
      (omega arith)

shop_found : latest (bytes "SHOP.io") other_page ((bytes "shop.io", home_page) ∷ []) ≡ home_page
unfolding latest str_eq
shop_found = refl

abbrev site : FileMap
site =
    (bytes "index.html", (bytes "home", bytes "text/html"))
    ∷ (bytes "docs/index.html", (bytes "docs", bytes "text/html"))
    ∷ []

docs_served :
    first_or_404 site (candidates (bytes "/docs") none) ≡ respond (bytes "docs", bytes "text/html")
unfolding first_entry get str_eq lookup_path
docs_served = refl

-- A disk that has one file.
abbrev one_file : Text → Text → Option Text
one_file file path = if str_eq path file then some (bytes "content") else none

abbrev public_disk : Outside
public_disk = record {
  read = one_file (bytes "public/a.css");
  read_to_string = one_file (bytes "public/a.css");
  extension = λ path. bytes "css";
  execute_js_standalone = λ entrypoint path. ok;
}

-- A request with two dots reads nothing, whatever the disk has outside the root.
abbrev two_files : Text → Option Text
two_files path =
    if str_eq path (bytes "public/../secret")
    then some (bytes "key")
    else one_file (bytes "public/a.css") path

abbrev behind_root : Text → Text
behind_root (_ ∷ _ ∷ _ ∷ _ ∷ _ ∷ _ ∷ _ ∷ rest) = rest
behind_root _ = []

abbrev first_byte : Text → ℕ
first_byte [] = 0
first_byte (c ∷ s) = c

only_below :
    (file : Text)
    → IsBelow (bytes "public") (bytes "index.html") file
    → one_file (bytes "public/a.css") file ≡ two_files file
only_below file v = elim (Bool-cases (str_eq file (bytes "public/../secret"))) [
  | inr other ↦ rw other refl
  | inl same ↦
      let at : bytes "public/" ++ v.rest ≡ bytes "public/../secret" =
        sym v.joined ∙ (str_eq_iff file (bytes "public/../secret")).0 same in
      absurd (outside v.rest (ap behind_root at) v.confined)
]
  where
    outside :
        (rest : Text) → rest ≡ bytes "../secret" → (rest ≡ bytes "index.html") ⊎ NoDotDot rest → ⊥
    outside rest e (inl d) = omega (arith, ap first_byte (sym e ∙ d))
    outside rest e (inr n) = n ([], bytes "/secret", e)

serve_dir-IsBelow_example :
    serve_dir public_disk (bytes "public") (bytes "index.html") (bytes "/../secret")
    ≡ serve_dir
        (record public_disk { read = two_files })
        (bytes "public")
        (bytes "index.html")
        (bytes "/../secret")
serve_dir-IsBelow_example =
    serve_dir-IsBelow public_disk two_files (bytes "public") (bytes "index.html")
      (bytes "/../secret") only_below
