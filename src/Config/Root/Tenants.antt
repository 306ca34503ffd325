-- ===== src/Config/Root/Tenants.antt =====
-- Apps of a validated configuration over one virtual file system: src/config/mod.rs with
-- src/vfs/isolate.rs.
use nano_rs.Common.{
  ℕ, ◌≡◌, refl, ◌≢◌, subst, sym, true, Option, List, [], ◌∷◌, Text, All, All-append, ◌≤◌, ◌∙◌,
  arith,
}
use nano_rs.Vfs.Types.{ok}
use nano_rs.Vfs.Memory.{MemoryBackend}
use nano_rs.Vfs.Isolate.{from_hostname, read, write}
use nano_rs.Vfs.Isolate.Prefix.{IsPlain}
use nano_rs.Vfs.Isolate.Isolation.{read-write_apart}
use nano_rs.Config.Hostname.{is_label_byte}
use nano_rs.Config.Hostname.Grammar.{IsHostname, IsLabel, join_labels, join-ne-nil}
use nano_rs.Config.Checks.{Files, valid}
use nano_rs.Config.Root.{AppConfig, validate_config}
use nano_rs.Config.Root.Valid.{IsApp, validate_config_iff}

-- Bytes of hostnames are no slash, colon or null byte.
abbrev IsHostByte : ℕ → Type 0
IsHostByte c = (45 ≤ c) × (c ≢ 47) × (c ≢ 58)

label_byte : (c : ℕ) → is_label_byte c ≡ true → IsHostByte c
label_byte c e = ground arith

label-All : (l : Text) → All (λ c. is_label_byte c ≡ true) l → All IsHostByte l
label-All [] h = tt
label-All (c ∷ l) h = (label_byte c h.0, label-All l h.1)

join-All : (ls : List Text) → All IsLabel ls → All IsHostByte (join_labels ls)
join-All [] h = tt
join-All (l ∷ []) h = label-All l h.0.clean
join-All (l ∷ m ∷ ls) h =
    All-append IsHostByte l (b'.' ∷ join_labels (m ∷ ls)) (label-All l h.0.clean)
      (omega arith, join-All (m ∷ ls) h.1)

from_hostname-All :
    (h : Text)
    → All IsHostByte h
    → All (λ c. c ≢ b'/') (from_hostname h)
      × All (λ c. c ≢ b':') (from_hostname h)
      × All (λ c. c ≢ 0) (from_hostname h)
unfolding from_hostname
from_hostname-All [] h = (tt, tt, tt)
from_hostname-All (c ∷ t) h =
    let (a, b, d) = from_hostname-All t h.1 in
    ((ground (arith, h.0), a), (ground (arith, h.0), b), (ground (arith, h.0), d))

from_hostname-ne-nil : (h : Text) → h ≢ [] → from_hostname h ≢ []
unfolding from_hostname
from_hostname-ne-nil [] ne = absurd (ne refl)
from_hostname-ne-nil (c ∷ t) ne = λ e. cc

join-filled : (ls : List Text) → ls ≢ [] → All IsLabel ls → join_labels ls ≢ []
join-filled [] some_label h = absurd (some_label refl)
join-filled (l ∷ ls) some_label h = join-ne-nil l ls h.0.filled

-- The namespace of a hostname is plain.
pub from_hostname-IsPlain : (h : Text) → IsHostname h → IsPlain (from_hostname h)
from_hostname-IsPlain h v =
    let (slashless, colonless, clean) =
      from_hostname-All h (subst (All IsHostByte) (sym v.joined) (join-All v.labels v.each)) in
    record {
      filled =
          from_hostname-ne-nil h (λ e. join-filled v.labels v.some_label v.each (sym v.joined ∙ e));
      slashless = slashless;
      colonless = colonless;
      clean = clean;
    }

-- Two apps that the validation accepts, whose namespaces differ: what the one writes to the shared
-- backend leaves all that the other reads.
pub validated_apart :
    (files : Files) (base_path : Option Text) (a b : AppConfig) (now : ℕ) (p q : Text)
    (content : List ℕ) (m m' : MemoryBackend)
    → validate_config a files base_path ≡ valid
    → validate_config b files base_path ≡ valid
    → from_hostname a.hostname ≢ from_hostname b.hostname
    → write now (record { namespace = from_hostname a.hostname; backend = m }) p content ≡ ok m'
    → read (record { namespace = from_hostname b.hostname; backend = m' }) q
      ≡ read (record { namespace = from_hostname b.hostname; backend = m }) q
validated_apart files base_path a b now p q content m m' va vb ne e =
    read-write_apart now (from_hostname a.hostname) (from_hostname b.hostname) p q content m m'
      (from_hostname-IsPlain a.hostname (accepted a va).hostname)
      (from_hostname-IsPlain b.hostname (accepted b vb).hostname) ne e
  where
    accepted : (x : AppConfig) → validate_config x files base_path ≡ valid → IsApp files base_path x
    accepted x = (validate_config_iff files base_path x).0
