-- ===== src/Config/Loading.antt =====
-- What `Load` returns.
use herdr_tokens.Prelude.{String, ◌≡◌, refl, ◌↔◌, Option, none, some, List, [], ◌∷◌, arith}
use herdr_tokens.Prelude.Int.{ℤ, scale_parts}
use herdr_tokens.Prelude.Result.{Result, ok, err}
use herdr_tokens.Config.{
  Config, default, FileShape, FileRead, missing, unreadable, contents, Loader, loaded, decoded,
  apply_file, load,
}
use herdr_tokens.Config.Validity.{IsValid, validate_iff}

-- A field of the configuration: what the file says, or the default.
abbrev Given {ℓ} : {A : Type ℓ} → Option A → A → A → Type ℓ
Given none old new = new ≡ old
Given (some given) old new = new ≡ given

-- A duration: what the file's text denotes, or the default.
abbrev Denoted : Loader → Option String → ℤ → ℤ → Type 0
Denoted l none old new = new ≡ old
Denoted l (some text) old new = l.parse_duration text ≡ ok new

-- The configuration is read from a decoded file, field by field, and is valid.
pub record FromFile (l : Loader) (f : FileShape) (c : Config) : Type 0 where
  pub schema : Given f.schema_version default.schema_version c.schema_version
  pub poll : Denoted l f.poll_interval default.poll_interval c.poll_interval
  pub ttl : Denoted l f.ttl default.ttl c.ttl
  pub value : Given f.value default.value c.value
  pub valid : IsValid c

-- What a successful load goes by: no file, or a file of known fields.
pub data Loads (l : Loader) (path : String) (c : Config) : Type 0 where
  defaults : l.read_file path ≡ missing → c ≡ default → Loads l path c
  from_file :
      (text : String) (f : FileShape)
      → l.read_file path ≡ contents text
      → l.decode_toml text ≡ ok (f, [])
      → FromFile l f c
      → Loads l path c

apply_file-FromFile :
    (l : Loader) (f : FileShape) (c : Config) → apply_file l f ≡ ok c → FromFile l f c
apply_file-FromFile l f c h = ground (arith, validate_iff c)

FromFile-apply_file :
    (l : Loader) (f : FileShape) (c : Config) → FromFile l f c → apply_file l f ≡ ok c
FromFile-apply_file l f c h = ground (arith, validate_iff c, (validate_iff c).1 h.valid)

decoded-Loads :
    (l : Loader) (path text : String) (c : Config) (d : Result String (FileShape × List String))
    → l.read_file path ≡ contents text
    → l.decode_toml text ≡ d
    → decoded l path d ≡ ok c
    → Loads l path c
decoded-Loads l path text c (err e) r d h = cc
decoded-Loads l path text c (ok (f, [])) r d h = from_file text f r d (apply_file-FromFile l f c h)
decoded-Loads l path text c (ok (f, key ∷ rest)) r d h = cc

loaded-Loads :
    (l : Loader) (path : String) (c : Config) (r : FileRead)
    → l.read_file path ≡ r
    → loaded l path r ≡ ok c
    → Loads l path c
loaded-Loads l path c missing e h = defaults e (ground arith)
loaded-Loads l path c (unreadable why) e h = cc
loaded-Loads l path c (contents text) e h =
    decoded-Loads l path text c (l.decode_toml text) e refl h

Loads-load : (l : Loader) (path : String) (c : Config) → Loads l path c → load l path ≡ ok c
unfolding load
Loads-load l path c (defaults e same) = rw (e, same)
Loads-load l path c (from_file text f e d from) =
    rw (e, loaded) (rw (d, decoded) (FromFile-apply_file l f c from))

-- A load succeeds exactly if there is no file and the result is the default, or the file decodes with
-- no unknown key, each field of the result is the file's or else the default's, and the result is
-- valid.
pub load_iff : (l : Loader) (path : String) (c : Config) → (load l path ≡ ok c) ↔ Loads l path c
unfolding load
load_iff l path c = (loaded-Loads l path c (l.read_file path) refl, Loads-load l path c)

default-IsValid : IsValid default
default-IsValid = ground (arith, scale_parts 3 default.poll_interval)

Loads-IsValid : (l : Loader) (path : String) (c : Config) → Loads l path c → IsValid c
Loads-IsValid l path c (defaults e same) = rw same default-IsValid
Loads-IsValid l path c (from_file text f e d from) = from.valid

-- Whatever the file, a configuration that loads is valid.
pub load-IsValid : (l : Loader) (path : String) (c : Config) → load l path ≡ ok c → IsValid c
load-IsValid l path c h = Loads-IsValid l path c ((load_iff l path c).0 h)
