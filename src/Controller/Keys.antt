-- ===== src/Controller/Keys.antt =====
-- src/cert_publisher/controller.py: the keys of publications, and the way from an object of the API
-- server to the key of the publication that it belongs to.
pub mod Owners
use Prim.Native.String
use cert_publisher.Prelude.{
  ℕ, String, Bool, true, false, not, ◌||◌, Option, none, some, List, [], ◌∷◌, ◌==◌, if◌then◌else◌,
}
use cert_publisher.Prelude.Text.{concat}
use cert_publisher.Effects.{lookup_error, Exception, Result, ok, raised}
use cert_publisher.Kube.{publication_kind, group}

-- An element of `.metadata.ownerReferences`.
pub record Owner : Type 0 where
  pub kind : Option String
  pub api_version : Option String
  pub name : Option String

-- What the watchers read of an object.
pub record WatchedObject : Type 0 where
  pub namespace : Option String
  pub name : Option String
  pub generation : Option ℕ
  pub last_signing_time : Option String
  pub owners : List Owner

-- `text.split("/", 1)[0]`
unfoldable pub before_slash : String → String
before_slash String.[] = String.[]
before_slash (String.◌∷◌ c s) =
    let rest = before_slash s in
    if String.◌∷◌ c String.[] == "/" then String.[] else String.◌∷◌ c rest

-- What follows the first slash: the last part of `key.partition("/")`.
unfoldable pub after_slash : String → String
after_slash String.[] = String.[]
after_slash (String.◌∷◌ c s) =
    let rest = after_slash s in if String.◌∷◌ c String.[] == "/" then s else rest

abbrev pub key_of : String → String → String
key_of namespace name = concat (namespace ∷ "/" ∷ name ∷ [])

-- `not text`
abbrev pub is_missing : Option String → Bool
is_missing none = true
is_missing (some s) = s == ""

abbrev pub or_blank : Option String → String
or_blank none = ""
or_blank (some s) = s

unfoldable pub publication_key : WatchedObject → Option String
publication_key o =
    if is_missing o.namespace || is_missing o.name
    then none
    else some (key_of (or_blank o.namespace) (or_blank o.name))

-- `owner.get("kind") == KIND`
is_publication_kind : Option String → Bool
is_publication_kind none = false
is_publication_kind (some k) = k == publication_kind

named : String → Option String → Result (Option String)
named namespace none = raised (record { kind = lookup_error; text = "'name'" })
named namespace (some name) = ok (some (key_of namespace name))

-- The first owner of our kind and group.
pub owner_key : String → List Owner → Result (Option String)
unfolding is_publication_kind named
owner_key namespace [] = ok none
owner_key namespace (o ∷ os) =
    let rest = owner_key namespace os in
    if not (is_publication_kind o.kind)
    then rest
    else if not (before_slash (or_blank o.api_version) == group)
    then rest
    else named namespace o.name

unfoldable pub owning_publication_key : WatchedObject → Result (Option String)
unfolding owner_key
owning_publication_key o =
    if is_missing o.namespace then ok none else owner_key (or_blank o.namespace) o.owners
