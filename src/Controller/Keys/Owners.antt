-- ===== src/Controller/Keys/Owners.antt =====
-- The way back from what the operator creates to the publication, and from a key to its parts.
use Prim.Native.String
use text.Mathlib.TextLemmas.{nil-append, cons-append, append-nil}
use cert_publisher.Prelude.{
  ◌≡◌, refl, ◌∙◌, ap, String, Bool, false, ◌||◌, some, List, ◌∷◌, ◌==◌, arith,
}
use cert_publisher.Prelude.Text.{concat}
use cert_publisher.Resources.{Publication}
use cert_publisher.Effects.{OwnerReference, ok}
use cert_publisher.Certmanager.{owner_reference}
use cert_publisher.Controller.Keys.{
  Owner, WatchedObject, before_slash, after_slash, key_of, owner_key, owning_publication_key,
  is_publication_kind, named,
}

-- No character of the text is a slash.
unfoldable pub has_slash : String → Bool
has_slash String.[] = false
has_slash (String.◌∷◌ c s) = String.◌∷◌ c String.[] == "/" || has_slash s

slash-append : (t : String) → String.◌++◌ "/" t ≡ String.◌∷◌ "/" t
slash-append t = cons-append "/" "" t ∙ ap (String.◌∷◌ "/") (nil-append t)

before_slash-append :
    (s t : String) → has_slash s ≡ false → before_slash (String.◌++◌ s (String.◌++◌ "/" t)) ≡ s
unfolding before_slash has_slash
before_slash-append String.[] t h = rw (nil-append (String.◌++◌ "/" t)) (rw (slash-append t) refl)
before_slash-append (String.◌∷◌ c s) t h =
    rw (cons-append c s (String.◌++◌ "/" t)) (ground (arith, before_slash-append s t))

after_slash-append :
    (s t : String) → has_slash s ≡ false → after_slash (String.◌++◌ s (String.◌++◌ "/" t)) ≡ t
unfolding after_slash has_slash
after_slash-append String.[] t h = rw (nil-append (String.◌++◌ "/" t)) (rw (slash-append t) refl)
after_slash-append (String.◌∷◌ c s) t h =
    rw (cons-append c s (String.◌++◌ "/" t)) (ground (arith, after_slash-append s t))

key_of-append :
    (namespace name : String) → key_of namespace name ≡ String.◌++◌ namespace (String.◌++◌ "/" name)
unfolding concat
key_of-append namespace name = ap (λ s. String.◌++◌ namespace (String.◌++◌ "/" s)) (append-nil name)

-- A worker reads back from a key the namespace and the name that the key was made of, if the
-- namespace has no slash.
pub partition-key_of :
    (namespace name : String)
    → has_slash namespace ≡ false
    → (before_slash (key_of namespace name) ≡ namespace)
      × (after_slash (key_of namespace name) ≡ name)
partition-key_of namespace name h = (
  ap before_slash (key_of-append namespace name) ∙ before_slash-append namespace name h,
  ap after_slash (key_of-append namespace name) ∙ after_slash-append namespace name h,
)

-- How the API server hands back the owner reference that an object was created with.
abbrev pub served : OwnerReference → Owner
served o = record { kind = some o.kind; api_version = some o.api_version; name = some o.name }

-- The object is one that the operator created for the publication: it is in its namespace, and its
-- first owner is the publication, as the operator writes it.
pub record BelongsTo (p : Publication) (o : WatchedObject) : Type 0 where
  pub namespace_eq : o.namespace ≡ some p.namespace
  pub others : List Owner
  pub owners_eq : o.owners ≡ served (owner_reference p) ∷ others

owner_key-reference :
    (p : Publication) (os : List Owner)
    → owner_key p.namespace (served (owner_reference p) ∷ os)
      ≡ ok (some (key_of p.namespace p.name))
unfolding owner_key is_publication_kind named owner_reference before_slash concat
owner_key-reference p os = refl

-- An object that the operator created wakes the publication that it was created for: its key is that
-- of the publication, from which a worker reads back the publication's namespace and name.
pub owning_publication_key-BelongsTo :
    (p : Publication) (o : WatchedObject)
    → BelongsTo p o
    → has_slash p.namespace ≡ false
    → (p.namespace == "") ≡ false
    → (key : String) × (owning_publication_key o ≡ ok (some key))
      × (before_slash key ≡ p.namespace)
      × (after_slash key ≡ p.name)
unfolding owning_publication_key
owning_publication_key-BelongsTo p o b h n =
    let (e, f) = partition-key_of p.namespace p.name h in
    (
      key_of p.namespace p.name,
      rw (b.namespace_eq, b.owners_eq) (simp n (owner_key-reference p b.others)),
      e,
      f,
    )
