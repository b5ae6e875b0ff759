-- ===== src/Provisioners/Xml.antt =====
-- What the program uses of xml.etree.ElementTree and of texts: the tree that a parser hands over, and
-- the walks over it.
use Prim.Native.Char.{code}
use cert_publisher.Prelude.{
  ℕ, String, Bool, false, ◌&&◌, ◌||◌, Option, none, some, List, [], ◌∷◌, ◌++◌, leb, nat_eq, ◌==◌,
  if◌then◌else◌,
}

mutual
  -- An element: its tag, the text before its first child, its children, and the text behind it.
  pub data Element : Type 0 where
    element : String → Option String → Elements → Option String → Element

  pub data Elements : Type 0 where
    nil : Elements
    cons : Element → Elements → Elements

abbrev pub tag_of : Element → String
tag_of (element tag text children tail) = tag

abbrev pub text_of : Element → Option String
text_of (element tag text children tail) = text

abbrev pub children_of : Element → Elements
children_of (element tag text children tail) = children

-- `value or ""`
abbrev pub or_blank : Option String → String
or_blank none = ""
or_blank (some s) = s

mutual
  -- `element.iter()`: the element and its descendants, in document order.
  pub iter : Element → List Element
  iter (element tag text children tail) = element tag text children tail ∷ iter_all children

  pub iter_all : Elements → List Element
  iter_all nil = []
  iter_all (cons e es) = iter e ++ iter_all es

mutual
  -- `element.itertext()`
  pub itertext : Element → List String
  itertext (element tag text children tail) = or_blank text ∷ texts_of children

  texts_of : Elements → List String
  texts_of nil = []
  texts_of (cons (element tag text children tail) es) =
      itertext (element tag text children tail) ++ or_blank tail ∷ texts_of es

first_with : String → List Element → Option Element
first_with tag [] = none
first_with tag (e ∷ es) = if tag_of e == tag then some e else first_with tag es

-- `element.find(".//" + tag)`: the first of the descendants.
pub find : String → Element → Option Element
unfolding first_with iter_all
find tag e = first_with tag (iter_all (children_of e))

-- `str.isspace` of one character.
is_space : ℕ → Bool
is_space c =
    (leb 9 c && leb c 13)
    || (leb 28 c && leb c 32)
    || nat_eq c 133
    || nat_eq c 160
    || nat_eq c 5760
    || (leb 8192 c && leb c 8202)
    || nat_eq c 8232
    || nat_eq c 8233
    || nat_eq c 8239
    || nat_eq c 8287
    || nat_eq c 12288

lstrip : String → String
unfolding is_space
lstrip String.[] = String.[]
lstrip (String.◌∷◌ c s) = let rest = lstrip s in if is_space (code c) then rest else String.◌∷◌ c s

rstrip : String → String
unfolding is_space
rstrip String.[] = String.[]
rstrip (String.◌∷◌ c s) =
    let rest = rstrip s in if is_space (code c) && rest == "" then String.[] else String.◌∷◌ c rest

-- `value.strip()`
pub strip : String → String
unfolding lstrip rstrip
strip s = rstrip (lstrip s)

has_brace : String → Bool
has_brace String.[] = false
has_brace (String.◌∷◌ c s) = String.◌∷◌ c String.[] == "}" || has_brace s

-- `tag.split("}")[-1]`
pub local_name : String → String
unfolding has_brace
local_name String.[] = String.[]
local_name (String.◌∷◌ c s) =
    let rest = local_name s in
    if has_brace s || String.◌∷◌ c String.[] == "}" then rest else String.◌∷◌ c s
