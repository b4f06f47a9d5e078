-- ===== src/Provider/ConsulCatalog/Attributes.antt =====
-- provider/consul/consul_catalog.go: a tag that sets an attribute is read back.
use traefik.Prelude.{
  none, some, List, [], ◌∷◌, ◌++◌, Str, codes, str_eq_refl, All, ◌==◌, ==_iff, ◌≡◌, refl,
}
use traefik.Text.{to_lower, lower, after_prefix}
use traefik.Text.Cut.{NotWithin, cut-append}
use traefik.Text.Split.{Lacks}
use traefik.Provider.ConsulCatalog.{CatalogProvider, after_folded, attribute_of, get_attribute}

-- The tag that gives a value to a name.
abbrev pub tag_for : CatalogProvider → Str → Str → Str
tag_for p name value = (p.prefix ++ codes ".") ++ (name ++ (codes "=" ++ value))

-- In lower case, character by character.
abbrev pub IsLower : Str → Type 0
IsLower s = All (λ c. lower c ≡ c) s

after_folded-append : (p s : Str) → IsLower p → after_folded p (p ++ s) ≡ some s
unfolding after_folded
after_folded-append [] s h = refl
after_folded-append (c ∷ p) s (l, h) = rw (l, (==_iff c c).1 refl) (after_folded-append p s h)

Lacks-NotWithin :
    (name value : Str) → Lacks (λ c. b'=' == c) name → NotWithin (codes "=") name value
unfolding after_prefix
Lacks-NotWithin [] value h = tt
Lacks-NotWithin (c ∷ name) value (l, h) = (rw l refl, Lacks-NotWithin name value h)

attribute_of-tag_for :
    (p : CatalogProvider) (name value : Str)
    → IsLower (p.prefix ++ codes ".")
    → Lacks (λ c. b'=' == c) name
    → attribute_of p name (tag_for p name value) ≡ some value
unfolding attribute_of
attribute_of-tag_for p name value h l =
    let behind = after_folded-append (p.prefix ++ codes ".") (name ++ (codes "=" ++ value)) h in
    let apart = cut-append (codes "=") name value (Lacks-NotWithin name value l) in
    rw (attribute_of, behind, apart, str_eq_refl (to_lower name)) refl

-- Where the prefix is in lower case, and the name has no equals sign, an attribute is the value that
-- the first tag for it gives, behind tags that give it none.
pub get_attribute-tag_for :
    (p : CatalogProvider) (name value default_value : Str) (before after : List Str)
    → IsLower (p.prefix ++ codes ".")
    → Lacks (λ c. b'=' == c) name
    → All (λ tag. attribute_of p name tag ≡ none) before
    → get_attribute p name (before ++ tag_for p name value ∷ after) default_value ≡ value
unfolding get_attribute
get_attribute-tag_for p name value default_value [] after h l b =
    rw (get_attribute, attribute_of-tag_for p name value h l) refl
get_attribute-tag_for p name value default_value (tag ∷ before) after h l (n, b) =
    rw (get_attribute, n) (get_attribute-tag_for p name value default_value before after h l b)
