-- ===== src/Extractor/Links.antt =====
-- The links of a page.
use oafse.Common.{
  ◌≡◌, ◌≢◌, ◌⊎◌, String, false, Option, none, some, List, [], ◌∷◌, ◌++◌, refl, arith, str_eq,
  eq_iff, Bool-cases, inl, inr, ◌||◌, ◌&&◌, not,
}
use oafse.Domain.Url.{Url, GoUrl, NetUrl, new_url_from_parsed, normalize}
use oafse.Extractor.{
  Attr, Node, Nodes, element, other, no_child, child, add_ref, add_hrefs, dfs, dfs_each,
  extract_links,
}

-- Every element of the list has the property.
abbrev pub Each : {A : Type 0} → (A → Type 0) → List A → Type 0
Each P [] = Unit
Each P (x ∷ xs) = P x × Each P xs

Each-snoc :
    {A : Type 0} (P : A → Type 0) (xs : List A) (x : A) → Each P xs → P x → Each P (xs ++ x ∷ [])
Each-snoc P [] x h p = (p, tt)
Each-snoc P (y ∷ ys) x (q, h) p = (q, Each-snoc P ys x h p)

-- A text that is not empty stands as the value of an `href` among the attributes.
abbrev pub HasHref : String → List Attr → Type 0
HasHref text [] = ⊥
HasHref text (attr ∷ attrs) =
    ((attr.key ≡ "href") × (attr.val ≡ text) × (text ≢ "")) ⊎ HasHref text attrs

-- It is an `href` of an <a> that is the node or lies below it.
abbrev mutual
  pub IsHref : String → Node → Type 0
  IsHref text (element name attrs nodes) =
      ((name ≡ "a") × HasHref text attrs) ⊎ IsHrefBelow text nodes
  IsHref text (other nodes) = IsHrefBelow text nodes

  pub IsHrefBelow : String → Nodes → Type 0
  IsHrefBelow text no_child = ⊥
  IsHrefBelow text (child n ns) = IsHref text n ⊎ IsHrefBelow text ns

module _ (net : NetUrl) (base : Url) (Given : String → Type 0) where
  -- What one of the given texts parses to.
  abbrev pub IsReference : GoUrl → Type 0
  IsReference ref = (text : String) × Given text × (net.parse text ≡ some ref)

  -- The normal form of an absolute URL of the base's host, found on the base, with no try yet.
  abbrev pub IsLocalLink : Url → Type 0
  IsLocalLink u =
      (u.parent ≡ net.string base.url)
      × (u.try ≡ 0)
      × ((ref : GoUrl) × IsReference ref
          × (net.hostname base.url ≡ net.hostname (net.resolve base.url ref))
          × ((str_eq (net.resolve base.url ref).scheme ""
                || str_eq (net.resolve base.url ref).host "")
              ≡ false)
          × (u.url ≡ normalize net (net.resolve base.url ref)))

  add_ref-Each :
      (text : String) (o : Option GoUrl) (links : List Url)
      → Given text
      → net.parse text ≡ o
      → Each IsLocalLink links
      → Each IsLocalLink (add_ref net base o links)
  unfolding new_url_from_parsed
  add_ref-Each text none links g e h = h
  add_ref-Each text (some ref) links g e h =
      let abs = net.resolve base.url ref in
      elim (Bool-cases (str_eq (net.hostname base.url) (net.hostname abs))) [
        | inr differs ↦ rw differs h
        | inl same ↦ rw same (elim (Bool-cases (str_eq abs.scheme "" || str_eq abs.host "")) [
          | inl relative ↦ rw relative h
          | inr absolute ↦ rw absolute (
              Each-snoc IsLocalLink links _ h (
                refl,
                refl,
                (
                  ref,
                  (text, g, e),
                  ground (arith, same, eq_iff (net.hostname base.url) (net.hostname abs)),
                  absolute,
                  refl,
                ),
              ))
        ])
      ]

  add_hrefs-Each :
      (attrs : List Attr) (links : List Url)
      → ((text : String) → HasHref text attrs → Given text)
      → Each IsLocalLink links
      → Each IsLocalLink (add_hrefs net base attrs links)
  unfolding add_hrefs
  add_hrefs-Each [] links g h = h
  add_hrefs-Each (attr ∷ attrs) links g h =
      add_hrefs-Each attrs _ (λ text i. g text (inr i))
        (elim (Bool-cases (str_eq attr.key "href" && not (str_eq attr.val ""))) [
          | inl h1 ↦
              let found = g attr.val (
                inl (
                  ground (arith, h1, eq_iff attr.key "href"),
                  refl,
                  ground (arith, h1, eq_iff attr.val ""),
                )) in
              rw h1 (add_ref-Each attr.val (net.parse attr.val) links found refl h)
          | inr h1 ↦ rw h1 h
        ])

  mutual
    unfolding dfs dfs_each

    dfs-Each :
        (n : Node) (links : List Url)
        → ((text : String) → IsHref text n → Given text)
        → Each IsLocalLink links
        → Each IsLocalLink (dfs net base n links)
    dfs-Each (element name attrs nodes) links g h =
        dfs_each-Each nodes _ (λ text i. g text (inr i))
          (elim (Bool-cases (str_eq name "a")) [
            | inl h1 ↦
                let is_a : name ≡ "a" = ground (arith, h1, eq_iff name "a") in
                rw h1 (add_hrefs-Each attrs links (λ text i. g text (inl (is_a, i))) h)
            | inr h1 ↦ rw h1 h
          ])
    dfs-Each (other nodes) links g h = dfs_each-Each nodes links g h

    dfs_each-Each :
        (ns : Nodes) (links : List Url)
        → ((text : String) → IsHrefBelow text ns → Given text)
        → Each IsLocalLink links
        → Each IsLocalLink (dfs_each net base ns links)
    dfs_each-Each no_child links g h = h
    dfs_each-Each (child n ns) links g h =
        dfs_each-Each ns (dfs net base n links) (λ text i. g text (inr i))
          (dfs-Each n links (λ text i. g text (inl i)) h)

-- Each link that `extractLinks` finds is the normal form of an absolute URL with the hostname of the
-- base, which is the base with a reference resolved on it, that an `href` of an <a> of the page,
-- not empty, parses to; its parent is the base, and it has no try.
pub extract_links-AreLocal :
    (net : NetUrl) (root : Node) (base : Url)
    → Each (IsLocalLink net base (λ text. IsHref text root)) (extract_links net root base)
unfolding extract_links
extract_links-AreLocal net root base =
    dfs-Each net base (λ text. IsHref text root) root [] (λ text i. i) tt
