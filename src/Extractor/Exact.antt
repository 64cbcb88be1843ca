-- ===== src/Extractor/Exact.antt =====
-- Which links `extractLinks` finds.
use oafse.Common.{
  ◌≡◌, ◌↔◌, ◌⊎◌, String, false, Option, none, some, List, [], ◌∷◌, ◌++◌, refl, arith, str_eq,
  eq_iff, Bool-cases, inl, inr, ◌||◌, ◌&&◌, not, true, subst, sym, ◌∙◌,
}
use oafse.Domain.Url.{Url, GoUrl, NetUrl, new_url_from_parsed, normalize}
use oafse.Extractor.{
  Attr, Node, Nodes, element, other, no_child, child, add_ref, add_hrefs, dfs, dfs_each,
  extract_links,
}
use oafse.Extractor.Links.{Each, HasHref, IsHref, IsHrefBelow, IsLocalLink, extract_links-AreLocal}

-- The address stands in the list.
abbrev pub HasLink : GoUrl → List Url → Type 0
HasLink g [] = ⊥
HasLink g (u ∷ us) = (u.url ≡ g) ⊎ HasLink g us

HasLink-more : (g : GoUrl) (xs ys : List Url) → HasLink g xs → HasLink g (xs ++ ys)
HasLink-more g [] ys h = absurd h
HasLink-more g (x ∷ xs) ys (inl e) = inl e
HasLink-more g (x ∷ xs) ys (inr h) = inr (HasLink-more g xs ys h)

HasLink-last : (xs : List Url) (u : Url) → HasLink u.url (xs ++ u ∷ [])
HasLink-last [] u = inl refl
HasLink-last (x ∷ xs) u = inr (HasLink-last xs u)

module _ (net : NetUrl) (base : Url) where
  -- The text parses to a reference that resolves to an absolute URL of the base's host, with this
  -- normal form.
  abbrev pub LeadsTo : String → GoUrl → Type 0
  LeadsTo text g =
      (ref : GoUrl) × (net.parse text ≡ some ref)
      × (net.hostname base.url ≡ net.hostname (net.resolve base.url ref))
      × ((str_eq (net.resolve base.url ref).scheme "" || str_eq (net.resolve base.url ref).host "")
          ≡ false)
      × (g ≡ normalize net (net.resolve base.url ref))

  module _ (g : GoUrl) where
    add_ref-more :
        (o : Option GoUrl) (links : List Url)
        → HasLink g links
        → HasLink g (add_ref net base o links)
    unfolding new_url_from_parsed
    add_ref-more none links h = h
    add_ref-more (some ref) links h =
        let abs = net.resolve base.url ref in
        elim (Bool-cases (str_eq (net.hostname base.url) (net.hostname abs))) [
          | inr differs ↦ rw differs h
          | inl same ↦ rw same (elim (Bool-cases (str_eq abs.scheme "" || str_eq abs.host "")) [
            | inl relative ↦ rw relative h
            | inr absolute ↦ rw absolute (HasLink-more g links _ h)
          ])
        ]

    add_ref-found :
        (text : String) (links : List Url)
        → LeadsTo text g
        → HasLink g (add_ref net base (net.parse text) links)
    unfolding new_url_from_parsed
    add_ref-found text links (ref, parsed, host, absolute, form) =
        let same : str_eq (net.hostname base.url) (net.hostname (net.resolve base.url ref)) ≡ true =
          ground (
            arith,
            host,
            eq_iff (net.hostname base.url) (net.hostname (net.resolve base.url ref)),
          ) in
        rw (parsed, same, absolute, form) (HasLink-last links _)

    add_hrefs-more :
        (attrs : List Attr) (links : List Url)
        → HasLink g links
        → HasLink g (add_hrefs net base attrs links)
    unfolding add_hrefs
    add_hrefs-more [] links h = h
    add_hrefs-more (attr ∷ attrs) links h =
        add_hrefs-more attrs _
          (elim (Bool-cases (str_eq attr.key "href" && not (str_eq attr.val ""))) [
            | inl h1 ↦ rw h1 (add_ref-more (net.parse attr.val) links h)
            | inr h1 ↦ rw h1 h
          ])

    add_hrefs-found :
        (text : String) (attrs : List Attr) (links : List Url)
        → LeadsTo text g
        → HasHref text attrs
        → HasLink g (add_hrefs net base attrs links)
    unfolding add_hrefs
    add_hrefs-found text [] links leads h = absurd h
    add_hrefs-found text (attr ∷ attrs) links leads (inl (key, val, full)) =
        let taken : (str_eq attr.key "href" && not (str_eq attr.val "")) ≡ true =
          ground (arith, key, val, full, eq_iff attr.key "href", eq_iff attr.val "") in
        add_hrefs-more attrs _ (
          rw taken (
            subst (λ t. HasLink g (add_ref net base (net.parse t) links)) (sym val)
              (add_ref-found text links leads)))
    add_hrefs-found text (attr ∷ attrs) links leads (inr h) = add_hrefs-found text attrs _ leads h

    mutual
      unfolding dfs dfs_each

      dfs-more : (n : Node) (links : List Url) → HasLink g links → HasLink g (dfs net base n links)
      dfs-more (element name attrs nodes) links h =
          dfs_each-more nodes _ (elim (Bool-cases (str_eq name "a")) [
            | inl h1 ↦ rw h1 (add_hrefs-more attrs links h)
            | inr h1 ↦ rw h1 h
          ])
      dfs-more (other nodes) links h = dfs_each-more nodes links h

      dfs_each-more :
          (ns : Nodes) (links : List Url) → HasLink g links → HasLink g (dfs_each net base ns links)
      dfs_each-more no_child links h = h
      dfs_each-more (child n ns) links h =
          dfs_each-more ns (dfs net base n links) (dfs-more n links h)

    module _ (text : String) (leads : LeadsTo text g) where
      mutual
        unfolding dfs dfs_each

        dfs-found : (n : Node) (links : List Url) → IsHref text n → HasLink g (dfs net base n links)
        dfs-found (element name attrs nodes) links (inl (is_a, i)) =
            let a : str_eq name "a" ≡ true = ground (arith, is_a, eq_iff name "a") in
            dfs_each-more nodes _ (rw a (add_hrefs-found text attrs links leads i))
        dfs-found (element name attrs nodes) links (inr i) = dfs_each-found nodes _ i
        dfs-found (other nodes) links i = dfs_each-found nodes links i

        dfs_each-found :
            (ns : Nodes) (links : List Url)
            → IsHrefBelow text ns
            → HasLink g (dfs_each net base ns links)
        dfs_each-found no_child links i = absurd i
        dfs_each-found (child n ns) links (inl i) =
            dfs_each-more ns (dfs net base n links) (dfs-found n links i)
        dfs_each-found (child n ns) links (inr i) = dfs_each-found ns (dfs net base n links) i

    HasLink-LeadsTo :
        (Given : String → Type 0) (links : List Url)
        → Each (IsLocalLink net base Given) links
        → HasLink g links
        → (text : String) × Given text × LeadsTo text g
    HasLink-LeadsTo Given [] all h = absurd h
    HasLink-LeadsTo Given (u ∷ us)
          ((parent, try, (ref, (text, given, parsed), host, absolute, form)), all) (inl e) =
        (text, given, (ref, parsed, host, absolute, sym e ∙ form))
    HasLink-LeadsTo Given (u ∷ us) (local, all) (inr h) = HasLink-LeadsTo Given us all h

-- Each link that `extractLinks` finds has the base as its parent, and no try, and an address stands
-- among the links exactly if it is the normal form of an absolute URL with the hostname of the base,
-- which is the base with a reference resolved on it, that an `href` of an <a> of the page, not
-- empty, parses to.
pub extract_links_exact :
    (net : NetUrl) (root : Node) (base : Url) (g : GoUrl)
    → Each (IsLocalLink net base (λ text. IsHref text root)) (extract_links net root base)
      × (HasLink g (extract_links net root base)
          ↔ ((text : String) × IsHref text root × LeadsTo net base text g))
unfolding extract_links
extract_links_exact net root base g = (
  extract_links-AreLocal net root base,
  (
    HasLink-LeadsTo net base g (λ text. IsHref text root) (extract_links net root base)
        (extract_links-AreLocal net root base),
    λ (text, i, leads). dfs-found net base g text leads root [] i,
  ),
)
