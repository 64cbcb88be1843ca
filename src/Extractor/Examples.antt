-- ===== src/Extractor/Examples.antt =====
-- The theorem about the links at a small page.
use oafse.Common.{◌≡◌, ◌↔◌, String, [], ◌∷◌, refl}
use oafse.Extractor.{Node, element, other, no_child, child, extract_links}
use oafse.Extractor.Links.{Each, IsHref, IsLocalLink}
use oafse.Extractor.Exact.{HasLink, LeadsTo, extract_links_exact}
use oafse.Samples.{net, home}

abbrev anchor : String → Node
anchor href = element "a" (record { key = "href"; val = href } ∷ []) no_child

-- A link to the same host, and one to another.
abbrev document : Node
document =
    other
      (child (element "p" [] (child (anchor "a.org") no_child)) (child (anchor "b.org") no_child))

one_link : extract_links net document home ≡ record home { parent = "a.org" } ∷ []
unfolding extract_links
one_link = refl

extract_links_exact_example :
    Each (IsLocalLink net home (λ text. IsHref text document)) (extract_links net document home)
    × (HasLink home.url (extract_links net document home)
        ↔ ((text : String) × IsHref text document × LeadsTo net home text home.url))
extract_links_exact_example = extract_links_exact net document home home.url
