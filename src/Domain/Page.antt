-- ===== src/Domain/Page.antt =====
-- internal/domain/model/page.go and the pages of internal/infrastructure/storage.
use Prim.Native.String.{◌++◌ as str_append}
use oafse.Common.{String, Option, List, str_eq, if◌then◌else◌}
use oafse.Common.Int.{ℤ}

-- `F` is the type of float32. A slice is nil, or its elements; the zero `CrawledAt` is `none`.
pub record Page (F : Type 0) : Type 0 where
  pub url : String
  pub title : String
  pub description : String
  pub content : String
  pub crawled_at : Option ℤ
  pub vector : Option (List F)

-- One labelled part of the text; an empty field has none.
abbrev pub part : String → String → String → String
part label field stop = if str_eq field "" then "" else str_append label (str_append field stop)

unfoldable pub format_page_text : {F : Type 0} → Page F → String
format_page_text p =
    str_append (part "Title: " p.title ". ")
      (str_append (part "Description: " p.description ". ") (part "Content: " p.content "."))
