-- ===== src/Search/Examples.antt =====
-- The search server at two pages.
use oafse.Common.{
  ℕ, ◌≡◌, ◌≢◌, String, Option, none, some, List, [], ◌∷◌, map, ltb, refl, arith, eq_iff, true,
}
use oafse.Common.Int.{ℤ, pos}
use oafse.Common.Go.{ok}
use oafse.Storage.Model.{PageDb}
use oafse.Storage.Mapper.{to_domain_page}
use oafse.Postgres.Errors.{db_up}
use oafse.Postgres.Pages.{Row, Tables}
use oafse.Postgres.Similar.{Distance, OrderLaws}
use oafse.Postgres.Similar.Top.{IsTop}
use oafse.UseCase.Query.{query}
use oafse.Http.{found, to_search_response, serve_search}
use oafse.Search.{query_ports, serve_search_near}

-- Vectors by their first number.
abbrev first : List ℕ → ℕ
first [] = 0
first (x ∷ xs) = x

abbrev distance : Distance ℕ
distance = record {
  is_near = λ v q. true;
  is_closer = λ q a b. ltb (first a) (first b);
  visited = λ q rows. rows;
}

distance-laws : OrderLaws distance (1 ∷ [])
distance-laws = record {
  asym = λ a b h. ground (arith, h);
  trans = λ a b c h k. ground (arith, h, k);
}

abbrev row : ℕ → String → List ℕ → Row ℕ
row id url vector = record {
  id = id;
  url = url;
  title = "A";
  description = "";
  content = "words";
  crawled_at = none;
  vector = some vector;
  can_be_vectorized = true;
}

abbrev tables : Tables ℕ
tables = record {
  next_id = 3;
  pages = row 1 "https://a.org" (7 ∷ []) ∷ row 2 "https://b.org" (3 ∷ []) ∷ [];
  links = [];
}

abbrev service : String → Option (List ℕ)
service text = some (1 ∷ [])

abbrev atoi : String → Option ℤ
atoi text = some (pos 5)

words-full : ◌≢◌ {A = String} "words" ""
words-full = λ e. ground (arith, eq_iff "words" "", e)

serve_search_near_example :
    let answer =
      serve_search (query (query_ports distance service db_up)) atoi "words" "5" tables in
    (answer.1 ≡ tables)
    × ((pages : List (PageDb ℕ)) × (answer.0
          ≡ ok (found (to_search_response (map to_domain_page pages))))
        × IsTop distance (1 ∷ []) 5 tables.pages pages)
serve_search_near_example =
    serve_search_near distance service atoi "words" "5" (1 ∷ []) 5 tables distance-laws refl
      words-full refl refl
