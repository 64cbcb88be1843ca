-- ===== src/UseCase/Index.antt =====
-- internal/application/usecase/index.go. Metrics and logs are left out.
pub mod Drain
pub mod Stop
use oafse.Common.{
  ℕ, suc, ◌+◌, String, Option, none, some, List, [], ◌∷◌, map, ltb, if◌then◌else◌, Bool, true,
  false,
}
use oafse.Common.Go.{GoResult, ok, err, panic, Error, and_then}
use oafse.Domain.Page.{Page, format_page_text}

-- The page repository and the embedding client, over one state of the world.
pub record IndexPorts (S F : Type 0) : Type 0 where
  pub get_unvectorized : S → GoResult (List (Page F)) × S
  pub save_page : Page F → S → GoResult ℕ × S
  pub embed_batch : List String → S → GoResult (List (Option (List F))) × S

-- A failed save is logged and passed over.
abbrev pub saved_or_skipped :
    {S A : Type 0} → GoResult ℕ × S → (S → GoResult A × S) → GoResult A × S
saved_or_skipped (ok id, s) k = k s
saved_or_skipped (err e, s) k = k s
saved_or_skipped (panic, s) k = (panic, s)

module _ {S F : Type 0} (p : IndexPorts S F) where
  -- The loop over the pages; `vectors[i]` is out of range where there are fewer vectors.
  unfoldable pub save_each : List (Page F) → List (Option (List F)) → S → GoResult (Unit {0}) × S
  save_each [] vectors s = (ok tt, s)
  save_each (page ∷ pages) [] s = (panic, s)
  save_each (page ∷ pages) (v ∷ vectors) s =
      saved_or_skipped (p.save_page (record page { vector = v }) s) (save_each pages vectors)

  abbrev pub embed_pages : List (Page F) → S → GoResult (Unit {0}) × S
  embed_pages [] s = (ok tt, s)
  embed_pages (page ∷ pages) s =
      and_then (p.embed_batch (map format_page_text (page ∷ pages)) s)
        λ vectors s'. save_each (page ∷ pages) vectors s'

  unfoldable pub process : S → GoResult (Unit {0}) × S
  unfolding save_each
  process s = and_then (p.get_unvectorized s) embed_pages

-- What `Execute` receives, in order; a wake of `hasWork` comes with the result of `process`.
pub data Event : Type 0 where
  has_work : GoResult (Unit {0}) → Event
  listen_error : Event
  context_done : Event

-- `errCount` after a run of `process`; a panic ends the program.
abbrev pub err_count_after : GoResult (Unit {0}) → ℕ → Option ℕ
err_count_after (ok _) n = some 0
err_count_after (err _) n = some (n + 1)
err_count_after panic n = none

-- Why `Execute` returned, or `listening` with `errCount` when the events are used up.
pub data Exit : Type 0 where
  too_many_errors : Exit
  canceled : Exit
  panicked : Exit
  listening : ℕ → Exit

-- The test behind the `select`.
abbrev pub unless_too_many : ℕ → (ℕ → Exit) → Exit
unless_too_many n again = if ltb 10 n then too_many_errors else again n

abbrev pub after_work : Option ℕ → (ℕ → Exit) → Exit
after_work none again = panicked
after_work (some n) again = unless_too_many n again

unfoldable pub listen : List Event → ℕ → Exit
listen [] n = listening n
listen (has_work result ∷ events) n = after_work (err_count_after result n) (listen events)
listen (listen_error ∷ events) n = unless_too_many (n + 1) (listen events)
listen (context_done ∷ events) n = canceled

-- `Execute`, given the result of the cold start.
abbrev pub after_cold_start : Option ℕ → List Event → Exit
after_cold_start none events = panicked
after_cold_start (some n) events = listen events n

unfoldable pub execute : GoResult (Unit {0}) → List Event → Exit
unfolding listen
execute cold_start events = after_cold_start (err_count_after cold_start 0) events
