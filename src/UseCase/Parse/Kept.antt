-- ===== src/UseCase/Parse/Kept.antt =====
-- `Execute` keeps what its ports keep, whatever errors they return.
use oafse.Common.{
  ℕ, ◌≡◌, String, Option, none, some, List, [], ◌∷◌, ltb, str_eq, refl, Bool-cases, inl, inr,
}
use oafse.Common.Int.{ℤ}
use oafse.Common.Go.{
  GoResult, ok, err, panic, queue_empty, transport, script, info_not_found, bad_url, transient,
  fatal, not_text, content, embedding, and_then,
}
use oafse.Domain.Status.{CrawlStatus}
use oafse.Domain.Url.{Url}
use oafse.Port.Fetch.{FetchStatus, FetchData}
use oafse.Metrics.{
  AttemptStatus, status_ok, status_retry, status_impossible, status_give_up, status_manual,
}
use oafse.Port.Crawl.{CrawlPorts, CrawlMetadata, ParseCmd}
use oafse.UseCase.Parse.{
  mark_terminal, give_up, leave_for_recovery, or_give_up, or_leave, push_links, save_parent_link,
  process_page, retry_or_give_up, on_status, idle, on_taken, execute,
}
use oafse.Common.Runs.{Ends}
use oafse.UseCase.Parse.Contract.{IsTerminal, EndsTake, Contract}

module _ {S F : Type 0} (p : CrawlPorts S F) (id : String) (c : Contract p id) where
  open c use {
    Valid, Holds, Quiet, Finished, Broken, Legal, Extractable, Pushable, holds_valid, left_law,
    legal_trans, take_on_law, metadata_law, count_held_law, count_finished_law, mark_law, retry_law,
    push_law, save_page_law, save_link_law, fetch_law, extract_law,
  }

  abbrev After : S → (S → Type 0) → S → Type 0
  After s Q t = Legal s t × Q t

  -- A run from `s` that ends well.
  abbrev Done : S → GoResult (Option ParseCmd) × S → Type 0
  Done s = Ends (After s Valid) (λ _. After s Finished)

  Ends-weaken :
      {A : Type 0} (s t : S) (E : S → Type 0) (P : A → S → Type 0) (x : GoResult A × S)
      → Legal s t
      → Ends (After t E) (λ a. After t (P a)) x
      → Ends (After s E) (λ a. After s (P a)) x
  Ends-weaken s t E P (ok a, u) q (w, h) = (legal_trans s t u q w, h)
  Ends-weaken s t E P (err e, u) q (w, h) = (legal_trans s t u q w, h)
  Ends-weaken s t E P (panic, u) q h = h

  -- A mark at the end of a run: its error is returned.
  marked_rule :
      (u : Url) (s : S) (x : GoResult (Unit {0}) × S)
      → Ends (After s (Holds u)) (λ _. After s Finished) x
      → Done s (and_then x (λ _ t. (ok none, t)))
  marked_rule u s (ok a, t) h = h
  marked_rule u s (err e, t) (w, h) = (w, holds_valid u t h)
  marked_rule u s (panic, t) h = h

  mark_terminal_rule :
      (u : Url) (status : CrawlStatus) (label : AttemptStatus) (s : S)
      → IsTerminal status
      → Holds u s
      → Done s (mark_terminal p u status label s)
  unfolding mark_terminal
  mark_terminal_rule u status label s fin h =
      let t = p.count_attempt label s in
      let (w, held) = count_held_law u label s h in
      marked_rule u s (p.mark_processed (p.url_string u) status t) (
        Ends-weaken s t (Holds u) (λ _. Finished) (p.mark_processed (p.url_string u) status t) w
          (mark_law u status t held fin))

  -- A count at the end of a run.
  counted_rule :
      (label : AttemptStatus) (s t : S)
      → After s Finished t
      → Done s (ok none, p.count_attempt label t)
  counted_rule label s t (w, done) =
      let (more, still_done) = count_finished_law label t done in
      (legal_trans s t (p.count_attempt label t) w more, still_done)

  give_up_rule : (u : Url) (s t : S) → After s (Holds u) t → Done s (give_up p u t)
  unfolding give_up
  give_up_rule u s t (w, h) =
      Ends-weaken s t Valid (λ _. Finished) (mark_terminal p u CrawlStatus.give_up status_give_up t)
        w (mark_terminal_rule u CrawlStatus.give_up status_give_up t tt h)

  or_give_up_rule :
      {A : Type 0} (u : Url) (s : S) (P : A → S → Type 0) (x : GoResult A × S)
      (k : A → S → GoResult (Option ParseCmd) × S)
      → Ends (After s (Holds u)) P x
      → ((a : A) (t : S) → P a t → Done s (k a t))
      → Done s (or_give_up p u x k)
  or_give_up_rule u s P (ok a, t) k h next = next a t h
  or_give_up_rule u s P (err e, t) k h next = give_up_rule u s t h
  or_give_up_rule u s P (panic, t) k h next = h

  or_leave_rule :
      {A : Type 0} (u : Url) (s : S) (P : A → S → Type 0) (x : GoResult A × S)
      (k : A → S → GoResult (Option ParseCmd) × S)
      → Ends (After s λ t. Holds u t × Broken t) P x
      → ((a : A) (t : S) → P a t → Done s (k a t))
      → Done s (or_leave p u x k)
  unfolding leave_for_recovery
  or_leave_rule u s P (ok a, t) k h next = next a t h
  or_leave_rule u s P (err queue_empty, t) k h next = give_up_rule u s t (h.0, h.1.0)
  or_leave_rule u s P (err transport, t) k h next = give_up_rule u s t (h.0, h.1.0)
  or_leave_rule u s P (err script, t) k h next = give_up_rule u s t (h.0, h.1.0)
  or_leave_rule u s P (err info_not_found, t) k h next = give_up_rule u s t (h.0, h.1.0)
  or_leave_rule u s P (err bad_url, t) k h next = give_up_rule u s t (h.0, h.1.0)
  or_leave_rule u s P (err transient, t) k h next = (h.0, left_law u t h.1.0 h.1.1)
  or_leave_rule u s P (err fatal, t) k h next = give_up_rule u s t (h.0, h.1.0)
  or_leave_rule u s P (err not_text, t) k h next = give_up_rule u s t (h.0, h.1.0)
  or_leave_rule u s P (err content, t) k h next = give_up_rule u s t (h.0, h.1.0)
  or_leave_rule u s P (err embedding, t) k h next = give_up_rule u s t (h.0, h.1.0)
  or_leave_rule u s P (panic, t) k h next = h

  finish_rule :
      (u : Url) (s t : S)
      → After s (Holds u) t
      → Done s (
          or_give_up p u
            (p.mark_processed (p.url_string u) CrawlStatus.done t)
            λ _ s'. (ok none, p.count_attempt status_ok s'))
  finish_rule u s t (w, h) =
      or_give_up_rule u s (λ _. After s Finished)
        (p.mark_processed (p.url_string u) CrawlStatus.done t)
        (λ _ s'. (ok none, p.count_attempt status_ok s'))
        (Ends-weaken s t (Holds u) (λ _. Finished)
          (p.mark_processed (p.url_string u) CrawlStatus.done t) w
          (mark_law u CrawlStatus.done t h tt))
        (λ a t' done. counted_rule status_ok s t' done)

  push_links_rule :
      (u : Url) (links : List Url) (s t : S)
      → After s (Holds u) t
      → Pushable links
      → Done s (push_links p u links t)
  unfolding push_links
  push_links_rule u [] s t held push = finish_rule u s t held
  push_links_rule u (l ∷ ls) s t (w, h) push =
      or_give_up_rule u s (λ _. After s (Holds u)) (p.push_urls (l ∷ ls) t)
        (λ _ s'.
          or_give_up p u (p.mark_processed (p.url_string u) CrawlStatus.done s')
            λ _ s''. (ok none, p.count_attempt status_ok s''))
        (Ends-weaken s t (Holds u) (λ _. Holds u) (p.push_urls (l ∷ ls) t) w
          (push_law u (l ∷ ls) t h push))
        (λ a t' held. finish_rule u s t' held)

  save_parent_link_rule :
      (u : Url) (page_id : ℕ) (links : List Url) (s t : S)
      → After s (Holds u) t
      → Pushable links
      → Done s (save_parent_link p u page_id links t)
  unfolding save_parent_link
  save_parent_link_rule u page_id links s t (w, h) push = elim (Bool-cases (str_eq u.parent "")) [
    | inl e ↦ rw e (push_links_rule u links s t (w, h) push)
    | inr e ↦ rw e (
        or_leave_rule u s (λ _. After s (Holds u)) (p.save_link u.parent page_id t)
          (λ _ s'. push_links p u links s')
          (Ends-weaken s t (λ v. Holds u v × Broken v) (λ _. Holds u)
            (p.save_link u.parent page_id t) w (save_link_law u u.parent page_id t h))
          (λ a t' held. push_links_rule u links s t' held push))
  ]

  process_page_rule :
      (u : Url) (fd : FetchData) (s t : S)
      → After s (Holds u) t
      → Extractable fd
      → Done s (process_page p u fd t)
  unfolding process_page
  process_page_rule u fd s t (w, h) good =
      or_give_up_rule u s (λ found t'. After s (λ v. Holds u v × Pushable found.1) t')
        (p.extract fd t)
        (λ found t'.
          or_leave p u (p.save_page found.0 t')
            λ page_id t''. save_parent_link p u page_id found.1 t'')
        (Ends-weaken s t (Holds u) (λ found v. Holds u v × Pushable found.1) (p.extract fd t) w
          (extract_law u fd t h good))
        (λ found t' held.
          or_leave_rule u s (λ _. After s (Holds u)) (p.save_page found.0 t')
            (λ page_id t''. save_parent_link p u page_id found.1 t'')
            (Ends-weaken s t' (λ v. Holds u v × Broken v) (λ _. Holds u) (p.save_page found.0 t')
              held.0 (save_page_law u found.0 t' held.1.0))
            (λ page_id t'' kept. save_parent_link_rule u page_id found.1 s t'' kept held.1.1))

  retry_rule :
      (u : Url) (at : Option ℤ) (s t : S) → After s (Holds u) t → Done s (retry_or_give_up p u at t)
  retry_rule u none s t held = give_up_rule u s t held
  retry_rule u (some at) s t (w, h) =
      or_give_up_rule u s (λ _. After s Finished) (p.retry_url (p.url_string u) at t)
        (λ _ s'. (ok none, p.count_attempt status_retry s'))
        (Ends-weaken s t (Holds u) (λ _. Finished) (p.retry_url (p.url_string u) at t) w
          (retry_law u at t h))
        (λ a t' done. counted_rule status_retry s t' done)

  on_status_rule :
      (u : Url) (fd : FetchData) (status : FetchStatus) (s t : S)
      → After s (Holds u) t
      → (status ≡ FetchStatus.fetch_ok → Extractable fd)
      → Done s (on_status p u fd status t)
  unfolding mark_terminal give_up
  on_status_rule u fd FetchStatus.fetch_ok s t held good =
      process_page_rule u fd s t held (good refl)
  on_status_rule u fd FetchStatus.fetch_retry s t held good =
      retry_rule u (p.calc_retry_time u.try t) s t held
  on_status_rule u fd FetchStatus.fetch_manual s t (w, h) good =
      Ends-weaken s t Valid (λ _. Finished) (mark_terminal p u CrawlStatus.manual status_manual t) w
        (mark_terminal_rule u CrawlStatus.manual status_manual t tt h)
  on_status_rule u fd FetchStatus.fetch_impossible s t (w, h) good =
      Ends-weaken s t Valid (λ _. Finished)
        (mark_terminal p u CrawlStatus.give_up status_impossible t) w
        (mark_terminal_rule u CrawlStatus.give_up status_impossible t tt h)

  idle_rule : (md : CrawlMetadata) (s t : S) → After s Finished t → Done s (idle p md t)
  unfolding idle
  idle_rule md s t valid = elim (Bool-cases (ltb 0 md.unprocessed_count)) [
    | inl e ↦ rw e valid
    | inr e ↦ rw e valid
  ]

  idle_each :
      (s : S) (x : GoResult CrawlMetadata × S)
      → Ends (After s Valid) (λ _. After s Finished) x
      → Done s (and_then x (idle p))
  idle_each s (ok md, t) h = idle_rule md s t h
  idle_each s (err e, t) h = h
  idle_each s (panic, t) h = h

  empty_rule : (s t : S) → After s Quiet t → Done s (and_then (p.get_crawl_metadata t) (idle p))
  empty_rule s t (w, v) =
      idle_each s (p.get_crawl_metadata t)
        (Ends-weaken s t Valid (λ _. Finished) (p.get_crawl_metadata t) w (metadata_law t v))

  on_taken_rule :
      (s : S) (x : GoResult Url × S)
      → EndsTake (After s Valid) (After s Quiet) (λ u. After s (Holds u)) x
      → Done s (on_taken p x)
  on_taken_rule s (ok u, t) (w, h) =
      or_give_up_rule u s
        (λ fd t'. After s (λ v. Holds u v × (fd.status ≡ FetchStatus.fetch_ok → Extractable fd)) t')
        (p.fetch u t) (λ fd s'. on_status p u fd fd.status s')
        (Ends-weaken s t (Holds u)
          (λ fd v. Holds u v × (fd.status ≡ FetchStatus.fetch_ok → Extractable fd)) (p.fetch u t) w
          (fetch_law u t h))
        (λ fd t' held. on_status_rule u fd fd.status s t' (held.0, held.1.0) held.1.1)
  on_taken_rule s (err queue_empty, t) h = empty_rule s t h
  on_taken_rule s (err transport, t) h = h
  on_taken_rule s (err script, t) h = h
  on_taken_rule s (err info_not_found, t) h = h
  on_taken_rule s (err bad_url, t) h = h
  on_taken_rule s (err transient, t) h = h
  on_taken_rule s (err fatal, t) h = h
  on_taken_rule s (err not_text, t) h = h
  on_taken_rule s (err content, t) h = h
  on_taken_rule s (err embedding, t) h = h
  on_taken_rule s (panic, t) h = h

  -- Where the ports meet the contract, `Execute` from a valid state does not panic, with a result
  -- or with an error, and the state that it leaves is valid and on a legal path from the first.
  pub execute-Ends :
      (s : S)
      → Quiet s
      → Ends (λ t. Legal s t × Valid t) (λ _ t. Legal s t × Finished t) (execute p id s)
  unfolding execute
  execute-Ends s v = on_taken_rule s (p.take_on id s) (take_on_law s v)
