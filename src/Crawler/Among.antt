-- ===== src/Crawler/Among.antt =====
-- A worker among others that keep to the calls of the URL repository.
use oafse.Common.{ℕ, ◌≢◌, String}
use oafse.Domain.Url.{NetUrl}
use oafse.Redis.Api.{Redis}
use oafse.Redis.Net.{reply_lost}
use oafse.Crawler.{Outside}
use oafse.Crawler.Sound.{IsSound}
use oafse.Crawler.Visit.{UrlLaws, AnswersProper}
use oafse.Crawler.Laws.{Relies}
use oafse.Crawler.Turns.{Turns, Turns-Spared}

-- Neither the worker nor the bystander.
abbrev pub IsThird : String → String → String → Type 0
IsThird id other third = (third ≢ id) × (third ≢ other)

-- Between the calls of the worker the other clients make calls of the URL repository, as other
-- workers make them, push start URLs, and recover what third workers hold; the replies to the requests that settle a URL are not lost;
-- net/http answers from URLs that it made.
pub record RunsAmong (net : NetUrl) (laws : UrlLaws net) (r : Redis) {F : Type 0}
    (o : Outside r.Store F) (id other : String) : Type 0 where
  pub distinct : id ≢ other
  pub turns :
      (n : ℕ) (s : r.Store) → IsSound net r s → Turns net r (IsThird id other) s (o.others n s)
  pub settles : (n : ℕ) → o.settle_link n ≢ reply_lost
  pub answers_proper : (n : ℕ) → AnswersProper net laws (o.tools n)

module _ (net : NetUrl) (laws : UrlLaws net) (r : Redis) {F : Type 0} (o : Outside r.Store F)
    (id other : String) (among : RunsAmong net laws r o id other) where
  open r use {Store}

  -- The others' calls are all that a worker relies on.
  pub RunsAmong-Relies : Relies net laws r o id other
  RunsAmong-Relies = record {
    distinct = among.distinct;
    others_move = λ n s sound.
        (Turns-Spared net r other (IsThird id other) (λ b third. third.1) sound
          (among.turns n s sound)).0;
    others_keep = λ n s url sound.
        let spared =
          Turns-Spared net r id (IsThird id other) (λ b third. third.0) sound
            (among.turns n s sound) in
        (spared.0.1.0 url, spared.1 url);
    settles = among.settles;
    answers_proper = among.answers_proper;
  }
