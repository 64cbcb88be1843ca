-- ===== src/Redis/Processing/Undisturbed.antt =====
-- A health check that no other client disturbs: its recoveries are steps of `Redis.Reach`,
-- whatever of its requests fail.
use oafse.Common.{
  ℕ, ◌+◌, ◌≡◌, ◌≤◌, ◌<◌, String, Option, none, some, List, [], ◌∷◌, ◌++◌, ◌∙◌, refl, arith, eq_iff,
  str_eq, false, Bool-cases, inl, inr, ap,
}
use oafse.Storage.Model.{CrawlStatus}
use oafse.Redis.Info.{UrlInfo}
use oafse.Redis.Api.{Redis}
use oafse.Redis.Scripts.{hget}
use oafse.Redis.Net.{Link, call, up, request_lost, reply_lost, GoResult, ok, err, panic, and_then}
use oafse.Redis.Placement.{status_of}
use oafse.Redis.Reach.{Reach, recovers, here, next}
use oafse.Redis.Processing.{
  Visit, Scan, scan_failed, batch, is_stale, recover_url, check_found, check_url, check_batch,
  health_check,
}
use oafse.Redis.Processing.Recover.{hget-recover}
use oafse.Redis.Processing.Health.{visits}

-- The visits of all replies.
abbrev pub visits_of : List Scan → List Visit
visits_of [] = []
visits_of (scan_failed ∷ scans) = visits_of scans
visits_of (batch vs ∷ scans) = vs ++ visits_of scans

-- Each URL is visited once at most, and only if it is in processing.
pub record IsSweep (r : Redis) (vs : List Visit) (s : r.Store) : Type 0 where
  pub once : (u : String) → visits u vs ≤ 1
  pub held : (u : String) → 0 < visits u vs → status_of (hget r u s) ≡ CrawlStatus.processing

visits-append : (u : String) (vs ws : List Visit) → visits u (vs ++ ws) ≡ visits u vs + visits u ws
visits-append u [] ws = omega arith
visits-append u (v ∷ vs) ws = ground (arith, visits-append u vs ws)

module _ (r : Redis) (threshold : ℕ) where
  open r use {Store, contents}

  pub Reach-append : {s t u : Store} → Reach r s t → Reach r t u → Reach r s u
  Reach-append path here = path
  Reach-append path (next more step) = next (Reach-append path more) step

  -- What a call may do to a URL in processing: nothing, or one recovery.
  record Recovers (url : String) (s t : Store) : Type 0 where
    path : Reach r s t
    others : (u : String) → str_eq url u ≡ false → hget r u t ≡ hget r u s

  Recovers-none : (url : String) (s : Store) → Recovers url s s
  Recovers-none url s = record { path = here; others = λ u e. refl }

  recover_url-Recovers :
      (link : Link) (url : String) (s : Store)
      → status_of (hget r url s) ≡ CrawlStatus.processing
      → Recovers url s (recover_url r link url s).1
  unfolding recover_url
  recover_url-Recovers up url s st = record {
    path = next here (recovers url st);
    others = λ u e. ground (arith, hget-recover r url u s, e);
  }
  recover_url-Recovers request_lost url s st = Recovers-none url s
  recover_url-Recovers reply_lost url s st = record {
    path = next here (recovers url st);
    others = λ u e. ground (arith, hget-recover r url u s, e);
  }

  check_found-Recovers :
      (v : Visit) (o : Option UrlInfo) (s : Store)
      → status_of (hget r v.url s) ≡ CrawlStatus.processing
      → Recovers v.url s (check_found r threshold v o s).1
  check_found-Recovers v none s st = recover_url-Recovers v.recover_link v.url s st
  check_found-Recovers v (some info) s st =
      elim (Bool-cases (is_stale v.now threshold info.take_on_at)) [
        | inl e ↦ rw e (recover_url-Recovers v.recover_link v.url s st)
        | inr e ↦ rw e (Recovers-none v.url s)
      ]

  -- HGET leaves the store.
  check_link-Recovers :
      (link : Link) (v : Visit) (s : Store)
      → status_of (hget r v.url s) ≡ CrawlStatus.processing
      → Recovers v.url s
          (and_then
            (call link (λ s'. (hget r v.url s', s')) s)
            λ o s'. check_found r threshold v o s').1
  check_link-Recovers up v s st = check_found-Recovers v (hget r v.url s) s st
  check_link-Recovers request_lost v s st = Recovers-none v.url s
  check_link-Recovers reply_lost v s st = Recovers-none v.url s

  check_url-Recovers :
      (v : Visit) (s : Store)
      → status_of (hget r v.url s) ≡ CrawlStatus.processing
      → Recovers v.url s (check_url r threshold v s).1
  unfolding check_url
  check_url-Recovers v s st = check_link-Recovers v.hget_link v s st

  IsSweep-tail :
      (v : Visit) (vs : List Visit) (s t : Store)
      → IsSweep r (v ∷ vs) s
      → Recovers v.url s t
      → IsSweep r vs t
  IsSweep-tail v vs s t sweep c = record {
    once = λ u. ground (arith, sweep.once u);
    held = λ u more. elim (Bool-cases (str_eq v.url u)) [
      | inl e ↦ absurd (ground (arith, sweep.once u, e, more))
      | inr e ↦ ap status_of (c.others u e) ∙ sweep.held u (ground (arith, more))
    ];
  }

  IsSweep-head :
      (v : Visit) (vs : List Visit) (s : Store)
      → IsSweep r (v ∷ vs) s
      → status_of (hget r v.url s) ≡ CrawlStatus.processing
  IsSweep-head v vs s sweep = sweep.held v.url (ground (arith, eq_iff v.url v.url))

  IsSweep-drop : (vs ws : List Visit) (s : Store) → IsSweep r (vs ++ ws) s → IsSweep r ws s
  IsSweep-drop vs ws s sweep = record {
    once = λ u. ground (arith, sweep.once u, visits-append u vs ws);
    held = λ u more. sweep.held u (ground (arith, more, visits-append u vs ws));
  }

  IsSweep-nil : (s : Store) → IsSweep r [] s
  IsSweep-nil s = record { once = λ u. omega arith; held = λ u more. absurd (omega arith) }

  -- A part of the health check before the visits `rest`.
  record Sweeps (rest : List Visit) (s t : Store) : Type 0 where
    path : Reach r s t
    left : IsSweep r rest t

  and_then-Sweeps :
      {A B : Type 0} (middle rest : List Visit) (s : Store) (x : GoResult A × Store)
      (k : A → Store → GoResult B × Store)
      → ((t : Store) → IsSweep r middle t → IsSweep r rest t)
      → Sweeps middle s x.1
      → ((a : A) → IsSweep r middle x.1 → Sweeps rest x.1 (k a x.1).1)
      → Sweeps rest s (and_then x k).1
  and_then-Sweeps middle rest s (ok a, t) k drop p q = record {
    path = Reach-append p.path (q a p.left).path;
    left = (q a p.left).left;
  }
  and_then-Sweeps middle rest s (err e, t) k drop p q = record {
    path = p.path;
    left = drop t p.left;
  }
  and_then-Sweeps middle rest s (panic, t) k drop p q = record {
    path = p.path;
    left = drop t p.left;
  }

  check_batch-Sweeps :
      (vs rest : List Visit) (s : Store)
      → IsSweep r (vs ++ rest) s
      → Sweeps rest s (check_batch r threshold vs s).1
  unfolding check_batch
  check_batch-Sweeps [] rest s sweep = record { path = here; left = sweep }
  check_batch-Sweeps (v ∷ vs) rest s sweep =
      let c = check_url-Recovers v s (IsSweep-head v (vs ++ rest) s sweep) in
      let t = (check_url r threshold v s).1 in
      and_then-Sweeps (vs ++ rest) rest s (check_url r threshold v s)
        (λ _ s'. check_batch r threshold vs s') (IsSweep-drop vs rest)
        (record { path = c.path; left = IsSweep-tail v (vs ++ rest) s t sweep c })
        (λ a left. check_batch-Sweeps vs rest t left)

  health_check-Sweeps :
      (scans : List Scan) (s : Store)
      → IsSweep r (visits_of scans) s
      → Sweeps [] s (health_check r threshold scans s).1
  unfolding health_check
  health_check-Sweeps [] s sweep = record { path = here; left = sweep }
  health_check-Sweeps (scan_failed ∷ scans) s sweep = record { path = here; left = IsSweep-nil s }
  health_check-Sweeps (batch vs ∷ scans) s sweep =
      let t = (check_batch r threshold vs s).1 in
      and_then-Sweeps (visits_of scans) [] s (check_batch r threshold vs s)
        (λ _ s'. health_check r threshold scans s') (λ u _. IsSweep-nil u)
        (check_batch-Sweeps vs (visits_of scans) s sweep)
        (λ a left. health_check-Sweeps scans t left)

  -- A health check that no other client disturbs, over replies that name each URL once at most
  -- and only URLs in processing, is a sequence of legal steps, whatever of its requests fail.
  pub health_check-Reach :
      (scans : List Scan) (s : Store)
      → IsSweep r (visits_of scans) s
      → Reach r s (health_check r threshold scans s).1
  health_check-Reach scans s sweep = (health_check-Sweeps scans s sweep).path
