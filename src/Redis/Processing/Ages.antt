-- ===== src/Redis/Processing/Ages.antt =====
-- Which visits of the health check find a URL too old.
use oafse.Common.{ℕ, ◌+◌, ◌≡◌, ◌≤◌, String, List, [], ◌∷◌, ◌++◌, refl, arith, true, false}
use oafse.Common.Int.{ℤ, pos, negsuc}
use oafse.Redis.Info.{UrlInfo}
use oafse.Redis.Processing.{Visit, is_stale}
use oafse.Redis.Processing.Health.{visits, stale_visits, recovered_times}

-- The clock, at each visit.
abbrev pub AllBetween : ℕ → ℕ → List Visit → Type 0
AllBetween start stop [] = Unit
AllBetween start stop (v ∷ vs) = (start ≤ v.now) × (v.now ≤ stop) × AllBetween start stop vs

module _ (threshold : ℕ) where
  pub stale_visits-append :
      (u : String) (taken : ℤ) (vs ws : List Visit)
      → stale_visits threshold u taken (vs ++ ws)
        ≡ stale_visits threshold u taken vs + stale_visits threshold u taken ws
  stale_visits-append u taken [] ws = omega arith
  stale_visits-append u taken (v ∷ vs) ws = ground (arith, stale_visits-append u taken vs ws)

  pub recovered_append :
      (u : String) (vs ws : List Visit) (info : UrlInfo)
      → let once = recovered_times (stale_visits threshold u info.take_on_at vs) info in
        recovered_times (stale_visits threshold u once.take_on_at ws) once
        ≡ recovered_times (stale_visits threshold u info.take_on_at (vs ++ ws)) info
  recovered_append u vs ws info = ground (arith, stale_visits-append u info.take_on_at vs ws)

  pub count_append :
      (u : String) (vs ws : List Visit) (info : UrlInfo) (middle old : ℕ)
      → middle ≡ stale_visits threshold u info.take_on_at vs + old
      → let once = recovered_times (stale_visits threshold u info.take_on_at vs) info in
        stale_visits threshold u once.take_on_at ws + middle
        ≡ stale_visits threshold u info.take_on_at (vs ++ ws) + old
  count_append u vs ws info middle old h =
      ground (arith, stale_visits-append u info.take_on_at vs ws)

  is_stale_later :
      (start now : ℕ) (taken : ℤ)
      → start ≤ now
      → is_stale start threshold taken ≡ true
      → is_stale now threshold taken ≡ true
  is_stale_later start now (pos taken) le st = ground (arith, le, st)
  is_stale_later start now (negsuc before) le st = ground (arith, le, st)

  pub stale_visits_all :
      (u : String) (taken : ℤ) (start stop : ℕ) (vs : List Visit)
      → AllBetween start stop vs
      → is_stale start threshold taken ≡ true
      → stale_visits threshold u taken vs ≡ visits u vs
  stale_visits_all u taken start stop [] b st = refl
  stale_visits_all u taken start stop (v ∷ vs) (low, high, b) st =
      ground (
        arith,
        is_stale_later start v.now taken low st,
        stale_visits_all u taken start stop vs b st,
      )

  pub stale_visits_none :
      (u : String) (taken : ℤ) (start stop : ℕ) (vs : List Visit)
      → AllBetween start stop vs
      → is_stale stop threshold taken ≡ false
      → stale_visits threshold u taken vs ≡ 0
  stale_visits_none u taken start stop [] b st = refl
  stale_visits_none u taken start stop (v ∷ vs) (low, high, b) st =
      ground
        (arith, is_stale_later v.now stop taken high, stale_visits_none u taken start stop vs b st)

  pub stale_visits-le :
      (u : String) (taken : ℤ) (vs : List Visit) → stale_visits threshold u taken vs ≤ visits u vs
  stale_visits-le u taken [] = omega arith
  stale_visits-le u taken (v ∷ vs) = ground (arith, stale_visits-le u taken vs)
