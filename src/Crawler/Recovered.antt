-- ===== src/Crawler/Recovered.antt =====
-- `RecoverURL` of a URL that some worker holds, to the other workers.
use oafse.Common.{
  ◌≡◌, ◌≢◌, ◌∙◌, String, true, false, Option, none, some, refl, sym, subst, ap, arith, eq_iff,
  str_eq, Bool-cases, inl, inr,
}
use oafse.Domain.Url.{NetUrl}
use oafse.Redis.Info.{UrlInfo}
use oafse.Redis.Api.{Redis}
use oafse.Redis.Scripts.{hget, recover}
use oafse.Redis.Net.{Link, up, request_lost, reply_lost}
use oafse.Redis.Processing.{recover_url}
use oafse.Redis.Processing.Recover.{recovered_info, hget-recover}
use oafse.Redis.Reach.{recovers}
use oafse.Crawler.Readable.{AllReadable, IsReadable, parent_field}
use oafse.Crawler.Holding.{unheld_of_owner}
use oafse.Crawler.Settle.{held-processing}
use oafse.Crawler.Sound.{IsHeld, IsSound, Holds, Keeps, Moves, Moves-refl, Step-Moves}
use oafse.Crawler.Gains.{GainsNone}

recovered-parent :
    (owner : String) (o : Option UrlInfo)
    → IsHeld owner o
    → parent_field (some (recovered_info o)) ≡ parent_field o
recovered-parent owner none h = absurd h
recovered-parent owner (some i) h = refl

recovered-unheld : (id : String) (o : Option UrlInfo) → ¬ IsHeld id (some (recovered_info o))
recovered-unheld id none h = cc
recovered-unheld id (some i) h = cc

module _ (net : NetUrl) (r : Redis) (owner url : String) (s : r.Store)
    (held : Holds net r owner url s) where
  open r use {Store, contents}

  -- The record of a URL behind a recovery.
  same_url :
      (u : String)
      → str_eq url u ≡ true
      → hget r u (recover r url s) ≡ some (recovered_info (hget r u s))
  same_url u e =
      let is_url : url ≡ u = ground (arith, e, eq_iff url u) in
      hget-recover r url u s ∙ rw (e, is_url) refl

  other_url : (u : String) → str_eq url u ≡ false → hget r u (recover r url s) ≡ hget r u s
  other_url u e = hget-recover r url u s ∙ rw e refl

  url_owner : (u : String) → str_eq url u ≡ true → IsHeld owner (hget r u s)
  url_owner u e =
      let is_url : url ≡ u = ground (arith, e, eq_iff url u) in
      subst (λ (v : String). IsHeld owner (hget r v s)) is_url held

  recover-AllReadable : AllReadable net (contents s) → AllReadable net (contents (recover r url s))
  recover-AllReadable readable u = elim (Bool-cases (str_eq url u)) [
    | inl e ↦
        subst (IsReadable net u)
          (sym
            (ap parent_field (same_url u e) ∙ recovered-parent owner (hget r u s) (url_owner u e)))
          (readable u)
    | inr e ↦ subst (λ o. IsReadable net u (parent_field o)) (sym (other_url u e)) (readable u)
  ]

  recover-Keeps : (other : String) → owner ≢ other → Keeps net r other s (recover r url s)
  recover-Keeps other distinct u h = elim (Bool-cases (str_eq url u)) [
    | inl e ↦ absurd (unheld_of_owner owner other (hget r u s) distinct (url_owner u e) h)
    | inr e ↦ subst (IsHeld other) (sym (other_url u e)) h
  ]

  recover-GainsNone : (id : String) → GainsNone net r id s (recover r url s)
  recover-GainsNone id u h = elim (Bool-cases (str_eq url u)) [
    | inl e ↦ absurd (recovered-unheld id (hget r u s) (subst (IsHeld id) (same_url u e) h))
    | inr e ↦ subst (IsHeld id) (other_url u e) h
  ]

  recover-Moves :
      (other : String) → owner ≢ other → IsSound net r s → Moves net r other s (recover r url s)
  recover-Moves other distinct sound =
      Step-Moves net r other s (recover r url s) sound
        (recovers url (held-processing owner (hget r url s) held)) (recover-Keeps other distinct)
        (recover-AllReadable sound.1)

  pub recover_url-Moves :
      (link : Link) (other : String)
      → owner ≢ other
      → IsSound net r s
      → Moves net r other s (recover_url r link url s).1
  unfolding recover_url
  recover_url-Moves up other distinct sound = recover-Moves other distinct sound
  recover_url-Moves request_lost other distinct sound = Moves-refl net r other s sound
  recover_url-Moves reply_lost other distinct sound = recover-Moves other distinct sound

  pub recover_url-GainsNone :
      (link : Link) (id : String) → GainsNone net r id s (recover_url r link url s).1
  unfolding recover_url
  recover_url-GainsNone up id = recover-GainsNone id
  recover_url-GainsNone request_lost id = λ u h. h
  recover_url-GainsNone reply_lost id = recover-GainsNone id
