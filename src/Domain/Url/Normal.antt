-- ===== src/Domain/Url/Normal.antt =====
-- The normal form of a URL.
use Prim.Native.Char.{Char, code}
use text.Mathlib.TextEquality.{Char-path}
use oafse.Common.{
  ℕ, zero, suc, ◌≡◌, ◌∙◌, ◌↔◌, String, true, refl, sym, ap, arith, ◌==◌, Bool-cases, inl, inr,
}
use oafse.Domain.Url.{GoUrl, NetUrl, keep_char, trim_slashes, normalize}

trim-keep_char :
    (c : Char) (s : String) → trim_slashes s ≡ s → trim_slashes (keep_char c s) ≡ keep_char c s
trim-keep_char c String.[] h = elim (Bool-cases (code c == b'/')) [
  | inl e ↦ rw e
  | inr e ↦ rw e (rw e)
]
trim-keep_char c (String.◌∷◌ d s) h = rw h

trim_slashes_idem : (s : String) → trim_slashes (trim_slashes s) ≡ trim_slashes s
trim_slashes_idem String.[] = refl
trim_slashes_idem (String.◌∷◌ c s) = trim-keep_char c (trim_slashes s) (trim_slashes_idem s)

-- `s` and `n` slashes behind it.
abbrev pub with_slashes : String → ℕ → String
with_slashes String.[] zero = String.[]
with_slashes String.[] (suc n) = String.◌∷◌ "/" (with_slashes String.[] n)
with_slashes (String.◌∷◌ c s) n = String.◌∷◌ c (with_slashes s n)

-- The same text, but for the number of slashes at its end.
abbrev pub AreAlike : String → String → Type 0
AreAlike s t = (p : String) × (m n : ℕ) × (s ≡ with_slashes p m) × (t ≡ with_slashes p n)

trim_slashes-slashes : (n : ℕ) → trim_slashes (with_slashes String.[] n) ≡ String.[]
trim_slashes-slashes zero = refl
trim_slashes-slashes (suc n) = rw (trim_slashes-slashes n)

trim_slashes-with_slashes : (s : String) (n : ℕ) → trim_slashes (with_slashes s n) ≡ trim_slashes s
trim_slashes-with_slashes String.[] n = trim_slashes-slashes n
trim_slashes-with_slashes (String.◌∷◌ c s) n = rw (trim_slashes-with_slashes s n)

slash_from_code : (c : Char) → (code c == b'/') ≡ true → c ≡ "/"
slash_from_code c h = Char-path c "/" (ground (arith, h))

cut_at_keep_char :
    (c : Char) (s t : String) (n : ℕ)
    → s ≡ with_slashes t n
    → (m : ℕ) × (String.◌∷◌ c s ≡ with_slashes (keep_char c t) m)
cut_at_keep_char c s String.[] n h = elim (Bool-cases (code c == b'/')) [
  | inl e ↦ rw e (suc n, ap (λ d. String.◌∷◌ d s) (slash_from_code c e) ∙ ap (String.◌∷◌ "/") h)
  | inr e ↦ rw e (n, ap (String.◌∷◌ c) h)
]
cut_at_keep_char c s (String.◌∷◌ d t) n h = (n, ap (String.◌∷◌ c) h)

-- A text is its trimmed form and some slashes.
cut : (s : String) → (n : ℕ) × (s ≡ with_slashes (trim_slashes s) n)
cut String.[] = (zero, refl)
cut (String.◌∷◌ c s) = let (n, h) = cut s in cut_at_keep_char c s (trim_slashes s) n h

AreAlike-trim_slashes : (s t : String) → trim_slashes s ≡ trim_slashes t → AreAlike s t
AreAlike-trim_slashes s t e =
    let (m, h) = cut s in
    let (n, k) = cut t in (trim_slashes s, m, n, h, k ∙ ap (λ p. with_slashes p n) (sym e))

trim_slashes-AreAlike : (s t : String) → AreAlike s t → trim_slashes s ≡ trim_slashes t
trim_slashes-AreAlike s t (p, m, n, h, k) =
    ap trim_slashes h
    ∙ trim_slashes-with_slashes p m
    ∙ sym (trim_slashes-with_slashes p n)
    ∙ sym (ap trim_slashes k)

module _ (net : NetUrl) where
  -- Normalizing a URL a second time changes nothing.
  normalize_idem : (u : GoUrl) → normalize net (normalize net u) ≡ normalize net u
  unfolding normalize
  normalize_idem u = rw (net.to_lower_idem, trim_slashes_idem)

  -- Two URLs have one normal form exactly if they agree in scheme, opaque part, escaped path and
  -- omitted host, their hosts have one lower-case form, and their paths are one text followed by
  -- two numbers of slashes. The user, the query and the fragment make no difference.
  pub normalize_iff :
      (u v : GoUrl)
      → (normalize net u ≡ normalize net v) ↔ (
          (u.scheme ≡ v.scheme)
          × (u.opaque ≡ v.opaque)
          × (net.to_lower u.host ≡ net.to_lower v.host)
          × AreAlike u.path v.path
          × (u.raw_path ≡ v.raw_path)
          × (u.omit_host ≡ v.omit_host))
  unfolding normalize
  normalize_iff u v = (
    λ e. (
      ap (λ w. w.scheme) e,
      ap (λ w. w.opaque) e,
      ap (λ w. w.host) e,
      AreAlike-trim_slashes u.path v.path (ap (λ w. w.path) e),
      ap (λ w. w.raw_path) e,
      ap (λ w. w.omit_host) e,
    ),
    λ (schemes, opaques, hosts, paths, raws, omits).
        let same = trim_slashes-AreAlike u.path v.path paths in
        ground (arith, same, schemes, opaques, hosts, raws, omits),
  )
