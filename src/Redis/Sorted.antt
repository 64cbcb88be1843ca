-- ===== src/Redis/Sorted.antt =====
-- The sorted set of the retry queue stays in the order of its scores.
use oafse.Common.{ℕ, ◌≡◌, String, Bool, true, List, [], ◌∷◌, arith}
use oafse.Common.Int.{ℤ, int_leb}
use oafse.Redis.Db.{Scored, zremove, zinsert, zremove_upto, precedes}

abbrev pub AllAtLeast : ℤ → List Scored → Type 0
AllAtLeast t [] = Unit
AllAtLeast t (e ∷ es) = (int_leb t e.score ≡ true) × AllAtLeast t es

abbrev pub IsSorted : List Scored → Type 0
IsSorted [] = Unit
IsSorted (e ∷ es) = AllAtLeast e.score es × IsSorted es

int_leb_trans : (a b c : ℤ) → int_leb a b ≡ true → int_leb b c ≡ true → int_leb a c ≡ true
int_leb_trans a b c h k = ground arith

AllAtLeast-weaken :
    (a b : ℤ) (es : List Scored) → int_leb a b ≡ true → AllAtLeast b es → AllAtLeast a es
AllAtLeast-weaken a b [] h k = k
AllAtLeast-weaken a b (e ∷ es) h k =
    (int_leb_trans a b e.score h k.0, AllAtLeast-weaken a b es h k.1)

AllAtLeast-zremove :
    (t : ℤ) (u : String) (es : List Scored) → AllAtLeast t es → AllAtLeast t (zremove u es)
AllAtLeast-zremove t u [] h = h
AllAtLeast-zremove t u (e ∷ es) h = ground (arith, AllAtLeast-zremove t u es)

pub IsSorted-zremove : (u : String) (es : List Scored) → IsSorted es → IsSorted (zremove u es)
IsSorted-zremove u [] h = h
IsSorted-zremove u (e ∷ es) h =
    ground (arith, IsSorted-zremove u es, AllAtLeast-zremove e.score u es)

AllAtLeast-zremove_upto :
    (t : ℤ) (now : ℕ) (es : List Scored) → AllAtLeast t es → AllAtLeast t (zremove_upto now es)
AllAtLeast-zremove_upto t now [] h = h
AllAtLeast-zremove_upto t now (e ∷ es) h = ground (arith, AllAtLeast-zremove_upto t now es)

pub IsSorted-zremove_upto :
    (now : ℕ) (es : List Scored) → IsSorted es → IsSorted (zremove_upto now es)
IsSorted-zremove_upto now [] h = h
IsSorted-zremove_upto now (e ∷ es) h =
    ground (arith, IsSorted-zremove_upto now es, AllAtLeast-zremove_upto e.score now es)

module _ (before : String → String → Bool) where
  precedes-le : (e a : Scored) → precedes before e a ≡ true → int_leb e.score a.score ≡ true
  precedes-le e a h = ground arith

  AllAtLeast-zinsert :
      (t : ℤ) (a : Scored) (es : List Scored)
      → int_leb t a.score ≡ true
      → AllAtLeast t es
      → AllAtLeast t (zinsert before a es)
  AllAtLeast-zinsert t a [] h k = (h, tt)
  AllAtLeast-zinsert t a (e ∷ es) h k = ground (arith, AllAtLeast-zinsert t a es)

  pub IsSorted-zinsert :
      (a : Scored) (es : List Scored) → IsSorted es → IsSorted (zinsert before a es)
  IsSorted-zinsert a [] h = (tt, tt)
  IsSorted-zinsert a (e ∷ es) h = ground (
    arith,
    IsSorted-zinsert a es,
    AllAtLeast-zinsert e.score a es,
    precedes-le e a,
    AllAtLeast-weaken a.score e.score es,
  )
