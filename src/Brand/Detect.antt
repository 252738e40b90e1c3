-- ===== src/Brand/Detect.antt =====
-- What the detection makes of a name.
use sonny.Prelude.{
  ℕ, ◌≡◌, refl, ap, ◌∙◌, Bool, true, false, ◌||◌, List, [], ◌∷◌, ◌++◌, ◌==◌, ==_iff,
}
use sonny.Brand.{
  RobotBrand, generic, kuka, comau, universal_robots, franka_emika, luwu_dynamics, amr, lower,
  to_ascii_lowercase, starts_with, contains, word_kuka, from_manufacturer, label,
}

-- The label of every brand is recognized as that brand.
pub from_manufacturer-label : (b : RobotBrand) → from_manufacturer (label b) ≡ b
unfolding from_manufacturer
from_manufacturer-label generic = refl
from_manufacturer-label kuka = refl
from_manufacturer-label comau = refl
from_manufacturer-label universal_robots = refl
from_manufacturer-label franka_emika = refl
from_manufacturer-label luwu_dynamics = refl
from_manufacturer-label amr = refl

lowercase-append :
    (s t : List ℕ) → to_ascii_lowercase (s ++ t) ≡ to_ascii_lowercase s ++ to_ascii_lowercase t
lowercase-append [] t = refl
lowercase-append (c ∷ s) t = ap (lower c ∷◌) (lowercase-append s t)

starts_with-append : (k rest : List ℕ) → starts_with (k ++ rest) k ≡ true
starts_with-append [] rest = refl
starts_with-append (c ∷ k) rest =
    let same : (c == c) ≡ true = (==_iff c c).1 refl in rw (same, starts_with-append k rest) refl

contains-starts : (s k : List ℕ) → starts_with s k ≡ true → contains s k ≡ true
contains-starts [] k h = h
contains-starts (d ∷ s) k h = rw h refl

or_true : (b : Bool) → (b || true) ≡ true
or_true true = refl
or_true false = refl

contains-append : (pre k rest : List ℕ) → contains (pre ++ (k ++ rest)) k ≡ true
contains-append [] k rest = contains-starts (k ++ rest) k (starts_with-append k rest)
contains-append (d ∷ pre) k rest =
    rw (contains-append pre k rest) (or_true (starts_with (d ∷ (pre ++ (k ++ rest))) k))

-- A name with the letters of "kuka" anywhere in it, in either case, is KUKA's, whatever else it holds.
pub from_manufacturer-kuka :
    (pre name rest : List ℕ)
    → to_ascii_lowercase name ≡ word_kuka
    → from_manufacturer (pre ++ (name ++ rest)) ≡ kuka
unfolding from_manufacturer
from_manufacturer-kuka pre name rest e =
    let lowered : to_ascii_lowercase (pre ++ (name ++ rest))
        ≡ to_ascii_lowercase pre ++ (word_kuka ++ to_ascii_lowercase rest) =
      lowercase-append pre (name ++ rest)
      ∙ ap (to_ascii_lowercase pre ++◌)
          (lowercase-append name rest ∙ ap (◌++ to_ascii_lowercase rest) e) in
    let found : contains (to_ascii_lowercase (pre ++ (name ++ rest))) word_kuka ≡ true =
      rw lowered (contains-append (to_ascii_lowercase pre) word_kuka (to_ascii_lowercase rest)) in
    rw found refl
