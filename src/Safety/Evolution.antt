-- ===== src/Safety/Evolution.antt =====
-- How a relation between a group before and after a call carries over to the map of groups.
use mathlib.Core.Path.{subst}
use new_robot.Base.{String, ◌≡◌, inl, inr, some, arith, eq_iff, str_eq, Bool-cases}
use new_robot.Base.Names.{Map, lookup, adjust, map_entries, lookup-adjust, lookup-map_entries}
use new_robot.Safety.Types.{Group}

-- Every group is still there, and stands in the relation for its name to what it was.
abbrev pub EvolvesAt : (String → Group → Group → Type 0) → Map Group → Map Group → Type 0
EvolvesAt R gs gs' =
    (n : String) (g : Group)
    → lookup n gs ≡ some g
    → (g' : Group) × (lookup n gs' ≡ some g') × R n g g'

abbrev pub Evolves : (Group → Group → Type 0) → Map Group → Map Group → Type 0
Evolves R = EvolvesAt (λ n. R)

pub EvolvesAt-weaken :
    (R S : String → Group → Group → Type 0) (gs hs : Map Group)
    → ((n : String) (g g' : Group) → R n g g' → S n g g')
    → EvolvesAt R gs hs
    → EvolvesAt S gs hs
EvolvesAt-weaken R S gs hs w p n g h = let (g', e, r) = p n g h in (g', e, w n g g' r)

-- First one relation, then another.
pub EvolvesAt-compose :
    (R S T : String → Group → Group → Type 0) (gs hs ks : Map Group)
    → ((n : String) (a b c : Group) → R n a b → S n b c → T n a c)
    → EvolvesAt R gs hs
    → EvolvesAt S hs ks
    → EvolvesAt T gs ks
EvolvesAt-compose R S T gs hs ks t p q n g h =
    let (g', e, r) = p n g h in let (k, f, s) = q n g' e in (k, f, t n g g' k r s)

-- One group is given anew.
pub EvolvesAt-adjust :
    (R : String → Group → Group → Type 0) (k : String) (f : Group → Group) (gs : Map Group)
    → ((n : String) (g : Group) → R n g g)
    → ((g : Group) → lookup k gs ≡ some g → R k g (f g))
    → EvolvesAt R gs (adjust k f gs)
EvolvesAt-adjust R k f gs r s n g h = elim (Bool-cases (str_eq k n)) [
  | inl e ↦
      let same = (eq_iff k n).0 e in
      (f g, ground (arith, lookup-adjust k n f gs), subst (λ m. R m g (f g)) same (s g (rw same h)))
  | inr e ↦ (g, ground (arith, lookup-adjust k n f gs), r n g)
]

module _ (R : Group → Group → Type 0) where
  pub Evolves-refl : ((g : Group) → R g g) → (gs : Map Group) → Evolves R gs gs
  Evolves-refl r gs n g h = (g, h, r g)

  pub Evolves-trans :
      ((a b c : Group) → R a b → R b c → R a c)
      → (gs hs ks : Map Group) → Evolves R gs hs
      → Evolves R hs ks
      → Evolves R gs ks
  Evolves-trans t gs hs ks p q = EvolvesAt-compose (λ n. R) (λ n. R) (λ n. R) gs hs ks (λ n. t) p q

  pub Evolves-map_entries :
      (f : String → Group → Group) (gs : Map Group)
      → ((n : String) (g : Group) → R g (f n g))
      → Evolves R gs (map_entries f gs)
  Evolves-map_entries f gs r n g h = (f n g, ground (arith, lookup-map_entries n f gs), r n g)

  pub Evolves-adjust :
      (k : String) (f : Group → Group) (gs : Map Group)
      → ((g : Group) → R g g)
      → ((g : Group) → lookup k gs ≡ some g → R g (f g))
      → Evolves R gs (adjust k f gs)
  Evolves-adjust k f gs r s = EvolvesAt-adjust (λ n. R) k f gs (λ n. r) s
