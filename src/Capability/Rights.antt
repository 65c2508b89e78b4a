-- ===== src/Capability/Rights.antt =====
-- crates/capability/src/rights.rs: the rights of a capability, a bit set in a `u32`.
pub mod Lattice
use muaddib.Prelude.{ℕ, Bool, bit_and, bit_or, ◌==◌, List, [], ◌∷◌, ◌++◌, map, filter}

abbrev pub Rights : Type 0
Rights = ℕ

abbrev pub none : Rights
none = 0

abbrev pub read : Rights
read = 1

abbrev pub write : Rights
write = 2

abbrev pub execute : Rights
execute = 4

abbrev pub grant : Rights
grant = 8

abbrev pub destroy : Rights
destroy = 16

-- `BitOr` and `BitAnd`.
infixl 60 ◌∪◌ ◌∩◌
unfoldable pub ◌∪◌ : Rights → Rights → Rights
a ∪ b = bit_or a b

unfoldable pub ◌∩◌ : Rights → Rights → Rights
a ∩ b = bit_and a b

unfoldable pub all : Rights
unfolding ◌∪◌
all = read ∪ write ∪ execute ∪ grant ∪ destroy

-- Every bit of `required` is a bit of `r`.
unfoldable pub contains : Rights → Rights → Bool
contains r required = bit_and r required == required

unfoldable pub is_empty : Rights → Bool
is_empty r = r == 0

-- `Display`: the names of the five rights, as ASCII, and what is shown of a set.
abbrev names : List (Rights × List ℕ)
names =
    (read, 82 ∷ 69 ∷ 65 ∷ 68 ∷ [])
    ∷ (write, 87 ∷ 82 ∷ 73 ∷ 84 ∷ 69 ∷ [])
    ∷ (execute, 69 ∷ 88 ∷ 69 ∷ 67 ∷ 85 ∷ 84 ∷ 69 ∷ [])
    ∷ (grant, 71 ∷ 82 ∷ 65 ∷ 78 ∷ 84 ∷ [])
    ∷ (destroy, 68 ∷ 69 ∷ 83 ∷ 84 ∷ 82 ∷ 79 ∷ 89 ∷ [])
    ∷ []

-- `join("|")`.
abbrev join : List (List ℕ) → List ℕ
join [] = []
join (name ∷ []) = name
join (name ∷ next ∷ rest) = name ++ 124 ∷ join (next ∷ rest)

abbrev shown : List (List ℕ) → List ℕ
shown [] = 78 ∷ 79 ∷ 78 ∷ 69 ∷ []
shown (name ∷ rest) = join (name ∷ rest)

unfoldable pub fmt : Rights → List ℕ
unfolding contains
fmt r = shown (map (λ e. e.1) (filter (λ e. contains r e.0) names))
