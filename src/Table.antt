-- ===== src/Table.antt =====
-- A table, before and after a change, row by row.
use marzban.Common.{List, [], ◌∷◌, All}

-- Two tables of the same rows, row by row.
abbrev pub Rows : {A : Type 0} → (A → A → Type 0) → List A → List A → Type 0
Rows R [] [] = Unit
Rows R [] (v ∷ vs) = ⊥
Rows R (u ∷ us) [] = ⊥
Rows R (u ∷ us) (v ∷ vs) = R u v × Rows R us vs

pub Rows-trans :
    {A : Type 0} {R S T : A → A → Type 0}
    → ((a b c : A) → R a b → S b c → T a c)
    → (us vs ws : List A) → Rows R us vs
    → Rows S vs ws
    → Rows T us ws
Rows-trans f [] [] [] r s = tt
Rows-trans f [] [] (c ∷ ws) r s = s
Rows-trans f [] (b ∷ vs) ws r s = absurd r
Rows-trans f (a ∷ us) [] ws r s = absurd r
Rows-trans f (a ∷ us) (b ∷ vs) [] r s = absurd s
Rows-trans f (a ∷ us) (b ∷ vs) (c ∷ ws) r s = (f a b c r.0 s.0, Rows-trans f us vs ws r.1 s.1)

pub Rows-All :
    {A : Type 0} {R : A → A → Type 0} {P Q : A → Type 0}
    → ((a b : A) → R a b → P a → Q b)
    → (us vs : List A) → Rows R us vs
    → All P us
    → All Q vs
Rows-All f [] [] r h = tt
Rows-All f [] (b ∷ vs) r h = absurd r
Rows-All f (a ∷ us) [] r h = tt
Rows-All f (a ∷ us) (b ∷ vs) r h = (f a b r.0 h.0, Rows-All f us vs r.1 h.1)

pub Rows-map :
    {A : Type 0} {R S : A → A → Type 0}
    → ((a b : A) → R a b → S a b)
    → (us vs : List A) → Rows R us vs
    → Rows S us vs
Rows-map f [] [] r = r
Rows-map f [] (b ∷ vs) r = r
Rows-map f (a ∷ us) [] r = r
Rows-map f (a ∷ us) (b ∷ vs) r = (f a b r.0, Rows-map f us vs r.1)
