-- ===== src/Screen/Print.antt =====
-- videoDriver.c: a text stays in the window.
use g21_tp2_so_1c.Base.{ℕ, ◌≡◌, ◌==◌, Bool, true, false, if◌then◌else◌, List, [], ◌∷◌}
use g21_tp2_so_1c.Screen.{Screen, is_control}

-- Whether nothing is on the line after a character.
abbrev pub fresh_after : Bool → ℕ → Bool
fresh_after fresh c = if c == 10 then true else if is_control c then fresh else false

-- A text with no backspace and no empty line, after a line with something on it or a `fresh` one.
abbrev pub Filled : Bool → List ℕ → Type 0
Filled fresh [] = Unit {0}
Filled fresh (c ∷ cs) = ((c ≡ 10 → fresh ≡ false) × (¬ (c ≡ 8))) × Filled (fresh_after fresh c) cs

abbrev Leaves : Screen → ℕ × Screen → Type 0
Leaves s r = r.1 ≡ s
