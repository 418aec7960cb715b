-- ===== src/Controller/Env/Trim.antt =====
-- `strings.TrimSpace` of a text that has no space.
use runbooks.Prelude.{String, ◌≡◌, refl, false}
use runbooks.Controller.Env.Match.{is_space, trim_left, trim_right, trim_space}

abbrev pub NoSpace : String → Type 0
NoSpace String.[] = Unit
NoSpace (String.◌∷◌ c s) = (is_space c ≡ false) × NoSpace s

trim_right-NoSpace : (s : String) → NoSpace s → trim_right s ≡ s
unfolding trim_right
trim_right-NoSpace String.[] clear = refl
trim_right-NoSpace (String.◌∷◌ c s) (solid, clear) =
    rw (solid) (rw (trim_right-NoSpace s clear) refl)

trim_left-NoSpace : (s : String) → NoSpace s → trim_left s ≡ s
unfolding trim_left
trim_left-NoSpace String.[] clear = refl
trim_left-NoSpace (String.◌∷◌ c s) (solid, clear) = rw (solid) refl

pub trim_space-NoSpace : (s : String) → NoSpace s → trim_space s ≡ s
unfolding trim_space
trim_space-NoSpace s clear = rw (trim_right-NoSpace s clear) (trim_left-NoSpace s clear)
