-- ===== src/Text/Trim.antt =====
-- What `trim` leaves whole.
use mathlib.Core.List.{reverse, reverse-append, reverse-reverse}
use mathlib.Core.Path.{◌≡⟨◌⟩◌, ◌∎}
use kepler.Prelude.{ℕ, ◌≡◌, ap, sym, ◌∙◌, false, [], ◌∷◌, ◌++◌}
use kepler.Text.{Str, trim, trim_start, is_whitespace}

trim_start_id : (c : ℕ) (s : Str) → is_whitespace c ≡ false → trim_start (c ∷ s) ≡ c ∷ s
unfolding trim_start
trim_start_id c s h = rw h

-- A text between two characters that are no white space is left whole.
pub trim_id :
    (c d : ℕ) (s t : Str)
    → is_whitespace c ≡ false
    → is_whitespace d ≡ false
    → c ∷ s ≡ t ++ d ∷ []
    → trim (c ∷ s) ≡ c ∷ s
unfolding trim
trim_id c d s t hc hd e =
    trim (c ∷ s)
    ≡⟨ ap (λ x. reverse (trim_start (reverse x))) (trim_start_id c s hc) ⟩
      reverse (trim_start (reverse (c ∷ s)))
    ≡⟨ ap (λ x. reverse (trim_start x)) (ap reverse e ∙ reverse-append t (d ∷ [])) ⟩
      reverse (trim_start (d ∷ reverse t))
    ≡⟨ ap reverse (trim_start_id d (reverse t) hd) ⟩ reverse (d ∷ reverse t)
    ≡⟨ ap reverse (sym (ap reverse e ∙ reverse-append t (d ∷ []))) ⟩ reverse (reverse (c ∷ s))
    ≡⟨ reverse-reverse (c ∷ s) ⟩ c ∷ s ∎
