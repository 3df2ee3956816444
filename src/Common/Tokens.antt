-- ===== src/Common/Tokens.antt =====
-- Cancellation tokens, which another thread may set while a batch or a page is on its way.
use Prim.Native.Nat.{ℕ}
use mathlib.Core.Path.{◌≡◌, sym, ap, ◌∙◌}
use mathlib.Core.Logic.{◌≢◌}
use mathlib.Core.Bool.{Bool, true, false}
use mathlib.Core.Option.{Option, none, some}

-- The answers of a token, by how often it has been asked.
abbrev pub Answers : Type 0
Answers = Option (ℕ → Bool)

abbrev pub answers : Answers → ℕ → Bool
answers none asked = false
answers (some answer) asked = answer asked

pub answers-none :
    (cancellation : Answers) (asked : ℕ) → answers cancellation asked ≡ true → cancellation ≢ none
answers-none cancellation asked h e =
    let clash : false ≡ true = sym (ap (λ c. answers c asked) e) ∙ h in absurd (cc)
